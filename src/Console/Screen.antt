-- ===== src/Console/Screen.antt =====
-- `draw_line` of console-side/src/main.c: a line of the status screen.
use wireless_skyportal_conne.Prelude.{
  ℕ, ◌-◌, ◌*◌, ◌≡◌, arith, ◌∙◌, List, ◌++◌, length, take, map, replicate, take_all, length-append,
  length-replicate, length-take,
}
use wireless_skyportal_conne.Console.Log.{lcd_cols}
use wireless_skyportal_conne.Display.{CharAt, char_of, display_text}
use wireless_skyportal_conne.Display.Text.{Fits, display_text_lem}

-- `"%-20.20s"`: at most 20 characters, and spaces up to 20.
unfoldable pub padded : List ℕ → List ℕ
padded t = take lcd_cols t ++ replicate (lcd_cols - length (take lcd_cols t)) b' '

unfoldable pub draw_line : ℕ → List ℕ → List CharAt
draw_line row t = display_text 0 (row * 8) (padded t)

length-padded : (t : List ℕ) → length (padded t) ≡ 20
unfolding padded
length-padded t = omega (
  arith,
  length-append (take 20 t) (replicate (20 - length (take 20 t)) b' '),
  length-replicate {A = ℕ} (20 - length (take 20 t)) b' ',
  length-take 20 t,
)

-- A line draws 20 characters, which fill the width of the panel: the first 20 of its text, and spaces
-- over whatever stood to the right of a shorter text before.
draw_line_lem :
    (row : ℕ) (t : List ℕ)
    → (map char_of (draw_line row t) ≡ take 20 t ++ replicate (20 - length (take 20 t)) b' ')
      × (length (padded t) ≡ 20)
      × Fits (draw_line row t)
unfolding draw_line padded
draw_line_lem row t =
    let (a, b) = display_text_lem 0 (row * 8) (padded t) (omega arith) in
    (a ∙ take_all 20 (padded t) (omega (arith, length-padded t)), length-padded t, b)
