-- ===== src/Display.antt =====
-- console-side/src/display.c: the text and the fill; Display/Init has `display_init`. The panel's calls are
-- what the functions return; the font is a parameter.
pub mod Text
pub mod Init
use wireless_skyportal_conne.Prelude.{
  ℕ, zero, suc, ◌+◌, ◌-◌, ◌*◌, ◌/◌, ◌^◌, ◌≤◌, ◌≡◌, bit_and, bit_or, ◌%◌, refl, arith, ap, sym, Bool,
  List, [], ◌∷◌, ◌++◌, ◌==◌, leb, if◌then◌else◌, take, map, replicate, Bool-cases, inl, inr,
}

abbrev pub lcd_w : ℕ
lcd_w = 160

abbrev pub lcd_h : ℕ
lcd_h = 80

-- `RGB565`
abbrev pub rgb565 : ℕ → ℕ → ℕ → ℕ
rgb565 r g b =
    bit_or (bit_or (bit_and r 0xF8 * 2 ^ 8) (bit_and g 0xFC * 2 ^ 3)) (b / 2 ^ 3) % 2 ^ 16

-- `esp_lcd_panel_draw_bitmap`: the corners, and the pixels row by row.
pub record Bitmap : Type 0 where
  pub x_start : ℕ
  pub y_start : ℕ
  pub x_end : ℕ
  pub y_end : ℕ
  pub pixels : List ℕ

-- The strips from row `y` on, `n` left.
unfoldable pub fill_loop : ℕ → ℕ → ℕ → List Bitmap
fill_loop zero y color = []
fill_loop (suc n) y color =
    let h = if leb (y + 20) lcd_h then 20 else lcd_h - y in
    record {
      x_start = 0;
      y_start = y;
      x_end = lcd_w;
      y_end = y + h;
      pixels = replicate (lcd_w * 20) color;
    }
    ∷ fill_loop n (y + 20) color

-- Eighty rows in steps of 20: four strips.
unfoldable pub display_fill : Bool → ℕ → List Bitmap
display_fill has_panel color = if has_panel then fill_loop 4 0 color else []

-- The pixels of a row of a character, of which `n` are left, from bit `b` on.
unfoldable pub char_row : ℕ → ℕ → ℕ → ℕ → ℕ → List ℕ
char_row zero b bits fg bg = []
char_row (suc n) b bits fg bg =
    (if bit_and (bits / 2 ^ b) 1 == 0 then bg else fg) ∷ char_row n (suc b) bits fg bg

unfoldable pub char_rows : List ℕ → ℕ → ℕ → List ℕ
char_rows [] fg bg = []
char_rows (bits ∷ rows) fg bg = char_row 8 0 bits fg bg ++ char_rows rows fg bg

-- `font c` is the eight bytes of `font8x8_basic[c]`.
unfoldable pub display_char : Bool → (ℕ → List ℕ) → ℕ → ℕ → ℕ → ℕ → ℕ → List Bitmap
display_char has_panel font x y ch fg bg =
    if has_panel
    then record {
      x_start = x;
      y_start = y;
      x_end = x + 8;
      y_end = y + 8;
      pixels = char_rows (font (if leb 128 ch then b'?' else ch)) fg bg;
    }
      ∷ []
    else []

-- A call of `display_char`.
pub record CharAt : Type 0 where
  pub x : ℕ
  pub y : ℕ
  pub char_of : ℕ

abbrev pub char_of : CharAt → ℕ
char_of c = c.char_of

-- `s` is the bytes before the final 0.
unfoldable pub display_text : ℕ → ℕ → List ℕ → List CharAt
display_text x y [] = []
display_text x y (ch ∷ s) =
    let rest = display_text (x + 8) y s in
    if leb (x + 8) lcd_w then record { x = x; y = y; char_of = ch } ∷ rest else []
