-- ===== src/Display/Text.antt =====
-- What `display_text` of console-side/src/display.c draws.
use wireless_skyportal_conne.Prelude.{
  ℕ, zero, suc, ◌+◌, ◌-◌, ◌/◌, ◌≤◌, ◌≡◌, refl, arith, ap, sym, List, [], ◌∷◌, leb, take, map,
  Bool-cases, inl, inr,
}
use wireless_skyportal_conne.Display.{CharAt, char_of, display_text}

-- Every character lies on the panel's width.
abbrev pub Fits : List CharAt → Type 0
Fits [] = Unit {0}
Fits (c ∷ cs) = (c.x + 8 ≤ 160) × Fits cs

no_text : (n : ℕ) → take {A = ℕ} n [] ≡ []
no_text zero = refl
no_text (suc n) = refl

-- A text that starts on the panel draws, in order, the characters that fit to the right of its start,
-- `(160 - x) / 8` at most, and none that reaches over the edge.
pub display_text_lem :
    (x y : ℕ) (s : List ℕ)
    → x ≤ 160
    → (map char_of (display_text x y s) ≡ take ((160 - x) / 8) s) × Fits (display_text x y s)
unfolding display_text
display_text_lem x y [] h = (sym (no_text ((160 - x) / 8)), tt)
display_text_lem x y (ch ∷ s) h = elim (Bool-cases (leb (x + 8) 160)) [
  | inl e ↦
      let room : x + 8 ≤ 160 = ground arith in
      let one_more : (160 - x) / 8 ≡ suc ((160 - (x + 8)) / 8) = omega (arith, room) in
      let (a, b) = display_text_lem (x + 8) y s room in rw (e, one_more) (ap (◌∷◌ ch) a, (room, b))
  | inr e ↦ let none_fits : (160 - x) / 8 ≡ 0 = ground arith in rw (e, none_fits) (refl, tt)
]
