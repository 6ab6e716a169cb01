-- ===== src/Sky/Crc/Detect.antt =====
-- `sky_crc16` detects the corruption of any one byte: every round can be undone.
use native.Mathlib.Decide.{dec_lt}
use wireless_skyportal_conne.Prelude.{
  ◌≢◌, ℕ, zero, suc, ◌+◌, ◌-◌, ◌*◌, ◌%◌, ◌^◌, ◌<◌, bit_xor, ◌≡◌, arith, ap, ◌∙◌, sym, List, [], ◌∷◌,
  ◌++◌,
}
use wireless_skyportal_conne.Bits.{bit_xor_digit}
use wireless_skyportal_conne.Bits.Xor.{
  bit_xor-lt, bit_xor_low, bit_xor_cancel_left, bit_xor_cancel_right,
}
use wireless_skyportal_conne.Sky.Crc.{crc_bit, crc_bits, crc_byte, crc_from, crc16}
use wireless_skyportal_conne.Sky.Crc.Residue.{
  AreBytes, crc_bit_low, crc_bit_high, crc_bit-lt, crc_byte-lt, crc_from-lt, crc_from-append,
}

-- With the top bit set, it goes, and the polynomial comes in.
crc_bit_top : (c : ℕ) → 2 ^ 15 < suc c → c < 2 ^ 16 → crc_bit c ≡ bit_xor ((c - 2 ^ 15) * 2) 0x1021
crc_bit_top c h k = omega (
  arith,
  crc_bit_high c h k,
  ap (λ t. bit_xor t 0x1021) shifted,
  bit_xor_low 16 1 ((c - 2 ^ 15) * 2) 0x1021 (omega arith) (omega arith),
  bit_xor-lt 16 ((c - 2 ^ 15) * 2) 0x1021 (omega arith) (omega arith),
)
  where
    shifted : c * 2 ≡ 1 * 2 ^ 16 + (c - 2 ^ 15) * 2
    shifted = omega arith

crc_bit_odd : (c : ℕ) → 2 ^ 15 < suc c → c < 2 ^ 16 → crc_bit c % 2 ≡ 1
crc_bit_odd c h k =
    let r = (c - 2 ^ 15) * 2 in omega (arith, crc_bit_top c h k, bit_xor_digit r 0x1021)

-- The low bit of the result tells the two kinds of round apart, and each loses nothing.
crc_bit_injective : (c d : ℕ) → c < 2 ^ 16 → d < 2 ^ 16 → crc_bit c ≡ crc_bit d → c ≡ d
crc_bit_injective c d h k e = elim (dec_lt c (2 ^ 15)) [
  | yes p ↦ elim (dec_lt d (2 ^ 15)) [
    | yes q ↦ omega (arith, crc_bit_low c p, crc_bit_low d q)
    | no q ↦ absurd (omega (arith, crc_bit_low c p, crc_bit_odd d (omega arith) k))
  ]
  | no p ↦ elim (dec_lt d (2 ^ 15)) [
    | yes q ↦ absurd (omega (arith, crc_bit_odd c (omega arith) h, crc_bit_low d q))
    | no q ↦ omega (
      arith,
      bit_xor_cancel_right ((c - 2 ^ 15) * 2) ((d - 2 ^ 15) * 2) 0x1021
          (sym (crc_bit_top c (omega arith) h) ∙ e ∙ crc_bit_top d (omega arith) k),
    )
  ]
]

crc_bits_injective : (n c d : ℕ) → c < 2 ^ 16 → d < 2 ^ 16 → crc_bits n c ≡ crc_bits n d → c ≡ d
unfolding crc_bits
crc_bits_injective zero c d h k e = e
crc_bits_injective (suc n) c d h k e =
    crc_bit_injective c d h k
      (crc_bits_injective n (crc_bit c) (crc_bit d) (crc_bit-lt c) (crc_bit-lt d) e)

-- A register that has taken in the same bytes was the same before.
crc_from_injective :
    (c d : ℕ) (xs : List ℕ)
    → c < 2 ^ 16
    → d < 2 ^ 16
    → AreBytes xs
    → crc_from c xs ≡ crc_from d xs
    → c ≡ d
unfolding crc_from crc_byte
crc_from_injective c d [] h k b e = e
crc_from_injective c d (x ∷ xs) h k b e = bit_xor_cancel_right c d (x * 2 ^ 8) (
    crc_bits_injective 8 _ _ (bit_xor-lt 16 c (x * 2 ^ 8) h (omega arith))
      (bit_xor-lt 16 d (x * 2 ^ 8) k (omega arith))
      (crc_from_injective (crc_byte c x) (crc_byte d x) xs (crc_byte-lt c x h b.0)
        (crc_byte-lt d x k b.0) b.1 e))

crc_byte_injective :
    (c a b : ℕ) → c < 2 ^ 16 → a < 256 → b < 256 → crc_byte c a ≡ crc_byte c b → a ≡ b
unfolding crc_byte
crc_byte_injective c a b h k l e = omega (
  arith,
  bit_xor_cancel_left (a * 2 ^ 8) (b * 2 ^ 8) c (
      crc_bits_injective 8 _ _ (bit_xor-lt 16 c (a * 2 ^ 8) h (omega arith))
        (bit_xor-lt 16 c (b * 2 ^ 8) h (omega arith)) e),
)

one_byte :
    (xs : List ℕ) (a b : ℕ) (ys : List ℕ)
    → AreBytes xs
    → a < 256
    → b < 256
    → AreBytes ys
    → crc16 (xs ++ a ∷ ys) ≡ crc16 (xs ++ b ∷ ys)
    → a ≡ b
unfolding crc16 crc_from
one_byte xs a b ys hx ha hb hy e =
    let c = crc_from 0xFFFF xs in
    let c-lt : c < 2 ^ 16 = crc_from-lt 0xFFFF xs (omega arith) hx in
    crc_byte_injective c a b c-lt ha hb (
      crc_from_injective (crc_byte c a) (crc_byte c b) ys (crc_byte-lt c a c-lt ha)
        (crc_byte-lt c b c-lt hb) hy
        (sym (crc_from-append 0xFFFF xs (a ∷ ys)) ∙ e ∙ crc_from-append 0xFFFF xs (b ∷ ys)))

-- Two messages of bytes, of one length, that differ in exactly one place have different CRCs.
pub crc16_detects :
    (xs : List ℕ) (a b : ℕ) (ys : List ℕ)
    → AreBytes xs
    → a < 256
    → b < 256
    → AreBytes ys
    → a ≢ b
    → crc16 (xs ++ a ∷ ys) ≢ crc16 (xs ++ b ∷ ys)
crc16_detects xs a b ys hx ha hb hy ne = λ e. ne (one_byte xs a b ys hx ha hb hy e)
