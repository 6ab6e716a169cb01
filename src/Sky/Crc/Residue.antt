-- ===== src/Sky/Crc/Residue.antt =====
-- The register of `sky_crc16` stays a 16-bit word, and a message with its own CRC appended has CRC 0.
use native.Mathlib.Nat.{pow-suc, one-le-pow}
use wireless_skyportal_conne.Prelude.{
  ℕ, zero, suc, ◌+◌, ◌*◌, ◌/◌, ◌%◌, ◌^◌, ◌<◌, bit_xor, ◌≤◌, ◌≡◌, refl, arith, ap, sym, ◌∙◌, List,
  [], ◌∷◌, ◌++◌,
}
use wireless_skyportal_conne.Bits.Fields.{bit_and_single}
use wireless_skyportal_conne.Bits.Xor.{bit_xor_self, bit_xor-lt, bit_xor_high}
use wireless_skyportal_conne.Sky.Crc.{crc_bit, crc_bits, crc_byte, crc_from, crc16}

pub crc_bit_low : (c : ℕ) → c < 2 ^ 15 → crc_bit c ≡ c * 2
unfolding crc_bit
crc_bit_low c h = ground (arith, bit_and_single 15 c)

pub crc_bit_high :
    (c : ℕ) → 2 ^ 15 < suc c → c < 2 ^ 16 → crc_bit c ≡ bit_xor (c * 2) 0x1021 % 2 ^ 16
unfolding crc_bit
crc_bit_high c h k = ground (arith, bit_and_single 15 c)

pub crc_bit-lt : (c : ℕ) → crc_bit c < 2 ^ 16
unfolding crc_bit
crc_bit-lt c = ground arith

pub crc_bits-lt : (n c : ℕ) → c < 2 ^ 16 → crc_bits n c < 2 ^ 16
unfolding crc_bits
crc_bits-lt zero c h = h
crc_bits-lt (suc n) c h = crc_bits-lt n (crc_bit c) (crc_bit-lt c)

pub crc_byte-lt : (c d : ℕ) → c < 2 ^ 16 → d < 256 → crc_byte c d < 2 ^ 16
unfolding crc_byte
crc_byte-lt c d h k = crc_bits-lt 8 _ (bit_xor-lt 16 c (d * 2 ^ 8) h (omega arith))

fits : (c p : ℕ) → 1 ≤ p → c * 2 * p < 2 ^ 16 → c < 2 ^ 15
fits c p h k = grind arith

-- While no one is shifted out, a round is a doubling.
crc_bits_small : (n c : ℕ) → c * 2 ^ n < 2 ^ 16 → crc_bits n c ≡ c * 2 ^ n
unfolding crc_bits
crc_bits_small zero c h = omega arith
crc_bits_small (suc n) c h =
    rw (crc_bit_low c (fits c (2 ^ n) (one-le-pow n 2 (omega arith)) (omega (arith, doubled))))
      (crc_bits_small n (c * 2) (omega (arith, doubled)) ∙ sym doubled)
  where
    doubled : c * 2 ^ suc n ≡ c * 2 * 2 ^ n
    doubled = omega (arith, ap (λ (t : ℕ). c * t) (pow-suc 2 n))

crc_byte_top : (c : ℕ) → c < 2 ^ 16 → crc_byte c (c / 256) ≡ c % 256 * 256
unfolding crc_byte
crc_byte_top c h = rw e (crc_bits_small 8 (c % 256) (omega arith))
  where
    e : bit_xor c (c / 256 * 2 ^ 8) ≡ c % 256
    e = omega (
      arith,
      ap (λ t. bit_xor t (c / 256 * 2 ^ 8)) whole,
      bit_xor_high 8 (c / 256) (c % 256) (c / 256) (omega arith),
      bit_xor_self (c / 256),
    )
      where
        whole : c ≡ c / 256 * 2 ^ 8 + c % 256
        whole = omega arith

crc_byte_same : (d : ℕ) → d < 256 → crc_byte (d * 256) d ≡ 0
unfolding crc_byte
crc_byte_same d h = rw (bit_xor_self (d * 256)) (crc_bits_small 8 0 (omega arith))

pub crc_from-append : (c : ℕ) (xs ys : List ℕ) → crc_from c (xs ++ ys) ≡ crc_from (crc_from c xs) ys
unfolding crc_from
crc_from-append c [] ys = refl
crc_from-append c (x ∷ xs) ys = crc_from-append (crc_byte c x) xs ys

-- All entries of a list are bytes.
abbrev pub AreBytes : List ℕ → Type 0
AreBytes [] = Unit {0}
AreBytes (x ∷ xs) = (x < 256) × AreBytes xs

pub crc_from-lt : (c : ℕ) (xs : List ℕ) → c < 2 ^ 16 → AreBytes xs → crc_from c xs < 2 ^ 16
unfolding crc_from
crc_from-lt c [] h k = h
crc_from-lt c (x ∷ xs) h k = crc_from-lt (crc_byte c x) xs (crc_byte-lt c x h k.0) k.1

-- The CRC of a message of bytes with its own CRC appended, high byte first, is 0.
crc16_residue : (xs : List ℕ) → AreBytes xs → crc16 (xs ++ crc16 xs / 256 ∷ crc16 xs % 256 ∷ []) ≡ 0
unfolding crc16 crc_from
crc16_residue xs h =
    let c = crc_from 0xFFFF xs in
    let c-lt : c < 2 ^ 16 = crc_from-lt 0xFFFF xs (omega arith) h in
    crc_from-append 0xFFFF xs (c / 256 ∷ c % 256 ∷ [])
    ∙ ap (λ t. crc_byte t (c % 256)) (crc_byte_top c c-lt)
    ∙ crc_byte_same (c % 256) (omega arith)
