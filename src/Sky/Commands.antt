-- ===== src/Sky/Commands.antt =====
-- What the command builders put into a report, read back by the offsets that the header documents.
use wireless_skyportal_conne.Prelude.{
  ℕ, ◌+◌, ◌/◌, ◌%◌, ◌<◌, bit_and, bit_or, ◌≡◌, arith, List, ◌∷◌, ◌++◌, length, take, take_all,
  replicate, ap, ◌∙◌, take-append_left,
}
use wireless_skyportal_conne.Bits.{bit_and_digit, bit_or_digit}
use wireless_skyportal_conne.Bits.Fields.{bit_and-zero}
use wireless_skyportal_conne.Sky.{build_write, sky_cmd_write}

-- `x & 0x0F`
pub low_nibble : (x : ℕ) → bit_and x 0x0F ≡ x % 16
low_nibble x = omega (
  arith,
  bit_and_digit x 15,
  bit_and_digit (x / 2) 7,
  bit_and_digit (x / 2 / 2) 3,
  bit_and_digit (x / 2 / 2 / 2) 1,
  bit_and-zero (x / 2 / 2 / 2 / 2),
)

-- `0x10 | x` for a nibble `x`
pub tag_nibble : (x : ℕ) → x < 16 → bit_or 0x10 x ≡ 16 + x
tag_nibble x h = ground (
  arith,
  bit_or_digit 16 x,
  bit_or_digit 8 (x / 2),
  bit_or_digit 4 (x / 2 / 2),
  bit_or_digit 2 (x / 2 / 2 / 2),
)

-- The 32 bytes of a write command.
pub build_write_lem :
    (slot block : ℕ) (bytes : List ℕ)
    → length bytes ≡ 16
    → build_write slot block bytes
      ≡ (sky_cmd_write ∷ (16 + slot % 16) ∷ block ∷ bytes) ++ replicate 13 0
unfolding build_write
build_write_lem slot block bytes h =
    let target : bit_or 0x10 (bit_and slot 0x0F) % 256 ≡ 16 + slot % 16 =
      rw (low_nibble slot, tag_nibble (slot % 16) (omega arith)) (omega arith) in
    rw (take_all 16 bytes (omega arith), target, h)

-- The first 19 bytes, which are what is sent.
pub take-build_write :
    (slot block : ℕ) (bytes : List ℕ)
    → length bytes ≡ 16
    → take 19 (build_write slot block bytes) ≡ sky_cmd_write ∷ (16 + slot % 16) ∷ block ∷ bytes
take-build_write slot block bytes h = rw (build_write_lem slot block bytes h) (
    ap (λ t. sky_cmd_write ∷ (16 + slot % 16) ∷ block ∷ t)
      (take-append_left 16 bytes (replicate 13 0) (omega arith) ∙ take_all 16 bytes (omega arith)))
