-- ===== src/Sky/Crc.antt =====
-- `sky_crc16`, CRC-16/CCITT over bytes.
pub mod Residue
pub mod Detect
use wireless_skyportal_conne.Prelude.{
  ℕ, zero, suc, ◌*◌, ◌%◌, ◌^◌, bit_and, bit_xor, List, [], ◌∷◌, ◌==◌, if◌then◌else◌,
}

-- One round of the inner loop on the 16-bit register.
unfoldable pub crc_bit : ℕ → ℕ
crc_bit crc =
    if bit_and crc 0x8000 == 0 then crc * 2 % 2 ^ 16 else bit_xor (crc * 2) 0x1021 % 2 ^ 16

unfoldable pub crc_bits : ℕ → ℕ → ℕ
crc_bits zero crc = crc
crc_bits (suc b) crc = crc_bits b (crc_bit crc)

unfoldable pub crc_byte : ℕ → ℕ → ℕ
crc_byte crc d = crc_bits 8 (bit_xor crc (d * 2 ^ 8))

-- The outer loop, from the register `crc` on.
unfoldable pub crc_from : ℕ → List ℕ → ℕ
crc_from crc [] = crc
crc_from crc (d ∷ ds) = crc_from (crc_byte crc d) ds

unfoldable pub crc16 : List ℕ → ℕ
crc16 bytes = crc_from 0xFFFF bytes
