-- ===== src/Bits.antt =====
-- `|`, `&` and `^` of C at variables: fields, single bits and masks, as arithmetic.
mod Digits
pub use Digits.{bit_or_digit, bit_and_digit, bit_xor_digit}
pub mod Fields
pub mod Xor
