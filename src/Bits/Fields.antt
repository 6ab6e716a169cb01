-- ===== src/Bits/Fields.antt =====
-- Fields of a word: `|` of disjoint fields is a sum, `&` with a single bit picks a digit.
use Prim.Native.Nat.{bit_and-bitwise, bit_or-bitwise}
use native.Mathlib.Nat.{one-le-pow, pow-suc, pow-succ', div-div-eq-div-mul}
use wireless_skyportal_conne.Prelude.{
  ℕ, zero, suc, ◌+◌, ◌*◌, ◌/◌, ◌%◌, ◌^◌, ◌≤◌, ◌<◌, bit_and, bit_or, ◌≡◌, refl, arith, ap, ◌==◌, not,
}
use wireless_skyportal_conne.Bits.Digits.{bit_or_digit, bit_and_digit}

zero-bit_or : (b : ℕ) → bit_or 0 b ≡ b
zero-bit_or b = simp bit_or-bitwise

scale-suc : (q k : ℕ) → q * 2 ^ suc k ≡ q * 2 ^ k * 2
scale-suc q k = omega (arith, ap (λ (t : ℕ). q * t) (pow-suc 2 k))

-- `lo | (hi << k)` with the low field below `2 ^ k`.
pub bit_or_high : (k lo hi : ℕ) → lo < 2 ^ k → bit_or lo (hi * 2 ^ k) ≡ lo + hi * 2 ^ k
bit_or_high zero zero hi h = omega (arith, zero-bit_or (hi * 1))
bit_or_high zero (suc lo) hi h = absurd (omega arith)
bit_or_high (suc k) lo hi h = ground (
  arith,
  scale-suc hi k,
  pow-suc 2 k,
  bit_or_digit lo (hi * 2 ^ suc k),
  bit_or_high k (lo / 2) hi,
)

bit_and-zero_fuel : (n a : ℕ) → a ≤ n → bit_and a 0 ≡ 0
bit_and-zero_fuel n zero h = simp bit_and-bitwise
bit_and-zero_fuel zero (suc a) h = absurd (omega arith)
bit_and-zero_fuel (suc n) (suc a) h =
    omega (arith, bit_and_digit (suc a) 0, bit_and-zero_fuel n (suc a / 2) (omega arith))

pub bit_and-zero : (a : ℕ) → bit_and a 0 ≡ 0
bit_and-zero a = bit_and-zero_fuel a a (omega arith)

div-div_two : (k m : ℕ) → m / 2 ^ suc k ≡ m / 2 / 2 ^ k
div-div_two k m = rw (pow-succ', ← div-div-eq-div-mul m 2 (2 ^ k)) refl

-- `m & (1 << k)` is bit `k` of `m`, in its place.
pub bit_and_single : (k m : ℕ) → bit_and m (2 ^ k) ≡ m / 2 ^ k % 2 * 2 ^ k
bit_and_single zero m = omega (arith, bit_and_digit m 1, bit_and-zero (m / 2))
bit_and_single (suc k) m = ground (
  arith,
  scale-suc (m / 2 ^ suc k % 2) k,
  scale-suc 1 k,
  div-div_two k m,
  bit_and_digit m (2 ^ suc k),
  bit_and_single k (m / 2),
)

pos_digit : (d p : ℕ) → 1 ≤ p → d % 2 * p ≡ 0 → d % 2 ≡ 0
pos_digit d p h e = grind arith

-- The test `m & (1 << k)` as the source writes it.
pub single_test : (k m : ℕ) → (bit_and m (2 ^ k) == 0) ≡ not (m / 2 ^ k % 2 == 1)
single_test k m = ground (arith, bit_and_single k m, one-le-pow k 2, pos_digit (m / 2 ^ k) (2 ^ k))
