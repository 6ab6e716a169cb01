-- ===== src/Bits/Digits.antt =====
-- The native operations are a recursion on binary digits, with the first number for its fuel. Here
-- the fuel goes: one equation for the lowest digit, at any two numbers.
use Prim.Native.Nat.{max, digits, bitwise, differ, bit_and-bitwise, bit_or-bitwise, bit_xor-bitwise}
use wireless_skyportal_conne.Prelude.{
  ℕ, zero, suc, ◌+◌, ◌-◌, ◌*◌, ◌/◌, ◌%◌, ◌≤◌, ◌<◌, min, bit_and, bit_or, bit_xor, ◌≡◌, refl, arith,
}

module _ (z : ℕ → ℕ) (f : ℕ → ℕ → ℕ) where
  -- Any fuel from the first number on gives the same digits.
  more_fuel : (m k a b : ℕ) → a ≤ m → digits z f (m + k) a b ≡ digits z f m a b
  more_fuel m k zero b h = ground (arith, at_zero (m + k), at_zero m)
    where
      at_zero : (n : ℕ) → digits z f n zero b ≡ z b
      at_zero zero = refl
      at_zero (suc n) = refl
  more_fuel zero k (suc a) b h = absurd (omega arith)
  more_fuel (suc m) k (suc a) b h =
      let e : suc m + k ≡ suc (m + k) = omega arith in
      rw (e, more_fuel m k (suc a / 2) (b / 2) (omega arith))

  bitwise-digit :
      (a b : ℕ)
      → z b ≡ z (b / 2) * 2 + f 0 (b % 2)
      → bitwise z f a b ≡ bitwise z f (a / 2) (b / 2) * 2 + f (a % 2) (b % 2)
  bitwise-digit zero b h = h
  bitwise-digit (suc a) b h =
      let k = a - suc a / 2 in
      let e : suc a / 2 + k ≡ a = omega arith in
      let enough = more_fuel (suc a / 2) k (suc a / 2) (b / 2) (omega arith) in
      omega (arith, rw e at enough)

differ_lem : (x y : ℕ) → x < 2 → y < 2 → differ x y ≡ (x + y) % 2
differ_lem zero y h k = omega arith
differ_lem (suc zero) zero h k = refl
differ_lem (suc zero) (suc zero) h k = refl
differ_lem (suc zero) (suc (suc y)) h k = absurd (omega arith)
differ_lem (suc (suc x)) y h k = absurd (omega arith)

pub bit_or_digit : (a b : ℕ) → bit_or a b ≡ bit_or (a / 2) (b / 2) * 2 + max (a % 2) (b % 2)
bit_or_digit a b = simp bit_or-bitwise (bitwise-digit (λ y. y) max a b (omega arith))

pub bit_and_digit : (a b : ℕ) → bit_and a b ≡ bit_and (a / 2) (b / 2) * 2 + min (a % 2) (b % 2)
bit_and_digit a b = simp bit_and-bitwise (bitwise-digit (λ y. 0) min a b (omega arith))

pub bit_xor_digit : (a b : ℕ) → bit_xor a b ≡ bit_xor (a / 2) (b / 2) * 2 + (a + b) % 2
bit_xor_digit a b = omega (arith, differ_lem (a % 2) (b % 2) (omega arith) (omega arith), steps)
  where
    steps : bit_xor a b ≡ bit_xor (a / 2) (b / 2) * 2 + differ (a % 2) (b % 2)
    steps = simp bit_xor-bitwise (bitwise-digit (λ y. y) differ a b (omega arith))
