-- ===== src/Bits/Xor.antt =====
-- `^` at variables: it undoes itself, and keeps fields apart.
use Prim.Native.Nat.{bit_xor-bitwise}
use native.Mathlib.Nat.{pow-suc, mul-one, add-zero}
use wireless_skyportal_conne.Prelude.{
  ℕ, zero, suc, ◌+◌, ◌*◌, ◌/◌, ◌^◌, ◌≤◌, ◌<◌, bit_xor, ◌≡◌, refl, arith, ap, ◌∙◌, sym,
}
use wireless_skyportal_conne.Bits.Digits.{bit_xor_digit}

zero-bit_xor : (b : ℕ) → bit_xor 0 b ≡ b
zero-bit_xor b = simp bit_xor-bitwise

scale-suc : (q k : ℕ) → q * 2 ^ suc k ≡ q * 2 ^ k * 2
scale-suc q k = omega (arith, ap (λ (t : ℕ). q * t) (pow-suc 2 k))

undo_fuel : (n a b : ℕ) → a ≤ n → b ≤ n → bit_xor (bit_xor a b) b ≡ a
undo_fuel zero zero zero h k = refl
undo_fuel zero (suc a) b h k = absurd (omega arith)
undo_fuel zero zero (suc b) h k = absurd (omega arith)
undo_fuel (suc n) a b h k =
    ground (arith, bit_xor_digit (bit_xor a b) b, bit_xor_digit a b, undo_fuel n (a / 2) (b / 2))

-- `^` with the same number twice gives the first one back.
pub bit_xor_undo : (a b : ℕ) → bit_xor (bit_xor a b) b ≡ a
bit_xor_undo a b = undo_fuel (a + b) a b (omega arith) (omega arith)

pub bit_xor_self : (a : ℕ) → bit_xor a a ≡ 0
bit_xor_self a = rw (zero-bit_xor a) at (bit_xor_undo 0 a)

pub bit_xor-lt : (k a b : ℕ) → a < 2 ^ k → b < 2 ^ k → bit_xor a b < 2 ^ k
bit_xor-lt zero zero zero h l = omega arith
bit_xor-lt zero (suc a) b h l = absurd (omega arith)
bit_xor-lt zero zero (suc b) h l = absurd (omega arith)
bit_xor-lt (suc k) a b h l = omega (
  arith,
  pow-suc 2 k,
  bit_xor_digit a b,
  bit_xor-lt k (a / 2) (b / 2) (omega (arith, pow-suc 2 k)) (omega (arith, pow-suc 2 k)),
)

-- A number with nothing in the low `k` bits leaves these bits alone.
pub bit_xor_high :
    (k q r p : ℕ) → r < 2 ^ k → bit_xor (q * 2 ^ k + r) (p * 2 ^ k) ≡ bit_xor q p * 2 ^ k + r
bit_xor_high zero q zero p h = simp (mul-one, add-zero)
bit_xor_high zero q (suc r) p h = absurd (omega arith)
bit_xor_high (suc k) q r p h = ground (
  arith,
  scale-suc q k,
  scale-suc p k,
  scale-suc (bit_xor q p) k,
  pow-suc 2 k,
  bit_xor_digit (q * 2 ^ suc k + r) (p * 2 ^ suc k),
  bit_xor_high k q (r / 2) p,
)

nothing_fuel : (n a : ℕ) → a ≤ n → bit_xor a 0 ≡ a
nothing_fuel n zero h = refl
nothing_fuel zero (suc a) h = absurd (omega arith)
nothing_fuel (suc n) (suc a) h =
    omega (arith, bit_xor_digit (suc a) 0, nothing_fuel n (suc a / 2) (omega arith))

bit_xor_nothing : (a : ℕ) → bit_xor a 0 ≡ a
bit_xor_nothing a = nothing_fuel a a (omega arith)

-- The other way round: a number below `2 ^ k` leaves the bits above alone.
pub bit_xor_low :
    (k q r s : ℕ) → r < 2 ^ k → s < 2 ^ k → bit_xor (q * 2 ^ k + r) s ≡ q * 2 ^ k + bit_xor r s
bit_xor_low zero q zero zero h l = simp (mul-one, add-zero, bit_xor_nothing)
bit_xor_low zero q (suc r) s h l = absurd (omega arith)
bit_xor_low zero q zero (suc s) h l = absurd (omega arith)
bit_xor_low (suc k) q r s h l = ground (
  arith,
  scale-suc q k,
  pow-suc 2 k,
  bit_xor_digit (q * 2 ^ suc k + r) s,
  bit_xor_digit r s,
  bit_xor_low k q (r / 2) (s / 2),
)

comm_fuel : (n a b : ℕ) → a ≤ n → b ≤ n → bit_xor a b ≡ bit_xor b a
comm_fuel zero zero zero h k = refl
comm_fuel zero (suc a) b h k = absurd (omega arith)
comm_fuel zero zero (suc b) h k = absurd (omega arith)
comm_fuel (suc n) a b h k =
    ground (arith, bit_xor_digit a b, bit_xor_digit b a, comm_fuel n (a / 2) (b / 2))

pub bit_xor_comm : (a b : ℕ) → bit_xor a b ≡ bit_xor b a
bit_xor_comm a b = comm_fuel (a + b) a b (omega arith) (omega arith)

-- `^ b` loses nothing, on either side.
pub bit_xor_cancel_right : (a b c : ℕ) → bit_xor a c ≡ bit_xor b c → a ≡ b
bit_xor_cancel_right a b c h = sym (bit_xor_undo a c) ∙ ap (λ t. bit_xor t c) h ∙ bit_xor_undo b c

pub bit_xor_cancel_left : (a b c : ℕ) → bit_xor c a ≡ bit_xor c b → a ≡ b
bit_xor_cancel_left a b c h = bit_xor_cancel_right a b c (bit_xor_comm a c ∙ h ∙ bit_xor_comm c b)
