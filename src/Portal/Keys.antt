-- ===== src/Portal/Keys.antt =====
-- The NVS keys of the backups: 11 characters, and different for different tags.
use wireless_skyportal_conne.Prelude.{ℕ, ◌/◌, ◌%◌, ◌<◌, ◌≡◌, refl, arith, ap, List, length, get_or}
use wireless_skyportal_conne.Sky.{byte}
use wireless_skyportal_conne.Portal.{hex_digit, uid_key}

hex_digit_injective : (a b : ℕ) → a < 16 → b < 16 → hex_digit a ≡ hex_digit b → a ≡ b
unfolding hex_digit
hex_digit_injective a b h k e = ground arith

-- A byte is known from its two digits, which stand at `i` and `i + 1` of two equal keys.
digits_injective :
    (a b : ℕ)
    → a < 256
    → b < 256
    → hex_digit (a / 16) ≡ hex_digit (b / 16)
    → hex_digit (a % 16) ≡ hex_digit (b % 16)
    → a ≡ b
digits_injective a b h k e f = omega (
  arith,
  hex_digit_injective (a / 16) (b / 16) (omega arith) (omega arith) e,
  hex_digit_injective (a % 16) (b % 16) (omega arith) (omega arith) f,
)

-- The first four entries are bytes.
abbrev pub HasUid : List ℕ → Type 0
HasUid u = (byte u 0 < 256) × (byte u 1 < 256) × (byte u 2 < 256) × (byte u 3 < 256)

-- Two figures have the same key only if their first four bytes are the same, and a key has 11
-- characters, which with the final 0 fit `key[16]`.
uid_key_injective :
    (u v : List ℕ)
    → HasUid u
    → HasUid v
    → uid_key u ≡ uid_key v
    → (byte u 0 ≡ byte v 0)
      × (byte u 1 ≡ byte v 1)
      × (byte u 2 ≡ byte v 2)
      × (byte u 3 ≡ byte v 3)
      × (length (uid_key u) ≡ 11)
unfolding uid_key
uid_key_injective u v hu hv e = (
  digits_injective (byte u 0) (byte v 0) hu.0 hv.0 (at 3) (at 4),
  digits_injective (byte u 1) (byte v 1) hu.1 hv.1 (at 5) (at 6),
  digits_injective (byte u 2) (byte v 2) hu.2 hv.2 (at 7) (at 8),
  digits_injective (byte u 3) (byte v 3) hu.3 hv.3 (at 9) (at 10),
  refl,
)
  where
    at : (i : ℕ) → get_or (uid_key u) i 0 ≡ get_or (uid_key v) i 0
    at i = ap (λ l. get_or l i 0) e
