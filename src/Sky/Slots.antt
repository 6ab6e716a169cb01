-- ===== src/Sky/Slots.antt =====
-- The slot states of a status report: what `sky_present_mask` makes of them.
use native.Mathlib.Nat.{
  pow-suc, pow-succ', mod-eq_of_lt, pow-le-pow_right, div-div-eq-div-mul, one-le-pow, mul_comm,
}
use wireless_skyportal_conne.Prelude.{
  ℕ, zero, suc, ◌+◌, ◌*◌, ◌/◌, ◌%◌, ◌^◌, ◌≤◌, ◌<◌, bit_or, ◌≡◌, arith, ap, sym, ◌∙◌, List, ◌==◌,
  ◌-◌, pos, refl, leb, true, if◌then◌else◌,
}
use wireless_skyportal_conne.Bits.{bit_and_digit}
use wireless_skyportal_conne.Bits.Fields.{bit_or_high, bit_and-zero}
use wireless_skyportal_conne.Sky.{
  byte, status_slots, slot_present, mask_from, present_mask, query_slot,
}

-- Every second binary digit of `x`, `n` of them.
unfoldable pub even_digits : ℕ → ℕ → ℕ
even_digits zero x = 0
even_digits (suc n) x = x % 2 + 2 * even_digits n (x / 4)

slot_present_lem : (slots i : ℕ) → slot_present slots i ≡ slots / 2 ^ (2 * i) % 2
unfolding slot_present
slot_present_lem slots i =
    let s = slots / 2 ^ (2 * i) in omega (arith, bit_and_digit s 1, bit_and-zero (s / 2))

pow-two_mul_suc : (i : ℕ) → 2 ^ (2 * suc i) ≡ 2 ^ (2 * i) * 4
pow-two_mul_suc i =
    let two_more : 2 * suc i ≡ suc (suc (2 * i)) = omega arith in
    rw two_more (omega (arith, pow-suc 2 (suc (2 * i)), pow-suc 2 (2 * i)))

next_pair : (slots i : ℕ) → slots / 2 ^ (2 * i) / 4 ≡ slots / 2 ^ (2 * suc i)
next_pair slots i = rw (div-div-eq-div-mul slots (2 ^ (2 * i)) 4, pow-two_mul_suc i)

two_pow_below : (i : ℕ) → i < 16 → 2 ^ i % 2 ^ 16 ≡ 2 ^ i
two_pow_below i h =
    mod-eq_of_lt
      (omega (arith, pow-suc 2 i, one-le-pow i 2, pow-le-pow_right {n = 2} (omega arith) h))

-- One round adds bit `i`, set if slot `i` is present.
round_lem :
    (slots i m : ℕ)
    → m < 2 ^ i
    → i < 16
    → (if slot_present slots i == 0 then m else bit_or m (2 ^ i % 2 ^ 16))
      ≡ m + slots / 2 ^ (2 * i) % 2 * 2 ^ i
round_lem slots i m h k =
    ground (arith, slot_present_lem slots i, two_pow_below i k, bit_or_high i m 1)

digit_below : (P m d : ℕ) → m < P → m + d % 2 * P < P * 2
digit_below P m d h = grind arith

pub mask_from-even_digits :
    (n i slots m : ℕ)
    → m < 2 ^ i
    → i + n ≤ 16
    → mask_from n i slots m ≡ m + even_digits n (slots / 2 ^ (2 * i)) * 2 ^ i
unfolding mask_from even_digits
mask_from-even_digits zero i slots m h k = omega arith
mask_from-even_digits (suc n) i slots m h k =
    let d = slots / 2 ^ (2 * i) in
    let E = even_digits n (d / 4) in
    let m' = m + d % 2 * 2 ^ i in
    let in_range : m' < 2 ^ suc i = rw (pow-suc 2 i) (digit_below (2 ^ i) m d h) in
    let rest = mask_from-even_digits n (suc i) slots m' in_range (omega arith) in
    rw (round_lem slots i m h (omega arith))
      (omega (arith, rw (← next_pair slots i) at rest, ap (λ (t : ℕ). E * t) (pow-suc 2 i)))

-- The mask is the present bits of the 16 states, side by side.
pub present_mask-even_digits : (slots : ℕ) → present_mask slots ≡ even_digits 16 slots
unfolding present_mask
present_mask-even_digits slots =
    let all = mask_from-even_digits 16 0 slots 0 (omega arith) (omega arith) in
    let start : slots / 1 ≡ slots = omega arith in omega (arith, rw start at all)

digit_of_even_digits : (n j x : ℕ) → j < n → even_digits n x / 2 ^ j % 2 ≡ x / 2 ^ (2 * j) % 2
unfolding even_digits
digit_of_even_digits zero j x h = absurd (omega arith)
digit_of_even_digits (suc n) zero x h = omega arith
digit_of_even_digits (suc n) (suc j) x h = ground (
  arith,
  digit_of_even_digits n j (x / 4),
  pow-succ' 2 j,
  div-div-eq-div-mul (even_digits (suc n) x) 2 (2 ^ j),
  pow-two_mul_suc j,
  mul_comm (2 ^ (2 * j)) 4,
  div-div-eq-div-mul x 4 (2 ^ (2 * j)),
)

-- A status word with the bytes `r[1]` to `r[4]`, the first the lowest.
pub status_slots_lem :
    (r : List ℕ)
    → byte r 1 < 256
    → byte r 2 < 256
    → byte r 3 < 256
    → status_slots r ≡ byte r 1 + byte r 2 * 2 ^ 8 + byte r 3 * 2 ^ 16 + byte r 4 * 2 ^ 24
unfolding status_slots
status_slots_lem r h1 h2 h3 = ground (
  arith,
  bit_or_high 8 (byte r 1) (byte r 2),
  bit_or_high 16 (byte r 1 + byte r 2 * 2 ^ 8) (byte r 3),
  bit_or_high 24 (byte r 1 + byte r 2 * 2 ^ 8 + byte r 3 * 2 ^ 16) (byte r 4),
)

states_byte :
    (r : List ℕ) (q : ℕ)
    → byte r 1 < 256
    → byte r 2 < 256
    → byte r 3 < 256
    → byte r 4 < 256
    → q < 4
    → status_slots r / 256 ^ q % 256 ≡ byte r (suc q)
states_byte r zero h1 h2 h3 h4 h = omega (arith, status_slots_lem r h1 h2 h3)
states_byte r (suc zero) h1 h2 h3 h4 h = omega (arith, status_slots_lem r h1 h2 h3)
states_byte r (suc (suc zero)) h1 h2 h3 h4 h = omega (arith, status_slots_lem r h1 h2 h3)
states_byte r (suc (suc (suc zero))) h1 h2 h3 h4 h = omega (arith, status_slots_lem r h1 h2 h3)
states_byte r (suc (suc (suc (suc q)))) h1 h2 h3 h4 h = absurd (omega arith)

within_byte : (x k : ℕ) → k < 4 → x / 2 ^ (2 * k) % 2 ≡ x % 256 / 2 ^ (2 * k) % 2
within_byte x zero h = omega arith
within_byte x (suc zero) h = omega arith
within_byte x (suc (suc zero)) h = omega arith
within_byte x (suc (suc (suc zero))) h = omega arith
within_byte x (suc (suc (suc (suc k)))) h = absurd (omega arith)

pow-split : (q k : ℕ) → 2 ^ (2 * (4 * q + k)) ≡ 256 ^ q * 2 ^ (2 * k)
pow-split zero k = let e : 4 * 0 + k ≡ k = omega arith in rw e (omega arith)
pow-split (suc q) k =
    let n = 4 * q + k in
    let e : 4 * suc q + k ≡ suc (suc (suc (suc n))) = omega arith in
    rw e (
      omega (
        arith,
        pow-two_mul_suc (suc (suc (suc n))),
        pow-two_mul_suc (suc (suc n)),
        pow-two_mul_suc (suc n),
        pow-two_mul_suc n,
        pow-split q k,
        ap (λ (t : ℕ). t * 2 ^ (2 * k)) (pow-suc 256 q),
      ))

-- Bit `j` of the mask is the low bit of the `j % 4`-th pair of bits in byte `1 + j / 4` of the
-- report: slot `j` is marked present exactly when its "present" bit is set.
pub present_mask-status_slots :
    (r : List ℕ) (j : ℕ)
    → byte r 1 < 256
    → byte r 2 < 256
    → byte r 3 < 256
    → byte r 4 < 256
    → j < 16
    → present_mask (status_slots r) / 2 ^ j % 2 ≡ byte r (suc (j / 4)) / 2 ^ (2 * (j % 4)) % 2
present_mask-status_slots r j h1 h2 h3 h4 h =
    rw (present_mask-even_digits (status_slots r), digit_of_even_digits 16 j (status_slots r) h)
      (ap (λ k. status_slots r / k % 2) at_byte
        ∙ ap (λ k. k % 2) (sym (div-div-eq-div-mul (status_slots r) (256 ^ (j / 4)) _))
        ∙ within_byte (status_slots r / 256 ^ (j / 4)) (j % 4) (omega arith)
        ∙ ap (λ k. k / 2 ^ (2 * (j % 4)) % 2) (states_byte r (j / 4) h1 h2 h3 h4 (omega arith)))
  where
    whole : j ≡ 4 * (j / 4) + j % 4
    whole = omega arith

    at_byte : 2 ^ (2 * j) ≡ 256 ^ (j / 4) * 2 ^ (2 * (j % 4))
    at_byte = ap (λ k. 2 ^ (2 * k)) whole ∙ pow-split (j / 4) (j % 4)

-- The slot of a read reply, if its second byte is one: the byte less 16.
query_slot_lem : (r : List ℕ) (slot : ℕ) → byte r 1 ≡ 0x10 + slot → query_slot r ≡ pos slot
unfolding query_slot
query_slot_lem r slot h =
    let there : leb 0x10 (byte r 1) ≡ true = ground arith in
    let less : byte r 1 - 0x10 ≡ slot = omega arith in rw (there, less) refl
