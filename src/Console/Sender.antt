-- ===== src/Console/Sender.antt =====
-- `tx_task` of console-side/src/main.c: the reports to the console. What TinyUSB answers at each
-- millisecond is the parameter.
use wireless_skyportal_conne.Prelude.{
  ℕ, zero, suc, ◌+◌, ◌*◌, ◌≤◌, ◌≡◌, arith, Bool, true, false, ◌&&◌, ◌||◌, not, List, [], ◌∷◌,
  if◌then◌else◌, length, Bool-cases, inl, inr,
}

-- `tud_mounted()`, `tud_hid_ready()` and whether `tud_hid_report` takes a report.
pub record Tud : Type 0 where
  pub mounted : ℕ → Bool
  pub hid_ready : ℕ → Bool
  pub takes : ℕ → Bool

-- The wait for the endpoint with `n` polls of 1 ms left: when it ends.
unfoldable pub tx_wait : Tud → ℕ → ℕ → ℕ
tx_wait tud zero t = t
tx_wait tud (suc n) t =
    let later = tx_wait tud n (suc t) in if tud.mounted t && tud.hid_ready t then t else later

-- The attempts, `n` left, from time `t` on: the times of the calls of `tud_hid_report`.
unfoldable pub tx_loop : Tud → ℕ → ℕ → List ℕ
tx_loop tud zero t = []
tx_loop tud (suc n) t =
    let now = tx_wait tud 50 t in
    let rest = tx_loop tud n (now + 2) in
    if not (tud.mounted now) then [] else if tud.takes now then now ∷ [] else now ∷ rest

-- One round of `tx_task`, on an item that it has received.
abbrev pub tx_round : Tud → ℕ → List ℕ
tx_round tud t = tx_loop tud 3 t

-- Whether one of the calls at those times takes the report.
abbrev pub took : Tud → List ℕ → Bool
took tud [] = false
took tud (t ∷ ts) = tud.takes t || took tud ts

tx_wait-le : (tud : Tud) (n t : ℕ) → (t ≤ tx_wait tud n t) × (tx_wait tud n t ≤ t + n)
unfolding tx_wait
tx_wait-le tud zero t = (omega arith, omega arith)
tx_wait-le tud (suc n) t = elim (Bool-cases (tud.mounted t && tud.hid_ready t)) [
  | inl e ↦ rw e (omega arith, omega arith)
  | inr e ↦ let (a, b) = tx_wait-le tud n (suc t) in rw e (omega (arith, a), omega (arith, b))
]

-- The calls so made: in the span from `lo` to `hi`, while the device is mounted, and none after one
-- that is taken.
pub data AreCalls (tud : Tud) : ℕ → ℕ → List ℕ → Type 0 where
  no_call : {lo hi : ℕ} → AreCalls tud lo hi []
  taken :
      {lo hi : ℕ} (t : ℕ)
      → lo ≤ t
      → t ≤ hi
      → tud.mounted t ≡ true
      → tud.takes t ≡ true
      → AreCalls tud lo hi (t ∷ [])
  refused :
      {lo hi : ℕ} (t : ℕ) (ts : List ℕ)
      → lo ≤ t
      → t ≤ hi
      → tud.mounted t ≡ true
      → tud.takes t ≡ false
      → AreCalls tud (t + 2) hi ts
      → AreCalls tud lo hi (t ∷ ts)

tx_loop-AreCalls :
    (tud : Tud) (n t hi : ℕ)
    → t + 52 * n ≤ hi + 2
    → AreCalls tud t hi (tx_loop tud n t) × (length (tx_loop tud n t) ≤ n)
unfolding tx_loop
tx_loop-AreCalls tud zero t hi h = (no_call, omega arith)
tx_loop-AreCalls tud (suc n) t hi h =
    let now = tx_wait tud 50 t in
    let (a, b) = tx_wait-le tud 50 t in
    elim (Bool-cases (tud.mounted now)) [
      | inr e ↦ rw e (no_call, omega arith)
      | inl e ↦ elim (Bool-cases (tud.takes now)) [
        | inl f ↦ rw (e, f) (taken now a (omega (arith, b, h)) e f, omega arith)
        | inr f ↦
            let (c, l) = tx_loop-AreCalls tud n (now + 2) hi (omega (arith, b, h)) in
            rw (e, f)
              (
                refused now (tx_loop tud n (now + 2)) a (omega (arith, b, h)) e f c,
                omega (arith, l),
              )
      ]
    ]

-- For each report `tud_hid_report` is called three times at most, all within 154 ms, only while the
-- device is mounted, and not again after it has taken the report.
pub tx_round_lem :
    (tud : Tud) (t : ℕ) → AreCalls tud t (t + 154) (tx_round tud t) × (length (tx_round tud t) ≤ 3)
tx_round_lem tud t = tx_loop-AreCalls tud 3 t (t + 154) (omega arith)
