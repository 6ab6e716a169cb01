-- ===== src/Console/Waits.antt =====
-- The waits of `write_task` of console-side/src/main.c, as its rounds take them, are those of some run
-- in which frames arrive in between.
use wireless_skyportal_conne.Prelude.{
  ℕ, zero, suc, ◌≤◌, ◌≡◌, refl, arith, ap, ap₂, ◌∙◌, true, [], ◌∷◌, ◌==◌, if◌then◌else◌, Bool-cases,
  inl, inr,
}
use wireless_skyportal_conne.Console.{Console, Item, Apis}
use wireless_skyportal_conne.Console.Writer.{Wait, acks, write_frame, write_loop}
use wireless_skyportal_conne.Console.Live.{Attempt, attempt, live_loop}

-- Only the waits from number `k` on count.
write_loop-same :
    (waits waits' : ℕ → Wait) (n k seq : ℕ) (w : Item)
    → ((j : ℕ) → k ≤ j → waits j ≡ waits' j)
    → write_loop waits n k seq w ≡ write_loop waits' n k seq w
unfolding write_loop
write_loop-same waits waits' zero k seq w h = refl
write_loop-same waits waits' (suc n) k seq w h =
    ap₂
      (λ t r. if acks seq t then (write_frame seq w ∷ [], true) else (write_frame seq w ∷ r.0, r.1))
      (h k (omega arith)) (write_loop-same waits waits' n (suc k) seq w (λ j l. h j (omega arith)))

abbrev with_first : ℕ → Wait → (ℕ → Wait) → ℕ → Wait
with_first k first waits j = if j == k then first else waits j

with_first_here : (k : ℕ) (first : Wait) (waits : ℕ → Wait) → with_first k first waits k ≡ first
with_first_here k first waits = ground arith

with_first_later :
    (k : ℕ) (first : Wait) (waits : ℕ → Wait) (j : ℕ)
    → suc k ≤ j
    → waits j ≡ with_first k first waits j
with_first_later k first waits j h = ground arith

module _ (api : Apis) where
  -- Whatever arrives during the attempts, they send the same frames and come to the same end as
  -- `write_loop` for some waits; so what holds of a round for all waits holds with frames arriving.
  live_loop-write_loop :
      (script : ℕ → Attempt) (n k seq : ℕ) (w : Item) (s : Console)
      → (waits : ℕ → Wait) × ((live_loop api script n k seq w s).1 ≡ (write_loop waits n k seq w).0)
        × ((live_loop api script n k seq w s).2 ≡ (write_loop waits n k seq w).1)
  unfolding live_loop write_loop
  live_loop-write_loop script zero k seq w s = (λ j. Wait.timeout, refl, refl)
  live_loop-write_loop script (suc n) k seq w s =
      let r = attempt api s (script k) in
      let (waits, frames, acked) = live_loop-write_loop script n (suc k) seq w r.0 in
      let mine = with_first k r.1 waits in
      let rest =
        write_loop-same waits mine n (suc k) seq w (λ j l. with_first_later k r.1 waits j l) in
      (
        mine,
        elim (Bool-cases (acks seq r.1)) [
          | inl e ↦ rw (with_first_here k r.1 waits, e) refl
          | inr e ↦
              rw (with_first_here k r.1 waits, e)
                (ap (◌∷◌ (write_frame seq w)) (frames ∙ ap (λ t. t.0) rest))
        ],
        elim (Bool-cases (acks seq r.1)) [
          | inl e ↦ rw (with_first_here k r.1 waits, e) refl
          | inr e ↦ rw (with_first_here k r.1 waits, e) (acked ∙ ap (λ t. t.1) rest)
        ],
      )
