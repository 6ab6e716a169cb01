-- ===== src/Console/Writer.antt =====
-- `write_task` of console-side/src/main.c: a write is sent until it is acknowledged, six times at most.
use wireless_skyportal_conne.Prelude.{
  ℕ, zero, suc, ◌+◌, ◌%◌, ◌^◌, ◌<◌, ◌≤◌, ◌≡◌, refl, arith, Bool, true, false, List, [], ◌∷◌, ◌==◌,
  if◌then◌else◌, length, replicate, ◌⊎◌, ap, Bool-cases, inl, inr,
}
use wireless_skyportal_conne.Frame.{hdr_init, tunnel_bytes, link_t_tun_write}
use wireless_skyportal_conne.Console.{Console, Item, contents}
use wireless_skyportal_conne.Console.Log.{dlog, lost_text}

-- How a wait of at most 100 ms for the semaphore ends: not in time, or with that value in
-- `s_acked_seq` when the task reads it. What arrives before the wait has been taken away.
pub data Wait : Type 0 where
  timeout : Wait
  given : (acked_seq : ℕ) → Wait

abbrev pub attempts : ℕ
attempts = 6

abbrev pub acks : ℕ → Wait → Bool
acks seq timeout = false
acks seq (given acked_seq) = acked_seq == seq

-- The frame of a write.
unfoldable pub write_frame : ℕ → Item → List ℕ
write_frame seq w = tunnel_bytes (hdr_init link_t_tun_write seq) w.len (contents w)

-- The attempts from number `k` on, with `n` left: the frames sent, and whether one was acknowledged.
unfoldable pub write_loop : (ℕ → Wait) → ℕ → ℕ → ℕ → Item → List (List ℕ) × Bool
write_loop waits zero k seq w = ([], false)
write_loop waits (suc n) k seq w =
    let rest = write_loop waits n (suc k) seq w in
    if acks seq (waits k)
    then (write_frame seq w ∷ [], true)
    else (write_frame seq w ∷ rest.0, rest.1)

-- One round of `write_task`, on an item that it has received; `waits k` is how the wait of attempt `k`
-- ends, and `now` the time after them.
unfoldable pub write_round : Console → Item → (ℕ → Wait) → ℕ → Console × List (List ℕ)
write_round s w waits now =
    let seq = s.write_seq in
    let sent = write_loop waits attempts 0 seq w in
    let s' = record s {
      write_seq = (seq + 1) % 2 ^ 16;
      writes = (s.writes + 1) % 2 ^ 32;
      last_write_ms = now;
    } in
    (if sent.1 then s' else dlog s' (lost_text seq), sent.0)

-- What is known of some attempts from number `k` on, `n` at most: the same frame each time, no attempt
-- after one that was acknowledged, and all `n` made if none was.
pub record Tried (waits : ℕ → Wait) (n k seq : ℕ) (w : Item) (frames : List (List ℕ)) (acked : Bool)
    : Type 0 where
  pub same : frames ≡ replicate (length frames) (write_frame seq w)
  pub few : length frames ≤ n
  pub earlier : (j : ℕ) → suc j < length frames → acks seq (waits (k + j)) ≡ false
  pub end :
      ((acked ≡ true) × (j : ℕ) × (length frames ≡ suc j) × (acks seq (waits (k + j)) ≡ true))
      ⊎ ((acked ≡ false)
          × (length frames ≡ n)
          × ((j : ℕ) → j < n → acks seq (waits (k + j)) ≡ false))

module _ (waits : ℕ → Wait) (n k seq : ℕ) (w : Item) where
  at_start : {b : Bool} → acks seq (waits k) ≡ b → acks seq (waits (k + 0)) ≡ b
  at_start {b} e = let f : k + 0 ≡ k = omega arith in rw f e

  one_on : (j : ℕ) {b : Bool} → acks seq (waits (suc k + j)) ≡ b → acks seq (waits (k + suc j)) ≡ b
  one_on j e = let f : k + suc j ≡ suc k + j = omega arith in rw f e

  -- An attempt that was not acknowledged, and those after it.
  Tried-next :
      (frames : List (List ℕ)) (acked : Bool)
      → acks seq (waits k) ≡ false
      → Tried waits n (suc k) seq w frames acked
      → Tried waits (suc n) k seq w (write_frame seq w ∷ frames) acked
  Tried-next frames acked e t = record {
    same = ap (◌∷◌ (write_frame seq w)) t.same;
    few = omega (arith, t.few);
    earlier = λ j h. earlier j h;
    end = elim t.end [
      | inl (f, j, l, a) ↦ inl (f, suc j, ap suc l, one_on j a)
      | inr (f, l, a) ↦ inr (f, ap suc l, all a)
    ];
  }
    where
      earlier : (j : ℕ) → suc j < suc (length frames) → acks seq (waits (k + j)) ≡ false
      earlier zero h = at_start e
      earlier (suc j) h = one_on j (t.earlier j (omega arith))

      all :
          ((j : ℕ) → j < n → acks seq (waits (suc k + j)) ≡ false)
          → (j : ℕ) → j < suc n
          → acks seq (waits (k + j)) ≡ false
      all a zero h = at_start e
      all a (suc j) h = one_on j (a j (omega arith))

write_loop-Tried :
    (waits : ℕ → Wait) (n k seq : ℕ) (w : Item)
    → Tried waits n k seq w (write_loop waits n k seq w).0 (write_loop waits n k seq w).1
unfolding write_loop
write_loop-Tried waits zero k seq w = record {
  same = refl;
  few = omega arith;
  earlier = λ j h. absurd (omega arith);
  end = inr (refl, refl, λ j h. absurd (omega arith));
}
write_loop-Tried waits (suc n) k seq w = elim (Bool-cases (acks seq (waits k))) [
  | inl e ↦ rw e (record {
    same = refl;
    few = omega arith;
    earlier = λ j h. absurd (omega arith);
    end = inl (refl, 0, refl, at_start waits n k seq w e);
  })
  | inr e ↦ rw e (
      Tried-next waits n k seq w (write_loop waits n (suc k) seq w).0
        (write_loop waits n (suc k) seq w).1 e (write_loop-Tried waits n (suc k) seq w))
]

-- A round of `write_task` sends the write under its number, the same frame each time, six times at
-- most and never after an acknowledgement of that number; it counts the write and the number up; and
-- it logs the loss exactly if all six waits ended without that acknowledgement.
pub write_round_lem :
    (s : Console) (w : Item) (waits : ℕ → Wait) (now : ℕ)
    → (acked : Bool) × Tried waits 6 0 s.write_seq w (write_round s w waits now).1 acked
      × ((write_round s w waits now).0 ≡ (
          let s' = record s {
            write_seq = (s.write_seq + 1) % 2 ^ 16;
            writes = (s.writes + 1) % 2 ^ 32;
            last_write_ms = now;
          } in
          if acked then s' else dlog s' (lost_text s.write_seq)))
unfolding write_round
write_round_lem s w waits now = (
  (write_loop waits attempts 0 s.write_seq w).1,
  write_loop-Tried waits attempts 0 s.write_seq w,
  refl,
)
