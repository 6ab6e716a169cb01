-- ===== src/Console/Live.antt =====
-- `write_task` of console-side/src/main.c while the link goes on delivering frames: one attempt is the
-- emptying of the semaphore, the frame, the wait for the semaphore, and the reading of the number. Frames
-- may arrive before the emptying, from `link_send` until the wait ends, and before the reading; Console/Task
-- also has those that arrive between the emptying and `link_send`.
use wireless_skyportal_conne.Prelude.{
  ℕ, zero, suc, Bool, true, false, List, [], ◌∷◌, if◌then◌else◌, none, some,
}
use wireless_skyportal_conne.Console.{Console, Item, Apis, on_link_recv}
use wireless_skyportal_conne.Console.Writer.{Wait, timeout, given, acks, write_frame}

-- A frame that `rx_task` hands to `on_link_recv`.
pub record Frame : Type 0 where
  pub junk : List ℕ
  pub type : ℕ
  pub bytes : List ℕ
  pub len : ℕ

-- The frames that arrive before the semaphore is emptied, until the wait ends, and, after a wait that
-- got the semaphore, until the number is read.
pub record Attempt : Type 0 where
  pub before : List Frame
  pub during : List Frame
  pub after : List Frame

module _ (api : Apis) where
  unfoldable pub arrivals : Console → List Frame → Console
  arrivals s [] = s
  arrivals s (f ∷ fs) = arrivals (on_link_recv api s f.junk f.type f.bytes f.len) fs

  -- `xSemaphoreTake(s_ack_sem, 0)`
  unfoldable pub empty_sem : Console → Console
  empty_sem s = elim (api.sem.receive s.ack_sem) [
    | none ↦ s
    | some (_, rest) ↦ record s { ack_sem = rest }
  ]

  -- The wait of at most 100 ms, and what the task then reads in `s_acked_seq`.
  unfoldable pub await_ack : Console → Attempt → Console × Wait
  await_ack s a = elim (api.sem.receive s.ack_sem) [
    | none ↦ (s, timeout)
    | some (_, rest) ↦
        let s' = arrivals (record s { ack_sem = rest }) a.after in (s', given s'.acked_seq)
  ]

  unfoldable pub attempt : Console → Attempt → Console × Wait
  attempt s a = await_ack (arrivals (empty_sem (arrivals s a.before)) a.during) a

  -- The attempts from number `k` on, with `n` left.
  unfoldable pub live_loop :
      (ℕ → Attempt) → ℕ → ℕ → ℕ → Item → Console → Console × List (List ℕ) × Bool
  live_loop script zero k seq w s = (s, [], false)
  live_loop script (suc n) k seq w s =
      let r = attempt s (script k) in
      let rest = live_loop script n (suc k) seq w r.0 in
      if acks seq r.1
      then (r.0, write_frame seq w ∷ [], true)
      else (rest.0, write_frame seq w ∷ rest.1, rest.2)
