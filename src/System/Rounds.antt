-- ===== src/System/Rounds.antt =====
-- Both boards and the radio: `write_task` of console-side/src/main.c comes to the end of its round.
use wireless_skyportal_conne.Prelude.{
  ℕ, zero, suc, ◌^◌, ◌<◌, ◌≡◌, refl, ap, sym, subst, ◌∙◌, Bool, true, false, List, ◌==◌, Bool-cases,
  inl, inr,
}
use wireless_skyportal_conne.Rtos.{receive_cases}
use wireless_skyportal_conne.Link.{RxItem}
use wireless_skyportal_conne.Console.{Console, Apis, Item}
use wireless_skyportal_conne.Console.Log.{dlog}
use wireless_skyportal_conne.Console.Live.{empty_sem}
use wireless_skyportal_conne.Console.Task.{
  Pc, Write, idle, testing, emptied, awaiting, taken, ended, write_step,
}
use wireless_skyportal_conne.System.World.{Env, World, console_writes, step}
use wireless_skyportal_conne.System.Progress.{IsOpen, Can, Can-now, Can-next}

abbrev pub IsBusy : Pc → Type 0
IsBusy idle = ⊥
IsBusy (testing w left) = Unit {0}
IsBusy (emptied w left) = Unit {0}
IsBusy (awaiting w left) = Unit {0}
IsBusy (taken w left) = Unit {0}
IsBusy (ended w acked) = Unit {0}

-- A task that is busy with a write leaves those that wait alone, and the number of the next.
busy-write_q :
    (apis : Apis) (s : Console) (pc : Pc) (now : ℕ)
    → IsBusy pc
    → let t = write_step apis s pc now in
      (t.console.write_q ≡ s.write_q) × (t.console.write_seq ≡ s.write_seq)
unfolding write_step empty_sem dlog
busy-write_q apis s idle now h = absurd h
busy-write_q apis s (testing w zero) now h = (refl, refl)
busy-write_q apis s (testing w (suc left)) now h = elim (receive_cases apis.sem s.ack_sem) [
  | inl e ↦ rw (empty_sem, e) (refl, refl)
  | inr (t, rest, e, q) ↦ rw (empty_sem, e) (refl, refl)
]
busy-write_q apis s (emptied w left) now h = (refl, refl)
busy-write_q apis s (awaiting w left) now h = elim (receive_cases apis.sem s.ack_sem) [
  | inl e ↦ rw (write_step, e) (refl, refl)
  | inr (t, rest, e, q) ↦ rw (write_step, e) (refl, refl)
]
busy-write_q apis s (taken w left) now h = elim (Bool-cases (s.acked_seq == w.seq)) [
  | inl e ↦ rw e (refl, refl)
  | inr e ↦ rw e (refl, refl)
]
busy-write_q apis s (ended w true) now h = (refl, refl)
busy-write_q apis s (ended w false) now h = (refl, refl)

module _ (env : Env) (qp qc : List RxItem) (ws : List Item) where
  -- A call of the busy task.
  pub IsOpen-writes :
      (w : World env.nvs.Store) (now : ℕ) (pc pc' : Pc)
      → IsOpen w qp qc ws pc
      → IsBusy pc
      → (write_step env.console w.console pc now).pc ≡ pc'
      → IsOpen (step env w (console_writes now)) qp qc ws pc'
  unfolding step
  IsOpen-writes w now pc pc' v busy e =
      let same =
        busy-write_q env.console w.console w.writer now (subst IsBusy (sym v.writer) busy) in
      record {
        portal_runs = v.portal_runs;
        console_runs = v.console_runs;
        portal_linked = v.portal_linked;
        console_linked = v.console_linked;
        write_q = same.0 ∙ v.write_q;
        small = subst (λ n. n < 2 ^ 16) (sym same.1) v.small;
        writer = ap (λ p. (write_step env.console w.console p now).pc) v.writer ∙ e;
      }

  -- The task is at its queue.
  abbrev AtQueue : World env.nvs.Store → Type 0
  AtQueue w = IsOpen w qp qc ws idle

  -- A call, and what comes after it.
  call :
      (w : World env.nvs.Store) (pc pc' : Pc)
      → IsOpen w qp qc ws pc
      → IsBusy pc
      → (write_step env.console w.console pc 0).pc ≡ pc'
      → ((w' : World env.nvs.Store) → IsOpen w' qp qc ws pc' → Can env AtQueue w')
      → Can env AtQueue w
  call w pc pc' v busy e rest =
      Can-next env AtQueue w (console_writes 0) tt
        (rest (step env w (console_writes 0)) (IsOpen-writes w 0 pc pc' v busy e))

  ends :
      (x : Write) (acked : Bool) (w : World env.nvs.Store)
      → IsOpen w qp qc ws (ended x acked)
      → Can env AtQueue w
  unfolding write_step
  ends x acked w v = call w (ended x acked) idle v tt refl (λ w' v'. Can-now env AtQueue w' v')

  module _ (x : Write) (left : ℕ)
      (again : (w : World env.nvs.Store)
        → IsOpen w qp qc ws (testing x left)
        → Can env AtQueue w) where
    from_taken : (w : World env.nvs.Store) → IsOpen w qp qc ws (taken x left) → Can env AtQueue w
    unfolding write_step
    from_taken w v = elim (Bool-cases (w.console.acked_seq == x.seq)) [
      | inl e ↦ call w (taken x left) (ended x true) v tt (rw e refl) (ends x true)
      | inr e ↦ call w (taken x left) (testing x left) v tt (rw e refl) again
    ]

    from_awaiting :
        (w : World env.nvs.Store) → IsOpen w qp qc ws (awaiting x left) → Can env AtQueue w
    unfolding write_step
    from_awaiting w v = elim (receive_cases env.console.sem w.console.ack_sem) [
      | inl e ↦ call w (awaiting x left) (testing x left) v tt (rw (write_step, e) refl) again
      | inr (t, rest, e, q) ↦
          call w (awaiting x left) (taken x left) v tt (rw (write_step, e) refl) from_taken
    ]

    from_emptied :
        (w : World env.nvs.Store) → IsOpen w qp qc ws (emptied x left) → Can env AtQueue w
    unfolding write_step
    from_emptied w v = call w (emptied x left) (awaiting x left) v tt refl from_awaiting

  from_testing :
      (x : Write) (left : ℕ) (w : World env.nvs.Store)
      → IsOpen w qp qc ws (testing x left)
      → Can env AtQueue w
  unfolding write_step
  from_testing x zero w v = call w (testing x zero) (ended x false) v tt refl (ends x false)
  from_testing x (suc left) w v =
      call w (testing x (suc left)) (emptied x left) v tt refl
        (from_emptied x left (from_testing x left))

  pub IsOpen-idle : (w : World env.nvs.Store) (pc : Pc) → IsOpen w qp qc ws pc → Can env AtQueue w
  IsOpen-idle w idle v = Can-now env AtQueue w v
  IsOpen-idle w (testing x left) v = from_testing x left w v
  IsOpen-idle w (emptied x left) v = from_emptied x left (from_testing x left) w v
  IsOpen-idle w (awaiting x left) v = from_awaiting x left (from_testing x left) w v
  IsOpen-idle w (taken x left) v = from_taken x left (from_testing x left) w v
  IsOpen-idle w (ended x acked) v = ends x acked w v
