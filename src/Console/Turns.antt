-- ===== src/Console/Turns.antt =====
-- The rounds of `write_task` of console-side/src/main.c, call by call: how long they take whatever runs in
-- between, and that the attempts of `Console.Live` are made of these calls.
use wireless_skyportal_conne.Prelude.{
  ℕ, zero, suc, ◌+◌, ◌*◌, ◌≤◌, ◌≡◌, refl, arith, Bool, true, false, List, [], ◌++◌, ◌==◌, replicate,
  Bool-cases, inl, inr,
}
use wireless_skyportal_conne.Rtos.{receive_cases}
use wireless_skyportal_conne.Console.{Console, Apis}
use wireless_skyportal_conne.Console.Writer.{write_frame}
use wireless_skyportal_conne.Console.Task.{
  Pc, Write, idle, testing, emptied, awaiting, taken, ended, write_step,
}

-- Where the task stands after `n` calls, and its frames, if `states k` are the statics that its call `k`
-- finds: whatever the rest of the program has made of them.
unfoldable pub turns : Apis → (ℕ → Console) → (ℕ → ℕ) → ℕ → ℕ → Pc → Pc × List (List ℕ)
turns api states times k zero pc = (pc, [])
turns api states times k (suc n) pc =
    let t = write_step api (states k) pc (times k) in
    let r = turns api states times (suc k) n t.pc in (r.0, t.frames ++ r.1)

-- The task is back at its queue in at most `n` calls, with the frame of its write sent at most `m` times.
abbrev pub Ends : Apis → (ℕ → Console) → (ℕ → ℕ) → ℕ → Write → ℕ → ℕ → Pc → Type 0
Ends api states times k w n m pc =
    (calls : ℕ) × (sent : ℕ) × (calls ≤ n)
    × (sent ≤ m)
    × (turns api states times k calls pc ≡ (idle, replicate sent (write_frame w.seq w.item)))

module _ (api : Apis) (states : ℕ → Console) (times : ℕ → ℕ) where
  -- A call more before, with no frame.
  Ends-after :
      (k : ℕ) (w : Write) (n m : ℕ) (pc pc' : Pc)
      → (write_step api (states k) pc (times k)).pc ≡ pc'
      → (write_step api (states k) pc (times k)).frames ≡ []
      → Ends api states times (suc k) w n m pc'
      → Ends api states times k w (suc n) m pc
  unfolding turns
  Ends-after k w n m pc pc' e f (calls, sent, few, less, g) =
      (suc calls, sent, omega (arith, few), less, rw (e, f, g) refl)

  -- At most that many calls more.
  Ends-more :
      (k : ℕ) (w : Write) (n n' m m' : ℕ) (pc : Pc)
      → Ends api states times k w n m pc
      → n ≤ n'
      → m ≤ m'
      → Ends api states times k w n' m' pc
  Ends-more k w n n' m m' pc (calls, sent, few, less, g) h l =
      (calls, sent, omega (arith, few, h), omega (arith, less, l), g)

  Ends-ended : (k : ℕ) (w : Write) (acked : Bool) → Ends api states times k w 1 0 (ended w acked)
  unfolding turns write_step
  Ends-ended k w acked = (1, 0, omega arith, omega arith, refl)

  -- The rest of an attempt: its frame is sent, and what comes after it ends.
  Ends-emptied :
      (k : ℕ) (w : Write) (left n : ℕ)
      → 1 ≤ n
      → ((j : ℕ) → Ends api states times j w n left (testing w left))
      → Ends api states times k w (3 + n) (suc left) (emptied w left)
  unfolding turns write_step
  Ends-emptied k w left n some_calls next =
      let (calls, sent, few, less, g) = after (suc k) in
      (suc calls, suc sent, omega (arith, few), omega (arith, less), rw g refl)
    where
      Ends-taken : (j : ℕ) → Ends api states times j w (1 + n) left (taken w left)
      Ends-taken j = elim (Bool-cases ((states j).acked_seq == w.seq)) [
        | inl e ↦
            Ends-more j w 2 (1 + n) 0 left (taken w left)
              (Ends-after j w 1 0 (taken w left) (ended w true) (rw e refl) (rw e refl)
                (Ends-ended (suc j) w true))
              (omega (arith, some_calls)) (omega arith)
        | inr e ↦
            Ends-more j w (suc n) (1 + n) left left (taken w left)
              (Ends-after j w n left (taken w left) (testing w left) (rw e refl) (rw e refl)
                (next (suc j)))
              (omega arith) (omega arith)
      ]

      after : (j : ℕ) → Ends api states times j w (2 + n) left (awaiting w left)
      after j = elim (receive_cases api.sem (states j).ack_sem) [
        | inl e ↦
            Ends-more j w (suc n) (2 + n) left left (awaiting w left)
              (Ends-after j w n left (awaiting w left) (testing w left) (rw (write_step, e) refl)
                (rw (write_step, e) refl) (next (suc j)))
              (omega arith) (omega arith)
        | inr (t, rest, e, q) ↦
            Ends-more j w (suc (1 + n)) (2 + n) left left (awaiting w left)
              (Ends-after j w (1 + n) left (awaiting w left) (taken w left)
                (rw (write_step, e) refl) (rw (write_step, e) refl) (Ends-taken (suc j)))
              (omega arith) (omega arith)
      ]

  -- Whatever the rest of the program does to the statics between its calls, `write_task` is back at its
  -- queue after at most four calls for each attempt that is left and two more, and it has sent the frame
  -- of its write, and nothing else, at most once for each.
  pub testing-Ends :
      (k : ℕ) (w : Write) (left : ℕ)
      → Ends api states times k w (4 * left + 2) left (testing w left)
  unfolding write_step
  testing-Ends k w zero =
      Ends-more k w 2 (4 * zero + 2) 0 0 (testing w zero)
        (Ends-after k w 1 0 (testing w zero) (ended w false) refl refl (Ends-ended (suc k) w false))
        (omega arith) (omega arith)
  testing-Ends k w (suc left) =
      let n = 4 * left + 2 in
      Ends-more k w (suc (3 + n)) (4 * suc left + 2) (suc left) (suc left) (testing w (suc left))
        (Ends-after k w (3 + n) (suc left) (testing w (suc left)) (emptied w left) refl refl
          (Ends-emptied (suc k) w left n (omega arith) (λ j. testing-Ends j w left)))
        (omega arith) (omega arith)
