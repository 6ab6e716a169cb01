-- ===== src/Console/Task.antt =====
-- `write_task` of console-side/src/main.c call by call: where it stands, and what it does next. Between
-- any two of its calls the other tasks and callbacks may run.
use wireless_skyportal_conne.Prelude.{
  ℕ, zero, suc, ◌+◌, ◌%◌, ◌^◌, Bool, true, false, List, [], ◌∷◌, ◌==◌, if◌then◌else◌, none, some,
}
use wireless_skyportal_conne.Console.{Console, Item, Apis}
use wireless_skyportal_conne.Console.Log.{dlog, lost_text}
use wireless_skyportal_conne.Console.Writer.{attempts, write_frame}
use wireless_skyportal_conne.Console.Live.{empty_sem}

-- The write in hand: `myseq` and `w`.
pub record Write : Type 0 where
  pub seq : ℕ
  pub item : Item

-- Before the receive from the queue; at the test of the loop, with the attempts left; then, in an attempt,
-- after the semaphore is emptied, after the frame is sent, and after the semaphore is taken; and behind
-- the loop, with `acked`.
pub data Pc : Type 0 where
  idle : Pc
  testing : (w : Write) (left : ℕ) → Pc
  emptied : (w : Write) (left : ℕ) → Pc
  awaiting : (w : Write) (left : ℕ) → Pc
  taken : (w : Write) (left : ℕ) → Pc
  ended : (w : Write) (acked : Bool) → Pc

-- What holds of the write in hand, if there is one.
abbrev pub InHand : (Write → Type 0) → Pc → Type 0
InHand P idle = Unit {0}
InHand P (testing w left) = P w
InHand P (emptied w left) = P w
InHand P (awaiting w left) = P w
InHand P (taken w left) = P w
InHand P (ended w acked) = P w

pub InHand-map :
    (P Q : Write → Type 0) → ((w : Write) → P w → Q w) → (pc : Pc) → InHand P pc → InHand Q pc
InHand-map P Q f idle h = tt
InHand-map P Q f (testing w left) h = f w h
InHand-map P Q f (emptied w left) h = f w h
InHand-map P Q f (awaiting w left) h = f w h
InHand-map P Q f (taken w left) h = f w h
InHand-map P Q f (ended w acked) h = f w h

-- What the task does next: the statics after it, where it stands then, the frames that it hands to
-- `link_send`, the write that it takes in hand, and the one that it finds acknowledged.
pub record Turn : Type 0 where
  pub console : Console
  pub pc : Pc
  pub frames : List (List ℕ)
  pub begun : List Write
  pub acked : List Write

abbrev on : Console → Pc → Turn
on s pc = record { console = s; pc = pc; frames = []; begun = []; acked = [] }

module _ (api : Apis) where
  unfoldable pub write_step : Console → Pc → ℕ → Turn
  write_step s idle now = elim (api.items.receive s.write_q) [
    | none ↦ on s idle
    | some (it, rest) ↦
        let w : Write = record { seq = s.write_seq; item = it } in
        record {
          console = record s { write_q = rest; write_seq = (s.write_seq + 1) % 2 ^ 16 };
          pc = testing w attempts;
          frames = [];
          begun = w ∷ [];
          acked = [];
        }
  ]
  write_step s (testing w zero) now = on s (ended w false)
  write_step s (testing w (suc left)) now = on (empty_sem api s) (emptied w left)
  write_step s (emptied w left) now = record {
    console = s;
    pc = awaiting w left;
    frames = write_frame w.seq w.item ∷ [];
    begun = [];
    acked = [];
  }
  write_step s (awaiting w left) now = elim (api.sem.receive s.ack_sem) [
    | none ↦ on s (testing w left)
    | some (t, rest) ↦ on (record s { ack_sem = rest }) (taken w left)
  ]
  write_step s (taken w left) now =
      if s.acked_seq == w.seq
      then record { console = s; pc = ended w true; frames = []; begun = []; acked = w ∷ [] }
      else on s (testing w left)
  write_step s (ended w acked) now =
      let s' = record s { writes = (s.writes + 1) % 2 ^ 32; last_write_ms = now } in
      on (if acked then s' else dlog s' (lost_text w.seq)) idle
