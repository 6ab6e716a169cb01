-- ===== src/Rtos.antt =====
-- The FreeRTOS queue as the code uses it, by what its documentation says: a queue of copies, first in
-- first out, of a length fixed at creation. Its contents are a list, oldest first; the calls are the
-- parameter's, with these laws. All calls of the code but the tasks' receives have a wait of 0.
use wireless_skyportal_conne.Prelude.{
  ℕ, ◌≤◌, ◌<◌, ◌≡◌, refl, Bool, true, false, Option, none, some, List, [], ◌∷◌, ◌++◌, length, ltb,
  if◌then◌else◌, arith, ◌⊎◌, inl, inr, drop, length-drop, length-append,
}

pub record QueueApi (A : Type 0) : Type 0 where
  -- `xQueueSend(q, &item, 0)` on a queue of that length: `pdTRUE`, and the new contents.
  pub send : ℕ → List A → A → Bool × List A
  -- `xQueueReceive`; `none` is `pdFALSE`.
  pub receive : List A → Option (A × List A)
  -- `xQueueReset`
  pub reset : List A → List A
  pub send_room :
      (cap : ℕ) (q : List A) (a : A) → length q < cap → send cap q a ≡ (true, q ++ (a ∷ []))
  pub send_full : (cap : ℕ) (q : List A) (a : A) → cap ≤ length q → send cap q a ≡ (false, q)
  pub receive_nil : receive [] ≡ none
  pub receive_cons : (a : A) (q : List A) → receive (a ∷ q) ≡ some (a, q)
  pub reset_lem : (q : List A) → reset q ≡ []

-- A queue that obeys them.
abbrev pub fifo_send : {A : Type 0} → ℕ → List A → A → Bool × List A
fifo_send size q a = if ltb (length q) size then (true, q ++ (a ∷ [])) else (false, q)

abbrev pub fifo_receive : {A : Type 0} → List A → Option (A × List A)
fifo_receive [] = none
fifo_receive (a ∷ q) = some (a, q)

pub fifo_send-room :
    {A : Type 0} (cap : ℕ) (q : List A) (a : A)
    → length q < cap
    → fifo_send cap q a ≡ (true, q ++ (a ∷ []))
fifo_send-room size q a h = ground arith

pub fifo_send-full :
    {A : Type 0} (cap : ℕ) (q : List A) (a : A) → cap ≤ length q → fifo_send cap q a ≡ (false, q)
fifo_send-full size q a h = ground arith

abbrev pub fifo : (A : Type 0) → QueueApi A
fifo A = record {
  send = fifo_send;
  receive = fifo_receive;
  reset = λ q. [];
  send_room = fifo_send-room;
  send_full = fifo_send-full;
  receive_nil = refl;
  receive_cons = λ a q. refl;
  reset_lem = λ q. refl;
}

pub receive_cases :
    {A : Type 0} (api : QueueApi A) (q : List A)
    → (api.receive q ≡ none)
      ⊎ ((a : A) × (rest : List A) × (api.receive q ≡ some (a, rest)) × (q ≡ a ∷ rest))
receive_cases api [] = inl api.receive_nil
receive_cases api (a ∷ q) = inr (a, q, api.receive_cons a q, refl)

-- `xQueueSend`, and on a full queue `xQueueReceive` of the oldest item and `xQueueSend` again: the
-- code's way to push without ever refusing the new item.
module _ {A : Type 0} (api : QueueApi A) where
  open api use {send, receive}

  abbrev dropped : List A → List A
  dropped q = elim (receive q) [ none ↦ q | some (old, rest) ↦ rest ]

  unfoldable pub push_newest : ℕ → List A → A → List A
  push_newest size q a =
      let (done, q') = send size q a in if done then q' else (send size (dropped q') a).1

-- The new item always goes in, at the end; a full queue loses its oldest item for it, and no other.
pub push_newest_lem :
    {A : Type 0} (api : QueueApi A) (cap : ℕ) (q : List A) (a : A)
    → 0 < cap
    → length q ≤ cap
    → push_newest api cap q a ≡ (if ltb (length q) cap then q else drop 1 q) ++ (a ∷ [])
unfolding push_newest
push_newest_lem api size [] a h k = ground (arith, api.send_room size [] a)
push_newest_lem api size (x ∷ q) a h k = ground (
  arith,
  api.send_room size (x ∷ q) a,
  api.send_full size (x ∷ q) a,
  api.receive_cons x q,
  api.send_room size q a,
)

pub length-push_newest :
    {A : Type 0} (api : QueueApi A) (cap : ℕ) (q : List A) (a : A)
    → 0 < cap
    → length q ≤ cap
    → length (push_newest api cap q a) ≤ cap
length-push_newest api size q a h k =
    rw (push_newest_lem api size q a h k)
      (ground (arith, length-append q (a ∷ []), length-append (drop 1 q) (a ∷ []), length-drop 1 q))

-- What the queue holds after a send, taken or refused.
pub send_lem :
    {A : Type 0} (api : QueueApi A) (cap : ℕ) (q : List A) (a : A)
    → (api.send cap q a).1 ≡ (if ltb (length q) cap then q ++ (a ∷ []) else q)
send_lem api size q a = ground (arith, api.send_room size q a, api.send_full size q a)
