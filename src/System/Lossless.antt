-- ===== src/System/Lossless.antt =====
-- Both boards and the radio: a write of the games console on its way to the real portal, and its ACK on the
-- way back, when neither frame is lost.
use wireless_skyportal_conne.Prelude.{
  ℕ, ◌≤◌, ◌≡◌, arith, ap, ◌∙◌, true, List, [], ◌∷◌, ◌==◌, ◌&&◌, leb, le→leb, some, length,
  replicate, Bool-cases, inl, inr,
}
use wireless_skyportal_conne.Frame.{hdr_at, hdr_valid, link_t_hello, sizeof_hello, sizeof_hdr}
use wireless_skyportal_conne.Rtos.{push_newest_lem}
use wireless_skyportal_conne.Link.{
  Link, Arrival, on_hello, add_peer, bookkeeping, enqueue, recv_cb, recv_valid,
}
use wireless_skyportal_conne.Link.Queue.{queued, enqueue_lem, handler-recv_cb, queue-bookkeeping}
use wireless_skyportal_conne.SharedLink.Running.{IsRunning}
use wireless_skyportal_conne.System.World.{Env}

-- The stack's contents, the address that the frames come from.
abbrev pub junk : List ℕ
junk = replicate 250 0

module _ (env : Env) (a : Arrival) where
  linked-on_hello : (l : Link) → l.linked ≡ true → (on_hello env.radio l a).linked ≡ true
  unfolding on_hello add_peer
  linked-on_hello l h = ground arith

  linked-bookkeeping :
      (l : Link) (now : ℕ) → l.linked ≡ true → (bookkeeping env.radio l now a).linked ≡ true
  unfolding bookkeeping
  linked-bookkeeping l now h =
      elim (Bool-cases
        ((hdr_at a.bytes).type == link_t_hello && leb sizeof_hello (length a.bytes))) [
          | inl e ↦ rw e (linked-on_hello _ h)
          | inr e ↦ rw e h
        ]

  linked-enqueue : (l : Link) (j : List ℕ) → l.linked ≡ true → (enqueue env.rx l a j).linked ≡ true
  unfolding enqueue
  linked-enqueue l j h = ground arith

  -- Frames do not end a link.
  pub linked-recv_cb :
      (l : Link) (now : ℕ) (j : List ℕ)
      → l.linked ≡ true
      → (recv_cb env.radio env.rx l now a j).linked ≡ true
  unfolding recv_cb recv_valid
  linked-recv_cb l now j h =
      elim (Bool-cases (leb sizeof_hdr (length a.bytes) && hdr_valid (hdr_at a.bytes))) [
        | inl e ↦
            rw e (linked-enqueue (bookkeeping env.radio l now a) j (linked-bookkeeping l now h))
        | inr e ↦ rw e h
      ]

  -- A valid frame at an empty queue.
  pub IsRunning-arrived :
      (l : Link) (now : ℕ) (j : List ℕ)
      → IsRunning l []
      → sizeof_hdr ≤ length a.bytes
      → length a.bytes ≤ 250
      → hdr_valid (hdr_at a.bytes) ≡ true
      → IsRunning
          (recv_cb env.radio env.rx l now a j)
          (queued env.radio env.rx (bookkeeping env.radio l now a) a j ∷ [])
  unfolding recv_cb recv_valid
  IsRunning-arrived l now j v lo hi valid =
      let l' = bookkeeping env.radio l now a in
      let same = queue-bookkeeping env.radio env.rx l now a in
      let item = queued env.radio env.rx l' a j in
      record {
        handler = handler-recv_cb env.radio env.rx l now a j ∙ v.handler;
        rx_q =
            rw (le→leb sizeof_hdr (length a.bytes) lo, valid)
              (enqueue_lem env.radio env.rx l' a j [] (same.1 ∙ v.handler) (same.0 ∙ v.rx_q) hi
                ∙ ap some (push_newest_lem env.rx 32 [] item (omega arith) (omega arith)));
        size = omega arith;
      }
