-- ===== src/Link/Queue.antt =====
-- The queue between the radio and the handler.
use wireless_skyportal_conne.Prelude.{
  ℕ, ◌≤◌, ◌≡◌, refl, arith, ap, ◌∙◌, true, ◌&&◌, List, [], ◌∷◌, ◌++◌, ◌==◌, leb, ltb, if◌then◌else◌,
  some, length, drop, slice, overwrite, Bool-cases, le→leb, inl, inr, slice-overwrite_self,
  length-overwrite,
}
use wireless_skyportal_conne.Frame.{hdr_at, hdr_valid, link_t_hello, sizeof_hdr, sizeof_hello}
use wireless_skyportal_conne.Rtos.{QueueApi, push_newest, push_newest_lem}
use wireless_skyportal_conne.Link.{
  Link, Arrival, RxItem, PeerApi, on_hello, add_peer, enqueue, bookkeeping, recv_valid, recv_cb,
}

-- What the worker is to get of a frame: its length, and its bytes at the start of a buffer of 250.
pub record Carries (a : Arrival) (item : RxItem) : Type 0 where
  pub len : item.len ≡ length a.bytes
  pub bytes : slice item.bytes 0 item.len ≡ a.bytes
  pub size : length item.bytes ≡ 250

module _ (radio : PeerApi) (api : QueueApi RxItem) where
  queue-on_hello :
      (l : Link) (a : Arrival)
      → ((on_hello radio l a).rx_q ≡ l.rx_q) × ((on_hello radio l a).has_handler ≡ l.has_handler)
  unfolding on_hello add_peer
  queue-on_hello l a = ground arith

  pub queue-bookkeeping :
      (l : Link) (now : ℕ) (a : Arrival)
      → ((bookkeeping radio l now a).rx_q ≡ l.rx_q)
        × ((bookkeeping radio l now a).has_handler ≡ l.has_handler)
  unfolding bookkeeping
  queue-bookkeeping l now a =
      elim (Bool-cases
        ((hdr_at a.bytes).type == link_t_hello && leb sizeof_hello (length a.bytes))) [
          | inl e ↦ rw e (queue-on_hello _ a)
          | inr e ↦ rw e (refl, refl)
        ]

  abbrev pub queued : Link → Arrival → List ℕ → RxItem
  queued l a junk = record { len = length a.bytes; rssi = l.rssi; bytes = overwrite junk 0 a.bytes }

  pub enqueue_lem :
      (l : Link) (a : Arrival) (junk : List ℕ) (q : List RxItem)
      → l.has_handler ≡ true
      → l.rx_q ≡ some q
      → length a.bytes ≤ 250
      → (enqueue api l a junk).rx_q ≡ some (push_newest api 32 q (queued l a junk))
  unfolding enqueue
  enqueue_lem l a junk q handler e hi = ground arith

  pub handler-enqueue :
      (l : Link) (a : Arrival) (junk : List ℕ) → (enqueue api l a junk).has_handler ≡ l.has_handler
  unfolding enqueue
  handler-enqueue l a junk = ground arith

  pub handler-recv_cb :
      (l : Link) (now : ℕ) (a : Arrival) (junk : List ℕ)
      → (recv_cb radio api l now a junk).has_handler ≡ l.has_handler
  unfolding recv_cb recv_valid
  handler-recv_cb l now a junk =
      ground (arith, handler-enqueue (bookkeeping radio l now a) a junk, queue-bookkeeping l now a)

  -- A valid frame of at most 250 bytes is queued whole as the newest, also on a full queue, which then
  -- loses its oldest frame and no other: the frames stay in the order of their arrival.
  pub recv_cb-rx_q :
      (l : Link) (now : ℕ) (a : Arrival) (junk : List ℕ) (q : List RxItem)
      → l.has_handler ≡ true
      → l.rx_q ≡ some q
      → length q ≤ 32
      → sizeof_hdr ≤ length a.bytes
      → length a.bytes ≤ 250
      → hdr_valid (hdr_at a.bytes) ≡ true
      → length junk ≡ 250
      → (item : RxItem) × Carries a item
        × ((recv_cb radio api l now a junk).rx_q
            ≡ some ((if ltb (length q) 32 then q else drop 1 q) ++ (item ∷ [])))
  unfolding recv_cb recv_valid
  recv_cb-rx_q l now a junk q handler e fits lo hi valid j =
      let l' = bookkeeping radio l now a in
      let same = queue-bookkeeping l now a in
      (
        queued l' a junk,
        record {
          len = refl;
          bytes = slice-overwrite_self junk 0 a.bytes (length a.bytes) (omega arith) refl;
          size = length-overwrite junk 0 a.bytes (omega arith) ∙ j;
        },
        rw (le→leb sizeof_hdr (length a.bytes) lo, valid)
            (enqueue_lem l' a junk q (same.1 ∙ handler) (same.0 ∙ e) hi
              ∙ ap some (push_newest_lem api 32 q (queued l' a junk) (omega arith) fits)),
      )
