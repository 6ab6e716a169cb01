-- ===== src/Link/Direct.antt =====
-- shared/esp_now_link.c, the version of the link without the queue: `recv_cb` calls the handler itself.
-- All else in it is as in the version of the two boards.
use wireless_skyportal_conne.Prelude.{
  ℕ, ◌≤◌, ◌≡◌, arith, ap, sym, ◌∙◌, true, ◌&&◌, List, [], ◌∷◌, leb, if◌then◌else◌, Option, none,
  some, length, le→leb, slice,
}
use wireless_skyportal_conne.Frame.{hdr_at, hdr_valid, sizeof_hdr}
use wireless_skyportal_conne.Rtos.{QueueApi}
use wireless_skyportal_conne.Link.{Link, Arrival, RxItem, PeerApi, bookkeeping, recv_cb, rx_task}
use wireless_skyportal_conne.Link.Queue.{recv_cb-rx_q, handler-recv_cb, queue-bookkeeping}

-- The frame that the handler is called with, if it is, and the signal strength.
unfoldable pub recv_direct : PeerApi → Link → ℕ → Arrival → Link × Option (List ℕ)
recv_direct radio l now a =
    if leb sizeof_hdr (length a.bytes) && hdr_valid (hdr_at a.bytes)
    then (
      bookkeeping radio l now a,
      if (bookkeeping radio l now a).has_handler then some a.bytes else none,
    )
    else (l, none)

-- The bytes of an item that the worker's handler may rely on.
abbrev pub frame_of : Option RxItem → Option (List ℕ)
frame_of none = none
frame_of (some item) = some (slice item.bytes 0 item.len)

module _ (radio : PeerApi) (api : QueueApi RxItem) where
  worker_gets :
      (l : Link) (item : RxItem)
      → l.has_handler ≡ true
      → l.rx_q ≡ some (item ∷ [])
      → frame_of (rx_task api l).1 ≡ some (slice item.bytes 0 item.len)
  unfolding rx_task
  worker_gets l item h e = ground (arith, api.receive_cons item [])

  direct :
      (l : Link) (now : ℕ) (a : Arrival)
      → (bookkeeping radio l now a).has_handler ≡ l.has_handler
      → l.has_handler ≡ true
      → sizeof_hdr ≤ length a.bytes
      → hdr_valid (hdr_at a.bytes) ≡ true
      → (recv_direct radio l now a).1 ≡ some a.bytes
  unfolding recv_direct
  direct l now a same handler lo valid =
      rw (le→leb sizeof_hdr (length a.bytes) lo, valid, same, handler)

  -- With nothing waiting, a frame of at most 250 bytes gets to the handler through the queue and the
  -- worker as it does by the direct call: the same bytes.
  rx_task-recv_cb :
      (l : Link) (now : ℕ) (a : Arrival) (junk : List ℕ)
      → l.has_handler ≡ true
      → l.rx_q ≡ some []
      → sizeof_hdr ≤ length a.bytes
      → length a.bytes ≤ 250
      → hdr_valid (hdr_at a.bytes) ≡ true
      → length junk ≡ 250
      → frame_of (rx_task api (recv_cb radio api l now a junk)).1 ≡ (recv_direct radio l now a).1
  rx_task-recv_cb l now a junk handler e lo hi valid j =
      let (item, carries, queued) =
        recv_cb-rx_q radio api l now a junk [] handler e (omega arith) lo hi valid j in
      worker_gets (recv_cb radio api l now a junk) item
        (handler-recv_cb radio api l now a junk ∙ handler) queued
      ∙ ap some carries.bytes
      ∙ sym (direct l now a (queue-bookkeeping radio api l now a).1 handler lo valid)
