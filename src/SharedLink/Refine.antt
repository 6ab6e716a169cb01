-- ===== src/SharedLink/Refine.antt =====
-- portal-side/src/esp_now_link.c with its queue left out is shared/esp_now_link.c.
use wireless_skyportal_conne.Prelude.{
  ℕ, ◌≡◌, refl, arith, ap, ap₂, ◌∙◌, ◌&&◌, List, [], ◌∷◌, ◌==◌, leb, length, Bool-cases, inl, inr,
}
use wireless_skyportal_conne.Frame.{hdr_at, hdr_valid, link_t_hello, sizeof_hdr, sizeof_hello}
use wireless_skyportal_conne.Rtos.{QueueApi}
use wireless_skyportal_conne.Link.{
  Link, Arrival, RxItem, PeerApi, Sent, bookkeeping, enqueue, same_mac,
}
use wireless_skyportal_conne.Link
use wireless_skyportal_conne.Link.History
use wireless_skyportal_conne.Link.History.{Event, arrives, link_round, rx_round}
use wireless_skyportal_conne.SharedLink.{
  DirectLink, add_peer, on_hello, recv_valid, recv_cb, link_task, link_init, link_send,
}

-- The statics of the boards' version without the queue.
abbrev pub forget : Link → DirectLink
forget l = record {
  role = l.role;
  has_handler = l.has_handler;
  linked = l.linked;
  rssi = l.rssi;
  peer = l.peer;
  last_rx_ms = l.last_rx_ms;
  seq = l.seq;
  peers = l.peers;
}

forget-add_peer :
    (radio : PeerApi) (l : Link) (mac : List ℕ)
    → forget (Link.add_peer radio l mac) ≡ add_peer radio (forget l) mac
unfolding add_peer Link.add_peer
forget-add_peer radio l mac = ground arith

forget-on_hello :
    (radio : PeerApi) (l : Link) (a : Arrival)
    → forget (Link.on_hello radio l a) ≡ on_hello radio (forget l) a
unfolding on_hello Link.on_hello add_peer Link.add_peer
forget-on_hello radio l a = ground arith

forget-bookkeeping :
    (radio : PeerApi) (l : Link) (now : ℕ) (a : Arrival)
    → forget (bookkeeping radio l now a) ≡ recv_valid radio (forget l) now a
unfolding bookkeeping recv_valid
forget-bookkeeping radio l now a =
    elim (Bool-cases ((hdr_at a.bytes).type == link_t_hello && leb sizeof_hello (length a.bytes))) [
      | inl e ↦ rw e (forget-on_hello radio _ a)
      | inr e ↦ rw e refl
    ]

forget-enqueue :
    (api : QueueApi RxItem) (l : Link) (a : Arrival) (junk : List ℕ)
    → forget (enqueue api l a junk) ≡ forget l
unfolding enqueue
forget-enqueue api l a junk = ground arith

forget-link_task :
    (l : Link) (now : ℕ)
    → (forget (Link.link_task l now).0 ≡ (link_task (forget l) now).0)
      × ((Link.link_task l now).1 ≡ (link_task (forget l) now).1)
      × ((Link.link_task l now).2 ≡ (link_task (forget l) now).2)
unfolding link_task Link.link_task Link.expire
forget-link_task l now = ground arith

-- A round of the worker is nothing in the version without it.
unfoldable pub step : PeerApi → DirectLink → Event → DirectLink
step radio l (arrives now a junk) = (recv_cb radio l now a).0
step radio l (link_round now) = (link_task l now).0
step radio l rx_round = l

unfoldable pub run : PeerApi → DirectLink → List Event → DirectLink
run radio l [] = l
run radio l (e ∷ es) = run radio (step radio l e) es

-- The HELLOs that go out, and how long the task then sleeps.
unfoldable pub hellos : PeerApi → DirectLink → List Event → List (Sent × ℕ)
hellos radio l [] = []
hellos radio l (arrives now a junk ∷ es) = hellos radio (step radio l (arrives now a junk)) es
hellos radio l (link_round now ∷ es) =
    ((link_task l now).1, (link_task l now).2) ∷ hellos radio (step radio l (link_round now)) es
hellos radio l (rx_round ∷ es) = hellos radio l es

module _ (radio : PeerApi) (api : QueueApi RxItem) where
  -- The same of the boards' version.
  unfoldable pub queued_hellos : Link → List Event → List (Sent × ℕ)
  queued_hellos l [] = []
  queued_hellos l (arrives now a junk ∷ es) =
      queued_hellos (History.step radio api l (arrives now a junk)) es
  queued_hellos l (link_round now ∷ es) =
      ((Link.link_task l now).1, (Link.link_task l now).2)
      ∷ queued_hellos (History.step radio api l (link_round now)) es
  queued_hellos l (rx_round ∷ es) = queued_hellos (History.step radio api l rx_round) es

  forget-recv_cb :
      (l : Link) (now : ℕ) (a : Arrival) (junk : List ℕ)
      → forget (Link.recv_cb radio api l now a junk) ≡ (recv_cb radio (forget l) now a).0
  unfolding Link.recv_cb Link.recv_valid recv_cb
  forget-recv_cb l now a junk =
      elim (Bool-cases (leb sizeof_hdr (length a.bytes) && hdr_valid (hdr_at a.bytes))) [
        | inl e ↦ rw e (
            forget-enqueue api (bookkeeping radio l now a) a junk
            ∙ forget-bookkeeping radio l now a)
        | inr e ↦ rw e refl
      ]

  forget-rx_task : (l : Link) → forget (Link.rx_task api l).0 ≡ forget l
  unfolding Link.rx_task
  forget-rx_task l = ground arith

  pub forget-step :
      (l : Link) (e : Event) → forget (History.step radio api l e) ≡ step radio (forget l) e
  unfolding step History.step
  forget-step l (arrives now a junk) = forget-recv_cb l now a junk
  forget-step l (link_round now) = (forget-link_task l now).0
  forget-step l rx_round = forget-rx_task l

  same_run :
      (es : List Event) (l : Link) (d : DirectLink)
      → forget l ≡ d
      → (forget (History.run radio api l es) ≡ run radio d es)
        × (queued_hellos l es ≡ hellos radio d es)
  unfolding run History.run hellos queued_hellos step
  same_run [] l d h = (h, refl)
  same_run (arrives now a junk ∷ es) l d h =
      same_run es (History.step radio api l (arrives now a junk))
        (step radio d (arrives now a junk))
        (forget-step l (arrives now a junk) ∙ ap (λ t. step radio t (arrives now a junk)) h)
  same_run (link_round now ∷ es) l d h =
      let (a, b) =
        same_run es (History.step radio api l (link_round now)) (step radio d (link_round now))
          (forget-step l (link_round now) ∙ ap (λ t. step radio t (link_round now)) h) in
      (
        a,
        ap₂ (λ x y. x ∷ y) (sent l now ∙ ap (λ t. ((link_task t now).1, (link_task t now).2)) h) b,
      )
    where
      sent :
          (l : Link) (now : ℕ)
          → (let r = Link.link_task l now in
              ◌≡◌ {A = Sent × ℕ} (r.1, r.2) (let d = link_task (forget l) now in (d.1, d.2)))
      sent l now = ap₂ (λ x y. (x, y)) (forget-link_task l now).1 (forget-link_task l now).2
  same_run (rx_round ∷ es) l d h =
      same_run es (History.step radio api l rx_round) d (forget-step l rx_round ∙ h)

  pub forget-link_init :
      (peers : List (List ℕ)) (role : ℕ)
      → forget (Link.link_init radio peers role) ≡ link_init radio peers role
  unfolding link_init Link.link_init
  forget-link_init peers role = forget-add_peer radio _ _

  forget-link_send :
      (l : Link) (bytes : List ℕ) → Link.link_send l bytes ≡ link_send (forget l) bytes
  unfolding link_send Link.link_send
  forget-link_send l bytes = refl

  -- From `link_init` on and through any arrivals and rounds, the boards' version with its queue left
  -- out is in the state of the shared version, sends the same HELLOs to the same addresses at the same
  -- pace, and sends or refuses the same frames.
  pub forget-run :
      (peers : List (List ℕ)) (role : ℕ) (es : List Event) (bytes : List ℕ)
      → let l = History.run radio api (Link.link_init radio peers role) es in
        let d = run radio (link_init radio peers role) es in
        (forget l ≡ d)
        × (queued_hellos (Link.link_init radio peers role) es
            ≡ hellos radio (link_init radio peers role) es)
        × (Link.link_send l bytes ≡ link_send d bytes)
  forget-run peers role es bytes =
      let (a, b) =
        same_run es (Link.link_init radio peers role) (link_init radio peers role)
          (forget-link_init peers role) in
      (
        a,
        b,
        forget-link_send (History.run radio api (Link.link_init radio peers role) es) bytes
            ∙ ap (λ d. link_send d bytes) a,
      )
