-- ===== src/Link/Timeout.antt =====
-- The heartbeat: what keeps a link, and what ends it.
use wireless_skyportal_conne.Prelude.{
  ℕ, ◌+◌, ◌-◌, ◌%◌, ◌^◌, ◌<◌, ◌≤◌, ◌≡◌, arith, ap, ◌∙◌, Bool, true, false, ◌&&◌, List, [], ◌∷◌, All,
  ◌==◌, leb, if◌then◌else◌, length, inl, inr, Bool-cases, le→leb,
}
use wireless_skyportal_conne.Frame.{hdr_at, hdr_valid, link_t_hello, sizeof_hdr, sizeof_hello}
use wireless_skyportal_conne.Rtos.{QueueApi}
use wireless_skyportal_conne.Link.{
  Link, Arrival, RxItem, PeerApi, broadcast, on_hello, add_peer, bookkeeping, recv_valid, recv_cb,
  link_task,
}
use wireless_skyportal_conne.Link.Pairing.{same-enqueue, pairing, is_other_hello, pairing-recv_cb}

-- A round of `link_task` drops a link exactly if nothing valid has come in for more than 3000 ms. The
-- HELLO then goes to everybody and the next comes in 400 ms; a linked board sends it to its peer and
-- waits 1000 ms. The round counts the sequence number up and changes nothing else.
link_task_lem :
    (l : Link) (now : ℕ)
    → let keeps = l.linked && leb (now - l.last_rx_ms) 3000 in
      let (l', sent, delay) = link_task l now in
      (l' ≡ record l { linked = keeps; seq = (l.seq + 1) % 2 ^ 16 })
      × (sent.to ≡ (if keeps then l.peer else broadcast))
      × (delay ≡ (if keeps then 1000 else 400))
unfolding link_task
link_task_lem l now = ground arith

-- The rounds of `link_task` at those times, and nothing else.
abbrev pub rounds : Link → List ℕ → Link
rounds l [] = l
rounds l (t ∷ times) = rounds (link_task l t).0 times

linked_peer :
    (l : Link) (b : Bool) (mac : List ℕ) → pairing l ≡ (b, mac) → (l.linked ≡ b) × (l.peer ≡ mac)
linked_peer l b mac e = (ap (λ t. t.0) e, ap (λ t. t.1) e)

round-keeps :
    (l : Link) (now t : ℕ) (mac : List ℕ)
    → l.last_rx_ms ≡ now
    → pairing l ≡ (true, mac)
    → t ≤ now + 3000
    → ((link_task l t).0.last_rx_ms ≡ now) × (pairing (link_task l t).0 ≡ (true, mac))
round-keeps l now t mac e h soon = ground (arith, link_task_lem l t, linked_peer l true mac h)

rounds-keep :
    (l : Link) (now : ℕ) (mac : List ℕ) (times : List ℕ)
    → l.last_rx_ms ≡ now
    → pairing l ≡ (true, mac)
    → All (λ t. t ≤ now + 3000) times
    → ((rounds l times).last_rx_ms ≡ now) × (pairing (rounds l times) ≡ (true, mac))
rounds-keep l now mac [] e h soon = (e, h)
rounds-keep l now mac (t ∷ times) e h soon =
    let (e', h') = round-keeps l now t mac e h soon.0 in
    rounds-keep (link_task l t).0 now mac times e' h' soon.1

late-drops :
    (l : Link) (now late : ℕ)
    → l.last_rx_ms ≡ now
    → now + 3000 < late
    → (link_task l late).0.linked ≡ false
late-drops l now late e h = ground (arith, link_task_lem l late)

module _ (radio : PeerApi) (api : QueueApi RxItem) where
  last_rx-on_hello : (l : Link) (a : Arrival) → (on_hello radio l a).last_rx_ms ≡ l.last_rx_ms
  unfolding on_hello add_peer
  last_rx-on_hello l a = ground arith

  last_rx-bookkeeping :
      (l : Link) (now : ℕ) (a : Arrival) → (bookkeeping radio l now a).last_rx_ms ≡ now
  unfolding bookkeeping
  last_rx-bookkeeping l now a =
      elim (Bool-cases
        ((hdr_at a.bytes).type == link_t_hello && leb sizeof_hello (length a.bytes))) [
          | inl e ↦ rw e (last_rx-on_hello _ a)
          | inr e ↦ rw e
        ]

  last_rx-recv_cb :
      (l : Link) (now : ℕ) (a : Arrival) (junk : List ℕ)
      → sizeof_hdr ≤ length a.bytes
      → hdr_valid (hdr_at a.bytes) ≡ true
      → (recv_cb radio api l now a junk).last_rx_ms ≡ now
  unfolding recv_cb recv_valid
  last_rx-recv_cb l now a junk size valid =
      rw (le→leb sizeof_hdr (length a.bytes) size, valid)
        ((same-enqueue radio api (bookkeeping radio l now a) a junk).2
          ∙ last_rx-bookkeeping l now a)

  -- A frame with a valid header, whoever sends it, that is no HELLO of the other role, keeps a linked
  -- board linked to the peer that it has, through any number of rounds of `link_task` in the next
  -- 3000 ms; and a round later than that, if nothing comes in before it, ends the link.
  pub recv_cb_keeps_link :
      (l : Link) (now late : ℕ) (times : List ℕ) (a : Arrival) (junk : List ℕ)
      → sizeof_hdr ≤ length a.bytes
      → hdr_valid (hdr_at a.bytes) ≡ true
      → is_other_hello l.role a.bytes ≡ false
      → l.linked ≡ true
      → All (λ t. t ≤ now + 3000) times
      → now + 3000 < late
      → let l' = rounds (recv_cb radio api l now a junk) times in
        (pairing l' ≡ (true, l.peer)) × ((link_task l' late).0.linked ≡ false)
  recv_cb_keeps_link l now late times a junk size valid other up soon h =
      let l' = rounds (recv_cb radio api l now a junk) times in
      let (last, paired) =
        rounds-keep (recv_cb radio api l now a junk) now l.peer times
          (last_rx-recv_cb l now a junk size valid)
          (rw other at (pairing-recv_cb radio api l now a junk) ∙ ap (λ b. (b, l.peer)) up) soon in
      (paired, late-drops l' now late last h)
