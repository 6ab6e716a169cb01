-- ===== src/Examples/Boards.antt =====
-- The link at concrete states of a board.
use mathlib.Core.List.{Sublist}
use wireless_skyportal_conne.Prelude.{
  ℕ, ◌≡◌, refl, arith, true, false, List, [], ◌∷◌, ◌++◌, map, replicate, none, some, pos,
}
use wireless_skyportal_conne.Rtos.{fifo}
use wireless_skyportal_conne.Frame.{
  hdr_init, hello_bytes, tunnel_bytes, link_t_hello, link_t_tun_in, link_role_portal,
  link_role_console,
}
use wireless_skyportal_conne.Link.{
  Link, RxItem, Arrival, PeerApi, recv_cb, link_task, link_init, add_peer, expire, link_send,
  recv_valid, bookkeeping, on_hello, enqueue,
}
use wireless_skyportal_conne.Link.Pairing.{pairing, pairing-recv_cb, recv_cb-link_task}
use wireless_skyportal_conne.Link.History.{
  step, Event, arrives, link_round, rx_round, run, Heard, linked-Heard,
}
use wireless_skyportal_conne.Link.Timeout.{rounds, recv_cb_keeps_link}
use wireless_skyportal_conne.Link.Queue.{Carries, recv_cb-rx_q}
use wireless_skyportal_conne.SharedLink
use wireless_skyportal_conne.SharedLink.Refine
use wireless_skyportal_conne.SharedLink.Refine.{forget-run}
use wireless_skyportal_conne.SharedLink.Running.{bytes_of, IsRunning}
use wireless_skyportal_conne.SharedLink.Frames.{worker_calls, calls, worker_calls-sublist}

abbrev radio : PeerApi
radio = record { is_peer_exist = λ peers mac. false; add = λ peers mac. mac ∷ peers }

abbrev junk : List ℕ
junk = replicate 250 0

abbrev console_mac : List ℕ
console_mac = 2 ∷ 0 ∷ 0 ∷ 0 ∷ 0 ∷ 7 ∷ []

-- The portal's side before any frame, and paired.
abbrev alone : Link
alone = record {
  role = link_role_portal;
  has_handler = true;
  linked = false;
  rssi = pos 0;
  peer = 0 ∷ 0 ∷ 0 ∷ 0 ∷ 0 ∷ 0 ∷ [];
  last_rx_ms = 0;
  seq = 0;
  rx_q = some [];
  peers = [];
}

abbrev paired : Link
paired = record alone { linked = true; peer = console_mac; last_rx_ms = 100 }

abbrev other_board : Link
other_board = record alone { role = link_role_console }

abbrev hello : Arrival
hello = record {
  src_addr = console_mac;
  rx_ctrl = none;
  bytes = hello_bytes (hdr_init link_t_hello 4) link_role_console 1 0;
}

abbrev report : Arrival
report = record {
  src_addr = 9 ∷ 9 ∷ 9 ∷ 9 ∷ 9 ∷ 9 ∷ [];
  rx_ctrl = some (pos 3);
  bytes = tunnel_bytes (hdr_init link_t_tun_in 0) 2 (0x53 ∷ 1 ∷ []);
}

pairing-recv_cb_example :
    pairing (recv_cb radio (fifo RxItem) alone 5 hello junk) ≡ (true, console_mac)
pairing-recv_cb_example = pairing-recv_cb radio (fifo RxItem) alone 5 hello junk

recv_cb-link_task_example :
    pairing (
      recv_cb radio
        (fifo RxItem)
        alone
        5
        (record {
          src_addr = console_mac;
          rx_ctrl = none;
          bytes = (link_task other_board 80).1.bytes;
        })
        junk)
    ≡ (true, console_mac)
recv_cb-link_task_example =
    recv_cb-link_task radio (fifo RxItem) alone other_board 5 80 console_mac none junk (omega arith)

linked-Heard_example :
    let l =
      run radio
        (fifo RxItem)
        (link_init radio [] link_role_portal)
        (arrives 5 hello junk ∷ link_round 9 ∷ []) in
    Heard link_role_portal l.peer (arrives 5 hello junk ∷ link_round 9 ∷ [])
unfolding run step link_init add_peer link_task expire recv_cb recv_valid bookkeeping enqueue
    on_hello
linked-Heard_example =
    linked-Heard radio (fifo RxItem) [] link_role_portal (arrives 5 hello junk ∷ link_round 9 ∷ [])
      refl

recv_cb_keeps_link_example :
    let l' = rounds (recv_cb radio (fifo RxItem) paired 3000 report junk) (4000 ∷ 6000 ∷ []) in
    (pairing l' ≡ (true, console_mac)) × ((link_task l' 6001).0.linked ≡ false)
recv_cb_keeps_link_example =
    recv_cb_keeps_link radio (fifo RxItem) paired 3000 6001 (4000 ∷ 6000 ∷ []) report junk
      (omega arith) refl refl refl (omega arith, (omega arith, tt)) (omega arith)

recv_cb-rx_q_example :
    (item : RxItem) × Carries report item
    × ((recv_cb radio (fifo RxItem) paired 7 report junk).rx_q ≡ some (item ∷ []))
recv_cb-rx_q_example =
    recv_cb-rx_q radio (fifo RxItem) paired 7 report junk [] refl refl (omega arith) (omega arith)
      (omega arith) refl refl

-- A HELLO and a report arrive, and the worker takes one of them.
abbrev events : List Event
events = arrives 5 hello junk ∷ arrives 7 report junk ∷ rx_round ∷ link_round 9 ∷ []

forget-run_example :
    let l = run radio (fifo RxItem) (link_init radio [] link_role_portal) events in
    let d = Refine.run radio (SharedLink.link_init radio [] link_role_portal) events in
    (Refine.forget l ≡ d)
    × (Refine.queued_hellos radio (fifo RxItem) (link_init radio [] link_role_portal) events
        ≡ Refine.hellos radio (SharedLink.link_init radio [] link_role_portal) events)
    × (link_send l (1 ∷ []) ≡ SharedLink.link_send d (1 ∷ []))
forget-run_example = forget-run radio (fifo RxItem) [] link_role_portal events (1 ∷ [])

worker_calls-sublist_example :
    (q : List RxItem) × IsRunning
      (run radio (fifo RxItem) (link_init radio [] link_role_portal) events)
      q
    × Sublist
        (worker_calls radio (fifo RxItem) (link_init radio [] link_role_portal) events
          ++ map bytes_of q)
        (calls radio (SharedLink.link_init radio [] link_role_portal) events)
worker_calls-sublist_example = worker_calls-sublist radio (fifo RxItem) [] link_role_portal events
