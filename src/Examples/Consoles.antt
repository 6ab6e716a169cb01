-- ===== src/Examples/Consoles.antt =====
-- The console's side at concrete states and messages.
use wireless_skyportal_conne.Prelude.{
  map, leb, ℕ, zero, suc, ◌+◌, ◌<◌, ◌≤◌, ◌≡◌, refl, arith, Bool, true, false, List, [], ◌∷◌, ◌++◌,
  if◌then◌else◌, length, take, replicate, some, pos,
}
use wireless_skyportal_conne.Rtos.{fifo}
use wireless_skyportal_conne.Frame.{
  hdr_init, hdr_at, tunnel_bytes, link_t_tun_in, ack_bytes, link_t_ack, link_ok,
}
use wireless_skyportal_conne.Portal.{tunnel_host_send, link_send, on_portal_in}
use wireless_skyportal_conne.Console.{
  Console, Item, Apis, start, on_tun_in, on_link_recv, set_report, is_tag_write, on_mount,
}
use wireless_skyportal_conne.Console.Log.{dlog, lost_text}
use wireless_skyportal_conne.Console.Writer.{given, write_round, Tried, write_round_lem}
use wireless_skyportal_conne.Console.Tunnel.{
  HasBuffers, waiting, with_newest, answers, on_tun_in_lem,
}
use wireless_skyportal_conne.Console.Status.{Readings}
use wireless_skyportal_conne.Console.Live.{
  Attempt, arrivals, empty_sem, await_ack, attempt, live_loop,
}
use wireless_skyportal_conne.Console.Arrivals.{Acks}
use wireless_skyportal_conne.Console.Acked.{live_loop-Acks}
use wireless_skyportal_conne.Console.Sender.{Tud, AreCalls, tx_round, tx_round_lem}
use wireless_skyportal_conne.Display.{char_of, display_text}
use wireless_skyportal_conne.Console.Task.{testing}
use wireless_skyportal_conne.Console.Turns.{Ends, testing-Ends}
use wireless_skyportal_conne.Display.Text.{Fits, display_text_lem}
use wireless_skyportal_conne.Console.Host.{answer_to_ready, answer_to_activate}
use wireless_skyportal_conne.Console.Events.{Event, from_link, from_host, tx_takes, run}
use wireless_skyportal_conne.Console.Quiet.{IsQuiet}
use wireless_skyportal_conne.Console.Gate.{run-on_mount}
use wireless_skyportal_conne.System.Tunnel.{delivered, set_report_delivers, on_portal_in_delivers}
use wireless_skyportal_conne.System.Write.{Fate, frame_lost, ack_lost, through}

abbrev apis : Apis
apis = record { items = fifo Item; sem = fifo (Unit {0}) }

abbrev junk : List ℕ
junk = replicate 64 0

abbrev colour : List ℕ
colour = 0x43 ∷ 255 ∷ 128 ∷ 0 ∷ []

abbrev ready_reply : List ℕ
ready_reply = 0x52 ∷ 2 ∷ 27 ∷ []

abbrev activate_reply : List ℕ
activate_reply = 0x41 ∷ 1 ∷ 255 ∷ 119 ∷ []

abbrev status_report : List ℕ
status_report = 0x53 ∷ 1 ∷ 0 ∷ 0 ∷ 0 ∷ 9 ∷ []

abbrev block_reply : List ℕ
block_reply = 0x51 ∷ 16 ∷ 1 ∷ replicate 16 7

abbrev tag_write : List ℕ
tag_write = 0x57 ∷ 16 ∷ 8 ∷ replicate 16 3

start-HasBuffers : HasBuffers start
start-HasBuffers = record { ready = refl; act = refl; queue = omega arith }

set_report_delivers_example :
    delivered
      (fifo (List ℕ))
      wireless_skyportal_conne.Portal.start
      5
      (1 ∷ 2 ∷ [])
      (set_report apis start junk 0 colour).1
    ≡ tunnel_host_send (some colour) ∷ []
unfolding is_tag_write
set_report_delivers_example =
    set_report_delivers apis (fifo (List ℕ)) start wireless_skyportal_conne.Portal.start junk
      (1 ∷ 2 ∷ []) 5 0 colour (omega arith) (omega arith) refl

on_portal_in_delivers_example :
    (frame : List ℕ) × ((on_portal_in wireless_skyportal_conne.Portal.start ready_reply).1
      ≡ link_send frame ∷ [])
    × (let s' =
          wireless_skyportal_conne.Console.on_link_recv apis start junk
            (hdr_at (frame ++ 4 ∷ [])).type
            (frame ++ 4 ∷ [])
            (length frame) in
        (waiting s' ≡ []) × (answers s' ≡ (ready_reply, take start.act_len start.act_resp)))
on_portal_in_delivers_example =
    on_portal_in_delivers apis start wireless_skyportal_conne.Portal.start junk (4 ∷ []) ready_reply
      start-HasBuffers (omega arith) (omega arith)

abbrev a_write : Item
a_write = record { len = 19; bytes = tag_write ++ replicate 45 0 }

abbrev some_fates : ℕ → Fate
some_fates zero = frame_lost
some_fates (suc zero) = ack_lost
some_fates (suc (suc k)) = through

write_round_lem_example :
    (acked : Bool) × Tried
      (λ k. given k)
      6
      0
      1
      a_write
      (write_round start a_write (λ k. given k) 9).1
      acked
    × ((write_round start a_write (λ k. given k) 9).0 ≡ (
        let s' = record start { write_seq = 2; writes = 1; last_write_ms = 9 } in
        if acked then s' else dlog s' (lost_text 1)))
write_round_lem_example = write_round_lem start a_write (λ k. given k) 9

run-on_mount_example : IsQuiet (
    run apis (on_mount apis start) (
      from_link junk link_t_tun_in (tunnel_bytes (hdr_init link_t_tun_in 0) 6 status_report) 13
      ∷ from_host junk 0 (0x52 ∷ [])
      ∷ tx_takes
      ∷ from_host junk 0 (0x41 ∷ 0 ∷ [])
      ∷ []))
run-on_mount_example =
    run-on_mount apis start
      (from_link junk link_t_tun_in (tunnel_bytes (hdr_init link_t_tun_in 0) 6 status_report) 13
        ∷ from_host junk 0 (0x52 ∷ [])
        ∷ tx_takes
        ∷ from_host junk 0 (0x41 ∷ 0 ∷ [])
        ∷ [])
      (record { ready = refl; act = refl }) (refl, (refl, (refl, (refl, tt))))

on_tun_in_lem_example :
    let s' = on_tun_in apis start junk block_reply in
    (waiting s' ≡ block_reply ∷ []) × (answers s' ≡ answers start)
on_tun_in_lem_example =
    on_tun_in_lem apis start junk block_reply start-HasBuffers (omega arith) (omega arith)

-- A block comes in, and the console's Ready and Activate are answered.
abbrev meanwhile : List Event
meanwhile =
    from_link junk link_t_tun_in (tunnel_bytes (hdr_init link_t_tun_in 0) 19 block_reply) 26
    ∷ from_host junk 0 (0x52 ∷ [])
    ∷ from_host junk 0 (0x41 ∷ 1 ∷ [])
    ∷ tx_takes
    ∷ []

answer_to_ready_example :
    let s' = run apis (on_tun_in apis start junk ready_reply) meanwhile in
    waiting (set_report apis s' junk 0 (0x52 ∷ [])).0 ≡ with_newest (waiting s') ready_reply
answer_to_ready_example =
    answer_to_ready apis start junk junk ready_reply meanwhile 0 (0x52 ∷ []) start-HasBuffers
      (omega arith) (omega arith) refl (refl, (refl, (refl, (refl, tt)))) (omega arith)
      (omega arith) refl

answer_to_activate_example :
    let s' = run apis (on_tun_in apis start junk activate_reply) meanwhile in
    let s'' = (set_report apis s' junk 0 (0x41 ∷ 0 ∷ [])).0 in
    (waiting s'' ≡ with_newest (waiting s') (0x41 ∷ 0 ∷ 255 ∷ 119 ∷ []))
    × (s''.console_active ≡ false)
answer_to_activate_example =
    answer_to_activate apis start junk junk activate_reply meanwhile 0 (0x41 ∷ 0 ∷ [])
      start-HasBuffers (omega arith) (omega arith) refl (refl, (refl, (refl, (refl, tt))))
      (omega arith) (omega arith) refl

-- Ready from the fourth millisecond on, and the first call is refused.
abbrev usb : Tud
usb = record { mounted = λ t. true; hid_ready = λ t. leb 4 t; takes = λ t. leb 5 t }

tx_round_lem_example : AreCalls usb 0 154 (tx_round usb 0) × (length (tx_round usb 0) ≤ 3)
tx_round_lem_example = tx_round_lem usb 0

display_text_lem_example :
    (map char_of (display_text 140 8 (b'a' ∷ b'b' ∷ b'c' ∷ [])) ≡ b'a' ∷ b'b' ∷ [])
    × Fits (display_text 140 8 (b'a' ∷ b'b' ∷ b'c' ∷ []))
display_text_lem_example = display_text_lem 140 8 (b'a' ∷ b'b' ∷ b'c' ∷ []) (omega arith)

-- The link has come up, and everything else is as at the start.
abbrev link_up : Readings
link_up = record { link = true; rssi = pos 0; mnt = false; now = 5 }

-- Two attempts: nothing arrives in the first one, and the ACK in the second.
abbrev late_ack : ℕ → Attempt
late_ack zero = record { before = []; during = []; after = [] }
late_ack (suc k) = record {
  before = [];
  during =
      record {
        junk = junk;
        type = link_t_ack;
        bytes = ack_bytes (hdr_init link_t_ack 0) 1 link_ok;
        len = 9;
      }
      ∷ [];
  after = [];
}

live_loop-Acks_example :
    (j : ℕ) × (j < 6) × Acks 1 ((late_ack (0 + j)).during ++ (late_ack (0 + j)).after)
unfolding live_loop attempt await_ack empty_sem arrivals on_link_recv
live_loop-Acks_example = live_loop-Acks apis late_ack 6 0 1 a_write start (omega arith) refl

abbrev stale : ℕ → Console
stale k = record start { ack_sem = tt ∷ []; acked_seq = 9 }

-- ACKs of another write come all the time.
testing-Ends_example :
    Ends apis stale
      (λ k. k)
      0
      (record { seq = 1; item = a_write })
      26
      6
      (testing (record { seq = 1; item = a_write }) 6)
testing-Ends_example = testing-Ends apis stale (λ k. k) 0 (record { seq = 1; item = a_write }) 6
