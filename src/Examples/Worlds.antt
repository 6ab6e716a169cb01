-- ===== src/Examples/Worlds.antt =====
-- Both boards together at a concrete run: they pair, the portal reports a block, the console writes one.
use wireless_skyportal_conne.Prelude.{
  ℕ, ◌≡◌, refl, arith, true, false, List, [], ◌∷◌, replicate, none, some, All, overwrite, length,
}
use wireless_skyportal_conne.Rtos.{fifo, push_newest}
use wireless_skyportal_conne.Frame.{
  tunnel_payload, ack_bytes, hello_bytes, hdr_init, link_t_ack, link_t_hello, link_ok,
  link_role_portal,
}
use wireless_skyportal_conne.Nvs.{assoc_store}
use wireless_skyportal_conne.Link.{RxItem}
use wireless_skyportal_conne.Link
use wireless_skyportal_conne.Portal
use wireless_skyportal_conne.Portal.{on_portal_in}
use wireless_skyportal_conne.Sky.{status_slots}
use wireless_skyportal_conne.Portal.Boot.{flash_start}
use wireless_skyportal_conne.Portal.Flash.{do_restore, first_present, restore_slot, restore_loop}
use wireless_skyportal_conne.Console
use wireless_skyportal_conne.Console.{Item}
use wireless_skyportal_conne.Console.Sender.{Tud}
use wireless_skyportal_conne.Console.Tunnel.{waiting}
use wireless_skyportal_conne.Console.Writer.{write_frame}
use wireless_skyportal_conne.Console.Task.{write_step}
use wireless_skyportal_conne.TunnelHost
use wireless_skyportal_conne.TunnelHost.{input_report}
use wireless_skyportal_conne.System.World.{
  console_polls, step, console_gets, portal_gets, portal_reports, Env, Event, usb, console_commands,
  reaches_console, reaches_portal, console_works, portal_works, console_writes, console_beats,
  portal_beats, portal_restores, run, start,
}
use wireless_skyportal_conne.System.Shown.{Shown}
use wireless_skyportal_conne.System.Honest.{run-Shown}
use wireless_skyportal_conne.System.Up.{Sent}
use wireless_skyportal_conne.Console.Live.{empty_sem}
use wireless_skyportal_conne.System.Answers.{InOrder}
use wireless_skyportal_conne.System.Acks.{run-InOrder}
use wireless_skyportal_conne.System.Sent.{run-Sent}

abbrev pub env : Env
env = record {
  radio = record { is_peer_exist = λ peers mac. false; add = λ peers mac. mac ∷ peers };
  rx = fifo RxItem;
  console = record { items = fifo Item; sem = fifo (Unit {0}) };
  backups = fifo (List ℕ);
  nvs = assoc_store;
}

abbrev pub junk : List ℕ
junk = replicate 250 0

abbrev pub mac : List ℕ
mac = 2 ∷ 0 ∷ 0 ∷ 0 ∷ 0 ∷ 7 ∷ []

abbrev block_reply : List ℕ
block_reply = 0x51 ∷ 16 ∷ 1 ∷ replicate 16 7

abbrev status_report : List ℕ
status_report = 0x53 ∷ 3 ∷ 0 ∷ 0 ∷ 0 ∷ 9 ∷ []

abbrev pub tag_write : List ℕ
tag_write = 0x57 ∷ 16 ∷ 8 ∷ replicate 16 3

-- The games console is ready for every report.
abbrev ready_tud : Tud
ready_tud = record { mounted = λ t. true; hid_ready = λ t. true; takes = λ t. true }

-- Each board hears a HELLO of the other before it sends.
abbrev shows : List Event
shows =
    console_beats 1
    ∷ reaches_portal 0 2 mac none junk
    ∷ usb (input_report (some block_reply))
    ∷ reaches_console 0 6 mac none junk
    ∷ console_works junk
    ∷ usb (input_report (some block_reply))
    ∷ reaches_console 0 8 mac none junk
    ∷ console_works junk
    ∷ console_polls ready_tud 10
    ∷ []

run-Shown_example :
    let w = run env (start env []) shows in
    All (Shown w.commanded w.reported) w.shown
    × All (Shown w.commanded w.reported) (waiting w.console)
run-Shown_example =
    run-Shown env [] shows
      (tt, (tt, (omega arith, (tt, (tt, (omega arith, (tt, (tt, (tt, tt)))))))))

abbrev writes : List Event
writes =
    portal_beats 3
    ∷ reaches_console 0 4 mac none junk
    ∷ console_commands junk 0 tag_write
    ∷ console_writes 7
    ∷ console_writes 7
    ∷ console_writes 7
    ∷ reaches_portal 0 8 mac none junk
    ∷ portal_works 9
    ∷ []

-- A figure comes to slot 0 and its backup is restored, before all that.
abbrev restores : List Event
restores = usb (input_report (some status_report)) ∷ portal_restores ∷ writes

abbrev backups : List (List ℕ × List ℕ)
backups = (Portal.uid_key (Portal.snooped_at Portal.start 0), replicate 1024 9) ∷ []

run-Sent_example :
    let w = run env (start env backups) restores in All (Sent w.commanded w.pressed) w.transferred
run-Sent_example = run-Sent env backups restores

-- Its start.
abbrev reports : List Event
reports =
    console_beats 1
    ∷ reaches_portal 0 2 mac none junk
    ∷ usb (input_report (some block_reply))
    ∷ reaches_console 0 6 mac none junk
    ∷ console_works junk
    ∷ []

block_shown : waiting (run env (start env []) reports).console ≡ block_reply ∷ []
unfolding run step portal_reports TunnelHost.step TunnelHost.iface_cb Link.link_init Link.add_peer
    Link.link_task Link.expire Link.recv_cb Link.recv_valid Link.bookkeeping Link.on_hello
    Link.enqueue Link.rx_task Link.link_send push_newest overwrite on_portal_in console_gets
    Console.on_link_recv Console.on_tun_in Console.push_in Console.snoop_in
block_shown = refl

write_sent : (run env (start env []) writes).transferred ≡ some tag_write ∷ []
unfolding run step Link.link_init Link.add_peer Link.link_task Link.expire Link.recv_cb
    Link.recv_valid Link.bookkeeping Link.on_hello Link.enqueue Link.rx_task Link.link_send
    push_newest overwrite portal_gets Console.set_report Console.is_tag_write write_step empty_sem
    write_frame Portal.on_link_recv Portal.on_write Portal.backup_first tunnel_payload
write_sent = refl

restored :
    length
      (run env
        (start env backups)
        (usb (input_report (some status_report)) ∷ portal_restores ∷ [])).transferred
    ≡ 63
unfolding run step portal_reports TunnelHost.step TunnelHost.iface_cb Link.link_init Link.add_peer
    Link.link_send on_portal_in Portal.snoop Portal.snoop_status Portal.mask_loop Portal.clear_gone
    flash_start do_restore first_present restore_slot restore_loop Portal.uid_key Portal.hex_byte
    Portal.hex_digit overwrite status_slots
restored = refl

-- The console's write goes out, arrives, and is acknowledged.
abbrev acknowledges : List Event
acknowledges =
    portal_beats 3
    ∷ reaches_console 0 4 mac none junk
    ∷ console_beats 5
    ∷ reaches_portal 0 6 mac none junk
    ∷ portal_works 7
    ∷ console_commands junk 0 tag_write
    ∷ console_writes 8
    ∷ console_writes 8
    ∷ console_writes 8
    ∷ reaches_portal 0 9 mac none junk
    ∷ portal_works 10
    ∷ []

run-InOrder_example :
    let w = run env (start env []) acknowledges in All (InOrder w.to_portal w.calls) w.to_console
run-InOrder_example = run-InOrder env [] acknowledges

write_acknowledged :
    (run env (start env []) acknowledges).to_console
    ≡ ack_bytes (hdr_init link_t_ack 0) 1 link_ok
      ∷ hello_bytes (hdr_init link_t_hello 0) link_role_portal 1 0
      ∷ []
unfolding run step Link.link_init Link.add_peer Link.link_task Link.expire Link.recv_cb
    Link.recv_valid Link.bookkeeping Link.on_hello Link.enqueue Link.rx_task Link.link_send
    push_newest overwrite portal_gets Console.set_report Console.is_tag_write write_step empty_sem
    write_frame Portal.on_link_recv Portal.on_write Portal.backup_first tunnel_payload
write_acknowledged = refl
