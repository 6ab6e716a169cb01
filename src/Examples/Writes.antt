-- ===== src/Examples/Writes.antt =====
-- Both boards together at a concrete run: the console writes a block, with and without a portal plugged in.
use wireless_skyportal_conne.Prelude.{
  ◌++◌, ◌≡◌, refl, arith, List, [], ◌∷◌, replicate, none, All, overwrite, pos, length, ◌≤◌,
}
use wireless_skyportal_conne.Rtos.{push_newest}
use wireless_skyportal_conne.Frame.{
  tunnel_payload, ack_bytes, hdr_init, link_t_ack, link_ok, tunnel_bytes, link_t_tun_write,
}
use wireless_skyportal_conne.Link.{RxItem}
use wireless_skyportal_conne.Link
use wireless_skyportal_conne.Portal
use wireless_skyportal_conne.Portal.{on_portal_in}
use wireless_skyportal_conne.Console
use wireless_skyportal_conne.Console.{Item}
use wireless_skyportal_conne.Console.Writer.{write_frame}
use wireless_skyportal_conne.Console.Task.{write_step}
use wireless_skyportal_conne.System.Hand.{Delivered}
use wireless_skyportal_conne.System.Delivery.{run-Delivered}
use wireless_skyportal_conne.System.Progress.{Can}
use wireless_skyportal_conne.TunnelHost
use wireless_skyportal_conne.TunnelHost.{input_report}
use wireless_skyportal_conne.System.Plugged.{StaysPlugged, Pairwise, Reaches, plugged, run-Reaches}
use wireless_skyportal_conne.System.Unplugged.{ack-failed}
use wireless_skyportal_conne.System.Reached.{Arrived, run-Arrived}
use wireless_skyportal_conne.System.Deliverable.{IsConfirmed, run-Can}
use wireless_skyportal_conne.System.World.{
  step, console_gets, portal_gets, Event, World, console_commands, reaches_console, reaches_portal,
  console_works, portal_works, console_writes, console_beats, portal_beats, run, start,
}
use wireless_skyportal_conne.System.Sends.{failed}
use wireless_skyportal_conne.Console.Live.{empty_sem}
use wireless_skyportal_conne.Examples.Worlds.{env, junk, mac, tag_write}

-- That write in the queue of the task.
abbrev waiting_write : Item
waiting_write = record { len = 19; bytes = tag_write ++ replicate 45 0 }

-- The ACK arrives, and the task reads its number.
abbrev confirms : List Event
confirms =
    portal_beats 3
    ∷ reaches_console 0 4 mac none junk
    ∷ console_beats 5
    ∷ reaches_portal 0 6 mac none junk
    ∷ portal_works 7
    ∷ console_commands (replicate 64 0) 0 tag_write
    ∷ console_writes 8
    ∷ console_writes 8
    ∷ console_writes 8
    ∷ reaches_portal 0 9 mac none junk
    ∷ portal_works 10
    ∷ reaches_console 0 11 mac none junk
    ∷ console_works junk
    ∷ console_works junk
    ∷ console_writes 12
    ∷ console_writes 12
    ∷ []

write_confirmed :
    (run env (start env []) confirms).acked ≡ record { seq = 1; item = waiting_write } ∷ []
unfolding run step Link.link_init Link.add_peer Link.link_task Link.expire Link.recv_cb
    Link.recv_valid Link.bookkeeping Link.on_hello Link.enqueue Link.rx_task Link.link_send
    push_newest overwrite portal_gets console_gets Console.set_report Console.is_tag_write
    Console.on_link_recv write_step empty_sem write_frame Portal.on_link_recv Portal.on_write
    Portal.backup_first tunnel_payload
write_confirmed = refl

few_begun : length (run env (start env []) confirms).begun ≤ 65535
unfolding run step Link.link_init Link.add_peer Link.link_task Link.expire Link.recv_cb
    Link.recv_valid Link.bookkeeping Link.on_hello Link.enqueue Link.rx_task Link.link_send
    push_newest overwrite portal_gets console_gets Console.set_report Console.is_tag_write
    Console.on_link_recv write_step empty_sem write_frame Portal.on_link_recv Portal.on_write
    Portal.backup_first tunnel_payload
few_begun = omega arith

run-Delivered_example :
    let w = run env (start env []) confirms in All (Delivered w.commanded w.transferred) w.acked
run-Delivered_example = run-Delivered env [] confirms few_begun

few_begun_plugged : length (run env (plugged env [] 7) confirms).begun ≤ 65535
unfolding run step TunnelHost.step TunnelHost.iface_cb TunnelHost.device_cb Link.link_init
    Link.add_peer Link.link_task Link.expire Link.recv_cb Link.recv_valid Link.bookkeeping
    Link.on_hello Link.enqueue Link.rx_task Link.link_send push_newest overwrite portal_gets
    console_gets Console.set_report Console.is_tag_write Console.on_link_recv write_step empty_sem
    write_frame Portal.on_link_recv Portal.on_write Portal.backup_first tunnel_payload
few_begun_plugged = omega arith

stays_plugged : StaysPlugged confirms
stays_plugged = omega arith

run-Reaches_example :
    let w = run env (plugged env [] 7) confirms in Pairwise Reaches w.transferred w.outcomes
run-Reaches_example = run-Reaches env [] 7 confirms stays_plugged

run-Arrived_example :
    let w = run env (plugged env [] 7) confirms in All (Arrived w.commanded w.outcomes) w.acked
run-Arrived_example = run-Arrived env [] 7 confirms stays_plugged few_begun_plugged

-- A write waits at the portal's side, which has no portal.
abbrev arrives : List Event
arrives =
    portal_beats 3
    ∷ reaches_console 0 4 mac none junk
    ∷ console_beats 5
    ∷ reaches_portal 0 6 mac none junk
    ∷ portal_works 7
    ∷ console_commands (replicate 64 0) 0 tag_write
    ∷ console_writes 8
    ∷ console_writes 8
    ∷ console_writes 8
    ∷ reaches_portal 0 9 mac none junk
    ∷ []

abbrev arrived : World env.nvs.Store
arrived = run env (start env []) arrives

abbrev arrived_item : RxItem
arrived_item = record {
  len = 26;
  rssi = pos 0;
  bytes =
      tunnel_bytes (hdr_init link_t_tun_write 1) (length tag_write) tag_write ++ replicate 224 0;
}

ack-failed_example :
    let w' = step env arrived (portal_works 0) in
    (w'.outcomes ≡ failed ∷ arrived.outcomes)
    × (w'.to_console ≡ ack_bytes (hdr_init link_t_ack 0) 1 link_ok ∷ arrived.to_console)
unfolding run step Link.link_init Link.add_peer Link.link_task Link.expire Link.recv_cb
    Link.recv_valid Link.bookkeeping Link.on_hello Link.enqueue Link.rx_task Link.link_send
    push_newest overwrite portal_gets Console.set_report Console.is_tag_write write_step empty_sem
    write_frame Portal.on_link_recv
ack-failed_example =
    ack-failed env arrived arrived_item [] 1 tag_write (replicate 224 0) refl refl
      (record { handler = refl; rx_q = refl; size = omega arith }) refl (omega arith) (omega arith)

-- Linked boards, and two writes that wait.
abbrev waits : List Event
waits =
    portal_beats 3
    ∷ reaches_console 0 4 mac none junk
    ∷ console_beats 5
    ∷ reaches_portal 0 6 mac none junk
    ∷ console_commands (replicate 64 0) 0 tag_write
    ∷ console_commands (replicate 64 0) 0 tag_write
    ∷ []

run-Can_example : Can env (IsConfirmed waiting_write) (run env (start env []) waits)
unfolding run step Link.link_init Link.add_peer Link.link_task Link.expire Link.recv_cb
    Link.recv_valid Link.bookkeeping Link.on_hello Link.enqueue push_newest overwrite
    Console.set_report Console.is_tag_write
run-Can_example = run-Can env [] waits (waiting_write ∷ []) [] waiting_write refl refl refl
