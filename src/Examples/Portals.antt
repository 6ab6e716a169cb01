-- ===== src/Examples/Portals.antt =====
-- The portal's side at concrete states and messages.
use wireless_skyportal_conne.Prelude.{
  ℕ, ◌*◌, ◌≤◌, ◌≡◌, refl, arith, Bool, true, false, List, [], ◌∷◌, set, slice, replicate,
  length-replicate, none, some,
}
use wireless_skyportal_conne.Rtos.{fifo}
use wireless_skyportal_conne.Nvs.{assoc_store, full_store, found_saved}
use wireless_skyportal_conne.Frame.{
  hdr_init, tunnel_bytes, ack_bytes, link_t_tun_write, link_t_tun_out, link_t_tun_outep, link_t_ack,
  link_ok,
}
use wireless_skyportal_conne.Portal.{
  Portal, start, link_send, tunnel_host_send, tunnel_host_send_out, on_link_recv, snooped_at,
  uid_key,
}
use wireless_skyportal_conne.Portal.Snoop.{
  block_at, snoop_all, last_read, start-HasImages, block-snoop_all,
}
use wireless_skyportal_conne.Portal.Deliver.{on_link_recv_overreads}
use wireless_skyportal_conne.Portal.Backup.{first_write_lem}
use wireless_skyportal_conne.Portal.Flash.{do_restore, backup_round}
use wireless_skyportal_conne.Portal.Boot.{flash_start, do_restore-flash_start}
use wireless_skyportal_conne.Portal.Restore.{IsLowest, after_calls, do_restore_lem}
use wireless_skyportal_conne.Portal.Roundtrip.{do_restore-backup_round}
use wireless_skyportal_conne.Portal.Button.{button_task, restores, falls, held, button_task_once}
use wireless_skyportal_conne.TunnelHost.{
  started, connected, disconnected, input_report, run, tunnel_host_connected, set_report,
  output_report, on_in, close, sends-run,
}

-- A figure in slot 0.
abbrev occupied : Portal
occupied = record start { present = 1 }

abbrev queue_of_images : List (List ℕ)
queue_of_images = []

slot_0-IsLowest : IsLowest 1 0
slot_0-IsLowest = record {
  in_range = omega arith;
  there = refl;
  below = λ s h. absurd (omega arith);
}

abbrev old_image : List ℕ
old_image = replicate 1024 9

abbrev figure : List ℕ
figure = replicate 1024 7

do_restore_lem_example :
    slice
      (after_calls 0 figure
        (do_restore assoc_store occupied ((uid_key (snooped_at occupied 0), old_image) ∷ [])).1)
      (5 * 16)
      16
    ≡ slice old_image (5 * 16) 16
do_restore_lem_example =
    do_restore_lem assoc_store occupied ((uid_key (snooped_at occupied 0), old_image) ∷ []) 0
      old_image figure 5 slot_0-IsLowest refl
      (found_saved [] (uid_key (snooped_at occupied 0)) old_image 1024 refl
        (omega (arith, length-replicate {A = ℕ} 1024 9)))
      (length-replicate {A = ℕ} 1024 0) (length-replicate {A = ℕ} 1024 9)
      (length-replicate {A = ℕ} 1024 7) (omega arith)

abbrev blank_image : List ℕ
blank_image = replicate 1024 0

do_restore-backup_round_example :
    slice
      (after_calls 0 figure
        (do_restore assoc_store occupied
          (backup_round assoc_store
            (fifo (List ℕ))
            (record occupied { bak_q = some (blank_image ∷ []) })
            []).1).1)
      (5 * 16)
      16
    ≡ slice blank_image (5 * 16) 16
do_restore-backup_round_example =
    do_restore-backup_round assoc_store (fifo (List ℕ))
      (record occupied { bak_q = some (blank_image ∷ []) }) occupied [] 0 blank_image [] figure 5
      refl refl refl (length-replicate {A = ℕ} 1024 0) slot_0-IsLowest refl
      (length-replicate {A = ℕ} 1024 0) (length-replicate {A = ℕ} 1024 7) (omega arith)

abbrev block_reply : List ℕ
block_reply = 0x51 ∷ 16 ∷ 2 ∷ replicate 16 7

block-snoop_all_example :
    block_at (snoop_all start (block_reply ∷ [])) 0 2
    ≡ last_read (block_reply ∷ []) 0 2 (block_at start 0 2)
block-snoop_all_example =
    block-snoop_all (block_reply ∷ []) start 0 2 start-HasImages (omega arith) (omega arith)

abbrev status_report : List ℕ
status_report = 0x53 ∷ 1 ∷ 4 ∷ 0 ∷ 0 ∷ 9 ∷ []

abbrev tag_write : List ℕ
tag_write = 0x57 ∷ 16 ∷ 8 ∷ replicate 16 3

abbrev a_write_frame : List ℕ
a_write_frame = tunnel_bytes (hdr_init link_t_tun_write 3) 19 tag_write

first_write_lem_example :
    (on_link_recv (fifo (List ℕ)) occupied 70 link_t_tun_write a_write_frame).0 ≡ record occupied {
      last_write_ms = 70;
      bak_q = some (snooped_at occupied 0 ∷ []);
      backed_up = set occupied.backed_up 0 true;
    }
first_write_lem_example =
    first_write_lem (fifo (List ℕ)) occupied 70 a_write_frame [] (omega arith) refl refl refl

-- A frame of 250 bytes whose length byte is 255.
abbrev long_frame : List ℕ
long_frame = tunnel_bytes (hdr_init link_t_tun_out 0) 255 (replicate 243 0)

on_link_recv_overreads_example :
    ((on_link_recv (fifo (List ℕ)) start 5 link_t_tun_out long_frame).1
      ≡ tunnel_host_send none ∷ [])
    × ((on_link_recv (fifo (List ℕ)) start 5 link_t_tun_outep long_frame).1
        ≡ tunnel_host_send_out none ∷ [])
    × ((on_link_recv (fifo (List ℕ)) start 5 link_t_tun_write long_frame).1
        ≡ tunnel_host_send none ∷ link_send (ack_bytes (hdr_init link_t_ack 0) 0 link_ok) ∷ [])
on_link_recv_overreads_example =
    on_link_recv_overreads (fifo (List ℕ)) start 5 long_frame refl (omega arith)

abbrev tag : List ℕ
tag = 1 ∷ 2 ∷ 3 ∷ 4 ∷ 5 ∷ []

abbrev same_tag : List ℕ
same_tag = 1 ∷ 2 ∷ 3 ∷ 4 ∷ 6 ∷ []

-- The button goes down, bounces, and is held.
abbrev levels : List (Bool × Bool)
levels = (true, true) ∷ (false, false) ∷ (false, false) ∷ []

button_task_once_example :
    (restores (button_task true levels) ≤ falls true levels)
    × (restores (button_task false (held levels)) ≡ 0)
button_task_once_example = button_task_once true levels

sends-run_example :
    let s = (run (started true) (connected 3 true true ∷ connected 4 true true ∷ [])).0 in
    (wireless_skyportal_conne.TunnelHost.tunnel_host_send s tag_write
      ≡ some (set_report 4 tag_write))
    × (wireless_skyportal_conne.TunnelHost.tunnel_host_send_out s tag_write
        ≡ some (output_report 4 tag_write))
    × (tunnel_host_connected s ≡ true)
sends-run_example = sends-run true (connected 3 true true ∷ connected 4 true true ∷ []) tag_write

-- The backup of the figure in slot 0 is there, and the flash has no free pages when the board starts.
do_restore-flash_start_example :
    (do_restore full_store occupied
      (flash_start full_store ((uid_key (snooped_at occupied 0), replicate 1024 7) ∷ []))).1
    ≡ []
do_restore-flash_start_example =
    do_restore-flash_start full_store occupied
      ((uid_key (snooped_at occupied 0), replicate 1024 7) ∷ []) refl
