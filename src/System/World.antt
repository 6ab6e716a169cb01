-- ===== src/System/World.antt =====
-- The two boards, the radio between them, the real portal and the console: one step of any of them at a
-- time, in any order. The radio may lose, repeat, delay and reorder frames, and carries only the boards'.
use wireless_skyportal_conne.Prelude.{
  ℕ, ◌≤◌, true, if◌then◌else◌, List, [], ◌∷◌, ◌++◌, Option, none, some, length, ℤ,
}
use wireless_skyportal_conne.Frame.{hdr_at, link_role_portal, link_role_console}
use wireless_skyportal_conne.Rtos.{QueueApi}
use wireless_skyportal_conne.Link.{Link, RxItem, Arrival, PeerApi, link_init}
use wireless_skyportal_conne.Link
use wireless_skyportal_conne.Portal.{
  Portal, Call, link_send, tunnel_host_send, tunnel_host_send_out, on_portal_in,
}
use wireless_skyportal_conne.Portal
use wireless_skyportal_conne.Portal.Boot.{flash_start}
use wireless_skyportal_conne.Portal.Flash.{backup_round, do_restore}
use wireless_skyportal_conne.TunnelHost.{Host, set_report, output_report, on_in, close}
use wireless_skyportal_conne.TunnelHost
use wireless_skyportal_conne.Nvs.{NvsApi}
use wireless_skyportal_conne.Console.{Console, Item, Apis, contents, on_mount}
use wireless_skyportal_conne.Console
use wireless_skyportal_conne.Console.Sender.{Tud, tx_round, took}
use wireless_skyportal_conne.Console.Task.{Pc, Write, write_step, idle}
use wireless_skyportal_conne.System.Press.{Press, press_of}
use wireless_skyportal_conne.System.Sends.{
  frame_at, send_all, frames_of, transfers_of, report_of, outcomes_of, newest_first, arrival,
  Outcome,
}

-- The calls of the libraries on both boards.
pub record Env : Type 1 where
  pub radio : PeerApi
  pub rx : QueueApi RxItem
  pub console : Apis
  pub backups : QueueApi (List ℕ)
  pub nvs : NvsApi

-- The state of both boards and the flash of the portal's side, the frames that each board has sent, and
-- the histories: the reports of the real portal, those that the
-- games console has taken, those that it has made, the bytes handed over for the
-- real portal, `none` for those past the end of their buffer, the writes that `write_task` has taken in
-- hand, those that it has found acknowledged, the presses of the button, and the calls of the portal's side, in their order; `outcomes` says, place by place, what came of the bytes
-- in `transferred`. What a step adds stands before the rest. `writer` is
-- where `write_task` stands.
pub record World (S : Type 0) : Type 0 where
  pub host : Host
  pub portal : Portal
  pub portal_link : Link
  pub store : S
  pub console : Console
  pub writer : Pc
  pub console_link : Link
  pub to_console : List (List ℕ)
  pub to_portal : List (List ℕ)
  pub reported : List (List ℕ)
  pub shown : List (List ℕ)
  pub commanded : List (List ℕ)
  pub transferred : List (Option (List ℕ))
  pub outcomes : List Outcome
  pub begun : List Write
  pub acked : List Write
  pub pressed : List Press
  pub calls : List Call

-- `i` is the place of the frame that arrives in the list of those sent; `junk` is the stack's contents.
pub data Event : Type 0 where
  usb : (e : TunnelHost.Event) → Event
  console_commands : (junk : List ℕ) (report_id : ℕ) (buffer : List ℕ) → Event
  reaches_console : (i now : ℕ) (mac : List ℕ) (strength : Option ℤ) (junk : List ℕ) → Event
  reaches_portal : (i now : ℕ) (mac : List ℕ) (strength : Option ℤ) (junk : List ℕ) → Event
  console_works : (junk : List ℕ) → Event
  portal_works : (now : ℕ) → Event
  console_polls : (tud : Tud) (t : ℕ) → Event
  console_writes : (now : ℕ) → Event
  console_mounts : Event
  console_beats : (now : ℕ) → Event
  portal_beats : (now : ℕ) → Event
  portal_backs_up : Event
  portal_restores : Event

-- What the HID driver grants: it reads 64 bytes at most, the room that it is given.
abbrev pub IsRead : TunnelHost.Event → Type 0
IsRead (TunnelHost.Event.input_report (some report)) = length report ≤ 64
IsRead e = Unit {0}

abbrev pub IsPossible : Event → Type 0
IsPossible (usb e) = IsRead e
IsPossible e = Unit {0}

abbrev pub ArePossible : List Event → Type 0
ArePossible [] = Unit {0}
ArePossible (e ∷ es) = IsPossible e × ArePossible es

-- A frame that `rx_task` hands to the handler of its board.
unfoldable pub console_gets : {S : Type 0} → Apis → World S → List ℕ → RxItem → World S
console_gets apis w junk item = record w {
  console = Console.on_link_recv apis w.console junk (hdr_at item.bytes).type item.bytes item.len;
}

unfoldable pub portal_gets : {S : Type 0} → QueueApi (List ℕ) → World S → ℕ → RxItem → World S
portal_gets api w now item =
    let r = Portal.on_link_recv api w.portal now (hdr_at item.bytes).type item.bytes in
    record w {
      portal = r.0;
      to_console = send_all w.portal_link (frames_of r.1) ++ w.to_console;
      transferred = transfers_of r.1 ++ w.transferred;
      outcomes = outcomes_of w.host r.1 ++ w.outcomes;
      calls = newest_first r.1 w.calls;
    }

-- A report of the real portal that the USB host passes on.
unfoldable pub portal_reports : {S : Type 0} → World S → List ℕ → World S
portal_reports w report =
    let r = on_portal_in w.portal report in
    record w {
      portal = r.0;
      to_console = send_all w.portal_link (frames_of r.1) ++ w.to_console;
      reported = report ∷ w.reported;
      calls = newest_first r.1 w.calls;
    }

module _ (env : Env) where
  unfoldable pub step : World env.nvs.Store → Event → World env.nvs.Store
  step w (usb e) =
      let r = TunnelHost.step w.host e in
      let w' = record w { host = r.0 } in
      elim (report_of r.1) [ none ↦ w' | some report ↦ portal_reports w' report ]
  step w (console_commands junk report_id buffer) =
      let r = Console.set_report env.console w.console junk report_id buffer in
      record w {
        console = r.0;
        to_portal = send_all w.console_link r.1 ++ w.to_portal;
        commanded = buffer ∷ w.commanded;
      }
  step w (reaches_console i now mac strength junk) = elim (frame_at w.to_console i) [
    | none ↦ w
    | some frame ↦ record w {
      console_link =
          Link.recv_cb env.radio env.rx w.console_link now (arrival mac strength frame) junk;
    }
  ]
  step w (reaches_portal i now mac strength junk) = elim (frame_at w.to_portal i) [
    | none ↦ w
    | some frame ↦ record w {
      portal_link =
          Link.recv_cb env.radio env.rx w.portal_link now (arrival mac strength frame) junk;
    }
  ]
  step w (console_works junk) =
      let r = Link.rx_task env.rx w.console_link in
      let w' = record w { console_link = r.0 } in
      elim r.1 [ none ↦ w' | some item ↦ console_gets env.console w' junk item ]
  step w (portal_works now) =
      let r = Link.rx_task env.rx w.portal_link in
      let w' = record w { portal_link = r.0 } in
      elim r.1 [ none ↦ w' | some item ↦ portal_gets env.backups w' now item ]
  step w (console_polls tud t) = elim (env.console.items.receive w.console.in_q) [
    | none ↦ w
    | some (it, rest) ↦ record w {
      console = record w.console { in_q = rest };
      shown = if took tud (tx_round tud t) then contents it ∷ w.shown else w.shown;
    }
  ]
  step w (console_writes now) =
      let t = write_step env.console w.console w.writer now in
      record w {
        console = t.console;
        writer = t.pc;
        to_portal = send_all w.console_link t.frames ++ w.to_portal;
        begun = t.begun ++ w.begun;
        acked = t.acked ++ w.acked;
      }
  step w console_mounts = record w { console = on_mount env.console w.console }
  step w (console_beats now) =
      let r = Link.link_task w.console_link now in
      record w { console_link = r.0; to_portal = r.1.bytes ∷ w.to_portal }
  step w (portal_beats now) =
      let r = Link.link_task w.portal_link now in
      record w { portal_link = r.0; to_console = r.1.bytes ∷ w.to_console }
  step w portal_backs_up =
      let r = backup_round env.nvs env.backups w.portal w.store in
      record w { portal = r.0; store = r.1 }
  step w portal_restores =
      let r = do_restore env.nvs w.portal w.store in
      record w {
        portal = r.0;
        pressed = press_of env.nvs w.portal w.store ∷ w.pressed;
        transferred = transfers_of r.1 ++ w.transferred;
        outcomes = outcomes_of w.host r.1 ++ w.outcomes;
        calls = newest_first r.1 w.calls;
      }

  unfoldable pub run : World env.nvs.Store → List Event → World env.nvs.Store
  run w [] = w
  run w (e ∷ es) = run (step w e) es

  -- Both boards after their `app_main`, with what the flash held before.
  abbrev pub start : env.nvs.Store → World env.nvs.Store
  start store = record {
    host = TunnelHost.started true;
    portal = Portal.start;
    portal_link = link_init env.radio [] link_role_portal;
    store = flash_start env.nvs store;
    console = Console.start;
    writer = idle;
    console_link = link_init env.radio [] link_role_console;
    to_console = [];
    to_portal = [];
    reported = [];
    shown = [];
    commanded = [];
    transferred = [];
    outcomes = [];
    begun = [];
    acked = [];
    pressed = [];
    calls = [];
  }
