-- ===== src/System/Sent.antt =====
-- Both boards and the radio: what the real portal is sent comes from the games console or from a press of
-- the button.
use wireless_skyportal_conne.Prelude.{
  List, [], ◌∷◌, Option-cases, inl, inr, refl, All, All-append, All-map,
}
use wireless_skyportal_conne.Frame.{link_role_portal}
use wireless_skyportal_conne.Rtos.{receive_cases}
use wireless_skyportal_conne.Link.{Link, RxItem}
use wireless_skyportal_conne.Link
use wireless_skyportal_conne.Console.{on_mount}
use wireless_skyportal_conne.System.World.{
  Env, World, Event, step, run, start, usb, portal_reports, console_commands, reaches_console,
  reaches_portal, console_works, portal_works, console_polls, console_writes, console_mounts,
  console_beats, portal_beats, portal_backs_up, portal_restores,
}
use wireless_skyportal_conne.System.Sends.{frame_at, transfers_of, arrival, report_of}
use wireless_skyportal_conne.TunnelHost
use wireless_skyportal_conne.System.Air.{All-frame_at}
use wireless_skyportal_conne.System.Radio.{
  Waits-recv_cb, Waits-rx_task, Waits-link_task, Waits-link_init,
}
use wireless_skyportal_conne.System.Up.{Up, Sent, Sent-pressed, Up-link_task}
use wireless_skyportal_conne.Portal.Flash.{do_restore}
use wireless_skyportal_conne.System.Press.{press_of}
use wireless_skyportal_conne.System.Restores.{Sent-do_restore}
use wireless_skyportal_conne.System.FromConsole.{
  FromConsole, FromConsole-console_works, FromConsole-portal_works, FromConsole-console_commands,
  FromConsole-writes,
}

module _ (env : Env) where
  pub FromConsole-step :
      (w : World env.nvs.Store) (e : Event) → FromConsole w → FromConsole (step env w e)
  unfolding step portal_reports
  FromConsole-step w (usb e) v = elim (Option-cases (report_of (TunnelHost.step w.host e).1)) [
    | inl f ↦
        rw (step, f)
          (record {
            frames = v.frames;
            link = v.link;
            writes = v.writes;
            writer = v.writer;
            sent = v.sent;
          })
    | inr (r, f) ↦
        rw (step, f)
          (record {
            frames = v.frames;
            link = v.link;
            writes = v.writes;
            writer = v.writer;
            sent = v.sent;
          })
  ]
  FromConsole-step w (console_commands junk report_id buffer) v =
      FromConsole-console_commands env w junk report_id buffer v
  FromConsole-step w (reaches_console i now mac strength junk) v =
      elim (Option-cases (frame_at w.to_console i)) [
        | inl e ↦ rw (step, e) v
        | inr (f, e) ↦
            rw (step, e)
              (record {
                frames = v.frames;
                link = v.link;
                writes = v.writes;
                writer = v.writer;
                sent = v.sent;
              })
      ]
  FromConsole-step w (reaches_portal i now mac strength junk) v =
      elim (All-frame_at (Up w.commanded) w.to_portal i v.frames) [
        | inl e ↦ rw (step, e) v
        | inr (f, e, up) ↦
            rw (step, e)
              (record {
                frames = v.frames;
                link =
                    Waits-recv_cb env.radio env.rx (Up w.commanded) w.portal_link now
                      (arrival mac strength f) junk v.link up;
                writes = v.writes;
                writer = v.writer;
                sent = v.sent;
              })
      ]
  FromConsole-step w (console_works junk) v =
      let r = Link.rx_task env.rx w.console_link in FromConsole-console_works env w junk r.0 r.1 v
  FromConsole-step w (portal_works now) v =
      let (waits, taken) = Waits-rx_task env.radio env.rx (Up w.commanded) w.portal_link v.link in
      let r = Link.rx_task env.rx w.portal_link in
      FromConsole-portal_works env w now r.0 r.1 v waits taken
  FromConsole-step w (console_polls tud t) v =
      elim (receive_cases env.console.items w.console.in_q) [
        | inl e ↦ rw (step, e) v
        | inr (it, rest, e, q) ↦
            rw (step, e)
              (record {
                frames = v.frames;
                link = v.link;
                writes = v.writes;
                writer = v.writer;
                sent = v.sent;
              })
      ]
  FromConsole-step w (console_writes now) v = FromConsole-writes env w now v
  FromConsole-step w console_mounts v =
      unfold on_mount in
      record {
        frames = v.frames;
        link = v.link;
        writes = v.writes;
        writer = v.writer;
        sent = v.sent;
      }
  FromConsole-step w (console_beats now) v = record {
    frames = (Up-link_task w.commanded w.console_link now, v.frames);
    link = v.link;
    writes = v.writes;
    writer = v.writer;
    sent = v.sent;
  }
  FromConsole-step w (portal_beats now) v = record {
    frames = v.frames;
    link = Waits-link_task env.radio env.rx (Up w.commanded) w.portal_link now v.link;
    writes = v.writes;
    writer = v.writer;
    sent = v.sent;
  }
  FromConsole-step w portal_backs_up v = record {
    frames = v.frames;
    link = v.link;
    writes = v.writes;
    writer = v.writer;
    sent = v.sent;
  }
  FromConsole-step w portal_restores v = record {
    frames = v.frames;
    link = v.link;
    writes = v.writes;
    writer = v.writer;
    sent =
        let press = press_of env.nvs w.portal w.store in
        let pressed = press ∷ w.pressed in
        All-append (Sent w.commanded pressed) (transfers_of (do_restore env.nvs w.portal w.store).1)
          w.transferred (Sent-do_restore env.nvs w.commanded pressed w.portal w.store (inl refl))
          (All-map (Sent w.commanded w.pressed) (Sent w.commanded pressed)
            (Sent-pressed w.commanded w.pressed press) w.transferred v.sent);
  }

  pub start-FromConsole : (store : env.nvs.Store) → FromConsole (start env store)
  start-FromConsole store = record {
    frames = tt;
    link = Waits-link_init env.radio env.rx (Up []) [] link_role_portal;
    writes = tt;
    writer = tt;
    sent = tt;
  }

  pub FromConsole-run :
      (es : List Event) (w : World env.nvs.Store) → FromConsole w → FromConsole (run env w es)
  unfolding run
  FromConsole-run [] w v = v
  FromConsole-run (e ∷ es) w v = FromConsole-run es (step env w e) (FromConsole-step w e v)

  -- From the start of both boards on, whatever happens on them and in the air, every transfer to the
  -- real portal lies inside its buffer, and it carries a report that the games console has made, byte
  -- for byte but for what is past 200 bytes, or past 64 of a tag write, or it is one of the writes of a
  -- restore: the command, cut to 19 bytes, for one of the blocks 1 to 63 of the figure in the slot that
  -- was the lowest occupied at a press of the button, with what the figure's backup, read from the flash
  -- at that press, holds for that block.
  pub run-Sent :
      (store : env.nvs.Store) (es : List Event)
      → let w = run env (start env store) es in All (Sent w.commanded w.pressed) w.transferred
  run-Sent store es = (FromConsole-run es (start env store) (start-FromConsole store)).sent
