-- ===== src/System/Honest.antt =====
-- Both boards and the radio: what the games console is shown comes from the real portal.
use wireless_skyportal_conne.Prelude.{
  map, refl, subst, List, [], ◌∷◌, Option-cases, inl, inr, All, All-map,
}
use wireless_skyportal_conne.Frame.{link_role_console}
use wireless_skyportal_conne.Rtos.{receive_cases}
use wireless_skyportal_conne.Link.{Link, RxItem}
use wireless_skyportal_conne.Link
use wireless_skyportal_conne.Console.{contents}
use wireless_skyportal_conne.Console.Sender.{tx_round, took}
use wireless_skyportal_conne.Console.Tunnel.{waiting}
use wireless_skyportal_conne.System.World.{
  Env, World, Event, IsPossible, ArePossible, step, run, start, usb, console_commands,
  reaches_console, reaches_portal, console_works, portal_works, console_polls, console_writes,
  console_mounts, console_beats, portal_beats, portal_backs_up, portal_restores,
}
use wireless_skyportal_conne.System.Sends.{frame_at, arrival, report_of}
use wireless_skyportal_conne.TunnelHost
use wireless_skyportal_conne.System.Reads.{report_of-step}
use wireless_skyportal_conne.System.Air.{All-frame_at}
use wireless_skyportal_conne.System.Radio.{
  Waits-recv_cb, Waits-rx_task, Waits-link_task, Waits-link_init,
}
use wireless_skyportal_conne.System.Shown.{Shown, Shown-asked, IsHonest-asked, start-IsHonest}
use wireless_skyportal_conne.System.Replies.{IsHonest-set_report}
use wireless_skyportal_conne.System.Down.{
  Down, Down-link_task, IsHonest-mount, IsHonest-taken, IsHonest-write_step,
}
use wireless_skyportal_conne.System.FromPortal.{
  FromPortal, All-taken, FromPortal-console_works, FromPortal-portal_works,
  FromPortal-portal_reports,
}

module _ (env : Env) where
  FromPortal-step :
      (w : World env.nvs.Store) (e : Event)
      → IsPossible e
      → FromPortal w
      → FromPortal (step env w e)
  unfolding step
  FromPortal-step w (usb e) h v =
      let w' = record w { host = (TunnelHost.step w.host e).0 } in
      let v' : FromPortal w' = record {
        frames = v.frames;
        link = v.link;
        console = v.console;
        shown = v.shown;
      } in
      elim (Option-cases (report_of (TunnelHost.step w.host e).1)) [
        | inl f ↦ rw (step, f) v'
        | inr (r, f) ↦
            let (lo, hi) = report_of-step w.host e r f h in
            rw (step, f) (FromPortal-portal_reports env w' r v' lo hi)
      ]
  FromPortal-step w (console_commands junk id buffer) h v = record {
    frames = v.frames;
    link = v.link;
    console =
        IsHonest-set_report env.console (buffer ∷ w.commanded) w.reported w.console junk id buffer
          (inl refl) (IsHonest-asked w.commanded w.reported buffer w.console v.console);
    shown =
        All-map (Shown w.commanded w.reported) (Shown (buffer ∷ w.commanded) w.reported)
          (Shown-asked w.commanded w.reported buffer) w.shown v.shown;
  }
  FromPortal-step w (reaches_console i now mac strength junk) h v =
      elim (All-frame_at (Down w.reported) w.to_console i v.frames) [
        | inl e ↦ rw (step, e) v
        | inr (f, e, down) ↦
            rw (step, e)
              (record {
                frames = v.frames;
                link =
                    Waits-recv_cb env.radio env.rx (Down w.reported) w.console_link now
                      (arrival mac strength f) junk v.link down;
                console = v.console;
                shown = v.shown;
              })
      ]
  FromPortal-step w (reaches_portal i now mac strength junk) h v =
      elim (Option-cases (frame_at w.to_portal i)) [
        | inl e ↦ rw (step, e) v
        | inr (f, e) ↦
            rw (step, e)
              (record { frames = v.frames; link = v.link; console = v.console; shown = v.shown })
      ]
  FromPortal-step w (console_works junk) h v =
      let (waits, taken) = Waits-rx_task env.radio env.rx (Down w.reported) w.console_link v.link in
      let r = Link.rx_task env.rx w.console_link in
      FromPortal-console_works env w junk r.0 r.1 v waits taken
  FromPortal-step w (portal_works now) h v =
      let r = Link.rx_task env.rx w.portal_link in FromPortal-portal_works env w r.0 now r.1 v
  FromPortal-step w (console_polls tud t) h v =
      elim (receive_cases env.console.items w.console.in_q) [
        | inl e ↦ rw (step, e) v
        | inr (it, rest, e, q) ↦
            let both =
              subst (λ q. All (Shown w.commanded w.reported) (map contents q)) q v.console.shown in
            rw (step, e)
              (record {
                frames = v.frames;
                link = v.link;
                console =
                    IsHonest-taken env.console w.commanded w.reported w.console it rest q v.console;
                shown =
                    All-taken (Shown w.commanded w.reported) (took tud (tx_round tud t))
                      (contents it) w.shown both.0 v.shown;
              })
      ]
  FromPortal-step w (console_writes now) h v = record {
    frames = v.frames;
    link = v.link;
    console =
        IsHonest-write_step env.console w.commanded w.reported w.console w.writer now v.console;
    shown = v.shown;
  }
  FromPortal-step w console_mounts h v = record {
    frames = v.frames;
    link = v.link;
    console = IsHonest-mount env.console w.commanded w.reported w.console v.console;
    shown = v.shown;
  }
  FromPortal-step w (console_beats now) h v = record {
    frames = v.frames;
    link = Waits-link_task env.radio env.rx (Down w.reported) w.console_link now v.link;
    console = v.console;
    shown = v.shown;
  }
  FromPortal-step w (portal_beats now) h v = record {
    frames = (Down-link_task w.reported w.portal_link now, v.frames);
    link = v.link;
    console = v.console;
    shown = v.shown;
  }
  FromPortal-step w portal_backs_up h v = record {
    frames = v.frames;
    link = v.link;
    console = v.console;
    shown = v.shown;
  }
  FromPortal-step w portal_restores h v = record {
    frames = v.frames;
    link = v.link;
    console = v.console;
    shown = v.shown;
  }

  FromPortal-run :
      (es : List Event) (w : World env.nvs.Store)
      → ArePossible es
      → FromPortal w
      → FromPortal (run env w es)
  unfolding run
  FromPortal-run [] w h v = v
  FromPortal-run (e ∷ es) w h v = FromPortal-run es (step env w e) h.1 (FromPortal-step w e h.0 v)

  -- From the start of both boards on, whatever happens on them and in the air, while the USB host reads
  -- reports of at most 64 bytes, every report that the games console has taken, and every report that
  -- waits for it, is one that the real portal has made, or a reply to Ready that is built in or was the
  -- portal's, or a reply to Activate that is built in or was the portal's, as it was or with its second
  -- byte replaced by that of an Activate which the games console has made.
  pub run-Shown :
      (store : env.nvs.Store) (es : List Event)
      → ArePossible es
      → let w = run env (start env store) es in
        All (Shown w.commanded w.reported) w.shown
        × All (Shown w.commanded w.reported) (waiting w.console)
  run-Shown store es h =
      let v = FromPortal-run es (start env store) h (record {
        frames = tt;
        link = Waits-link_init env.radio env.rx (Down []) [] link_role_console;
        console = start-IsHonest;
        shown = tt;
      }) in
      (v.shown, v.console.shown)
