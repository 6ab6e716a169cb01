-- ===== src/System/Delivery.antt =====
-- Both boards and the radio: the writes that console-side/src/main.c counts as acknowledged have reached
-- the real portal.
use wireless_skyportal_conne.Prelude.{◌≤◌, refl, List, [], ◌∷◌, Option-cases, length, inl, inr, All}
use wireless_skyportal_conne.Frame.{link_role_console}
use wireless_skyportal_conne.Rtos.{receive_cases}
use wireless_skyportal_conne.Link.{Link, RxItem}
use wireless_skyportal_conne.Link
use wireless_skyportal_conne.Portal.Flash.{do_restore}
use wireless_skyportal_conne.Console.{set_report, on_mount}
use wireless_skyportal_conne.Console
use wireless_skyportal_conne.System.World.{
  Env, World, Event, step, run, start, usb, portal_reports, console_commands, reaches_console,
  reaches_portal, console_works, portal_works, console_polls, console_writes, console_mounts,
  console_beats, portal_beats, portal_backs_up, portal_restores,
}
use wireless_skyportal_conne.System.Sends.{frame_at, transfers_of, arrival, report_of}
use wireless_skyportal_conne.TunnelHost
use wireless_skyportal_conne.System.Air.{All-frame_at}
use wireless_skyportal_conne.System.Radio.{
  Waits-recv_cb, Waits-rx_task, Waits-link_task, Waits-link_init,
}
use wireless_skyportal_conne.System.Sent.{FromConsole-step, start-FromConsole}
use wireless_skyportal_conne.System.FromConsole.{FromConsole}
use wireless_skyportal_conne.System.Answers.{Answer}
use wireless_skyportal_conne.System.Answered.{IsAnswered}
use wireless_skyportal_conne.System.Acks.{IsAnswered-step, start-IsAnswered}
use wireless_skyportal_conne.System.Numbers.{no_write}
use wireless_skyportal_conne.System.Hand.{IsKept, IsKept-more, Delivered}
use wireless_skyportal_conne.System.Sound.{
  IsSound, Waits-more, IsKept-done, IsSound-console_works, IsSound-portal_works,
  IsSound-console_commands, IsSound-writes,
}

module _ (env : Env) where
  IsSound-step :
      (w : World env.nvs.Store) (e : Event)
      → FromConsole w
      → IsAnswered w
      → IsSound w
      → IsSound (step env w e)
  unfolding step portal_reports Link.link_task on_mount
  IsSound-step w (usb e) c a v = elim (Option-cases (report_of (TunnelHost.step w.host e).1)) [
    | inl f ↦ rw (step, f) (record { frames = v.frames; link = v.link; kept = v.kept })
    | inr (r, f) ↦ rw (step, f) (record { frames = v.frames; link = v.link; kept = v.kept })
  ]
  IsSound-step w (console_commands junk report_id buffer) c a v =
      IsSound-console_commands env w junk report_id buffer v
  IsSound-step w (reaches_console i now mac strength junk) c a v =
      elim (All-frame_at (Answer w.to_portal w.transferred) w.to_console i a.frames) [
        | inl e ↦ rw (step, e) v
        | inr (f, e, answer) ↦
            rw (step, e)
              (record {
                frames = v.frames;
                link =
                    Waits-recv_cb env.radio env.rx (Answer w.to_portal w.transferred) w.console_link
                      now (arrival mac strength f) junk v.link answer;
                kept = v.kept;
              })
      ]
  IsSound-step w (reaches_portal i now mac strength junk) c a v =
      elim (Option-cases (frame_at w.to_portal i)) [
        | inl e ↦ rw (step, e) v
        | inr (f, e) ↦ rw (step, e) (record { frames = v.frames; link = v.link; kept = v.kept })
      ]
  IsSound-step w (console_works junk) c a v =
      let (waits, taken) =
        Waits-rx_task env.radio env.rx (Answer w.to_portal w.transferred) w.console_link v.link in
      let r = Link.rx_task env.rx w.console_link in
      IsSound-console_works env w junk r.0 r.1 v c.frames waits taken
  IsSound-step w (portal_works now) c a v =
      let r = Link.rx_task env.rx w.portal_link in IsSound-portal_works env w now r.0 r.1 v
  IsSound-step w (console_polls tud t) c a v =
      elim (receive_cases env.console.items w.console.in_q) [
        | inl e ↦ rw (step, e) v
        | inr (it, rest, e, q) ↦
            rw (step, e) (record { frames = v.frames; link = v.link; kept = kept_to w rest v.kept })
      ]
    where
      kept_to :
          (w : World env.nvs.Store) (rest : List Console.Item)
          → IsKept w.commanded w.transferred w.begun w.acked w.console w.writer
          → IsKept w.commanded w.transferred w.begun w.acked
              (record w.console { in_q = rest })
              w.writer
      kept_to w rest k =
          IsKept-more w.commanded w.commanded w.transferred [] w.console
            (record w.console { in_q = rest }) k (λ t h. h) refl k.heard
  IsSound-step w (console_writes now) c a v = IsSound-writes env w now c v
  IsSound-step w console_mounts c a v = record {
    frames = v.frames;
    link = v.link;
    kept =
        IsKept-more w.commanded w.commanded w.transferred [] w.console
          (on_mount env.console w.console) v.kept (λ t h. h) refl v.kept.heard;
  }
  IsSound-step w (console_beats now) c a v = record {
    frames = (no_write refl, v.frames);
    link =
        Waits-link_task env.radio env.rx
          (Answer ((Link.link_task w.console_link now).1.bytes ∷ w.to_portal) w.transferred)
          w.console_link now (Waits-more w v ((Link.link_task w.console_link now).1.bytes ∷ []) []);
    kept = v.kept;
  }
  IsSound-step w (portal_beats now) c a v = record {
    frames = v.frames;
    link = v.link;
    kept = v.kept;
  }
  IsSound-step w portal_backs_up c a v = record { frames = v.frames; link = v.link; kept = v.kept }
  IsSound-step w portal_restores c a v =
      let done = transfers_of (do_restore env.nvs w.portal w.store).1 in
      record { frames = v.frames; link = Waits-more w v [] done; kept = IsKept-done w v done }

  IsSound-run :
      (es : List Event) (w : World env.nvs.Store)
      → FromConsole w
      → IsAnswered w
      → IsSound w
      → IsSound (run env w es)
  unfolding run
  IsSound-run [] w c a v = v
  IsSound-run (e ∷ es) w c a v =
      IsSound-run es (step env w e) (FromConsole-step env w e c) (IsAnswered-step env w e c a)
        (IsSound-step w e c a v)

  -- From the start of both boards on.
  pub run-IsSound :
      (store : env.nvs.Store) (es : List Event) → IsSound (run env (start env store) es)
  run-IsSound store es =
      IsSound-run es (start env store) (start-FromConsole env store) (start-IsAnswered env store)
        (record {
          frames = tt;
          link = Waits-link_init env.radio env.rx (Answer [] []) [] link_role_console;
          kept = record {
            next = refl;
            numbered = λ h. tt;
            hand = tt;
            heard = inl refl;
            confirmed = λ h. tt;
          };
        })

  -- From the start of both boards on, whatever happens on them and in the air, while `write_task` has taken
  -- no more than 65535 writes in hand, each write that it has found acknowledged is a tag write that the
  -- games console has made, and the first 64 bytes of that have been handed over to the transfer to the
  -- real portal.
  pub run-Delivered :
      (store : env.nvs.Store) (es : List Event)
      → let w = run env (start env store) es in
        length w.begun ≤ 65535 → All (Delivered w.commanded w.transferred) w.acked
  run-Delivered store es few = (run-IsSound store es).kept.confirmed few
