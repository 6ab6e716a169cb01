-- ===== src/System/Acks.antt =====
-- Both boards and the radio: each ACK in the air is that of a write that the real portal got.
use wireless_skyportal_conne.Prelude.{
  ℕ, arith, refl, subst, List, [], ◌∷◌, ◌++◌, append-nil, Option-cases, inl, inr, Among, All,
  All-map, All-append,
}
use wireless_skyportal_conne.Frame.{link_role_portal}
use wireless_skyportal_conne.Rtos.{receive_cases}
use wireless_skyportal_conne.Link.{Link, RxItem}
use wireless_skyportal_conne.Link
use wireless_skyportal_conne.Console.{set_report}
use wireless_skyportal_conne.Console.Task.{write_step}
use wireless_skyportal_conne.System.World.{
  Env, World, Event, step, run, start, usb, portal_reports, console_commands, reaches_console,
  reaches_portal, console_works, portal_works, console_polls, console_writes, console_mounts,
  console_beats, portal_beats, portal_backs_up, portal_restores,
}
use wireless_skyportal_conne.System.Sends.{
  frame_at, send_all, frames_of, transfers_of, newest_first, arrival, report_of,
}
use wireless_skyportal_conne.TunnelHost
use wireless_skyportal_conne.System.Air.{All-frame_at, All-send_all}
use wireless_skyportal_conne.System.Radio.{
  Waits-recv_cb, Waits-rx_task, Waits-link_task, Waits-link_init,
}
use wireless_skyportal_conne.System.Sent.{FromConsole-step, start-FromConsole}
use wireless_skyportal_conne.System.FromConsole.{FromConsole}
use wireless_skyportal_conne.Portal.{on_portal_in}
use wireless_skyportal_conne.Portal.Flash.{do_restore}
use wireless_skyportal_conne.System.Answers.{Answer, Answer-more, InOrder, InOrder-later}
use wireless_skyportal_conne.System.Answered.{
  IsAnswered, IsAnswered-sends, All-Among, IsAnswered-console_works, IsAnswered-portal_works,
}

module _ (env : Env) where
  pub IsAnswered-step :
      (w : World env.nvs.Store) (e : Event)
      → FromConsole w
      → IsAnswered w
      → IsAnswered (step env w e)
  unfolding step portal_reports on_portal_in Link.link_task
  IsAnswered-step w (usb e) c v = elim (Option-cases (report_of (TunnelHost.step w.host e).1)) [
    | inl f ↦ rw (step, f) (record { frames = v.frames; link = v.link; order = v.order })
    | inr (r, f) ↦
        let sent = frames_of (on_portal_in w.portal r).1 in
        rw (step, f)
          (record {
            frames =
                All-append (Answer w.to_portal w.transferred) (send_all w.portal_link sent)
                  w.to_console
                  (All-send_all (Answer w.to_portal w.transferred) w.portal_link sent
                    (Answer.other (omega arith) refl, tt))
                  v.frames;
            link = v.link;
            order =
                let calls = newest_first (on_portal_in w.portal r).1 w.calls in
                All-append (InOrder w.to_portal calls) (send_all w.portal_link sent) w.to_console
                  (All-send_all (InOrder w.to_portal calls) w.portal_link sent
                    (InOrder.other refl, tt))
                  (All-map (InOrder w.to_portal w.calls) (InOrder w.to_portal calls)
                    (InOrder-later w.to_portal (on_portal_in w.portal r).1 w.calls) w.to_console
                    v.order);
          })
  ]
  IsAnswered-step w (console_commands junk report_id buffer) c v =
      let sent = (set_report env.console w.console junk report_id buffer).1 in
      let (frames, link, order) = IsAnswered-sends w (send_all w.console_link sent) v in
      record { frames = frames; link = link; order = order }
  IsAnswered-step w (reaches_console i now mac strength junk) c v =
      elim (Option-cases (frame_at w.to_console i)) [
        | inl e ↦ rw (step, e) v
        | inr (f, e) ↦ rw (step, e) (record { frames = v.frames; link = v.link; order = v.order })
      ]
  IsAnswered-step w (reaches_portal i now mac strength junk) c v =
      elim (All-frame_at (λ f. Among f w.to_portal) w.to_portal i (each w.to_portal)) [
        | inl e ↦ rw (step, e) v
        | inr (f, e, m) ↦
            rw (step, e)
              (record {
                frames = v.frames;
                link =
                    Waits-recv_cb env.radio env.rx (λ f. Among f w.to_portal) w.portal_link now
                      (arrival mac strength f) junk v.link m;
                order = v.order;
              })
      ]
    where
      each : (xs : List (List ℕ)) → All (λ f. Among f xs) xs
      each xs = subst (λ ys. All (λ f. Among f ys) xs) (append-nil xs) (All-Among xs [])
  IsAnswered-step w (console_works junk) c v =
      let r = Link.rx_task env.rx w.console_link in IsAnswered-console_works env w junk r.0 r.1 v
  IsAnswered-step w (portal_works now) c v =
      let (waits, taken) =
        Waits-rx_task env.radio env.rx (λ f. Among f w.to_portal) w.portal_link v.link in
      let r = Link.rx_task env.rx w.portal_link in
      IsAnswered-portal_works env w now r.0 r.1 v c.frames waits taken
  IsAnswered-step w (console_polls tud t) c v =
      elim (receive_cases env.console.items w.console.in_q) [
        | inl e ↦ rw (step, e) v
        | inr (it, rest, e, q) ↦
            rw (step, e) (record { frames = v.frames; link = v.link; order = v.order })
      ]
  IsAnswered-step w (console_writes now) c v =
      let sent = (write_step env.console w.console w.writer now).frames in
      let (frames, link, order) = IsAnswered-sends w (send_all w.console_link sent) v in
      record { frames = frames; link = link; order = order }
  IsAnswered-step w console_mounts c v = record {
    frames = v.frames;
    link = v.link;
    order = v.order;
  }
  IsAnswered-step w (console_beats now) c v =
      let (frames, link, order) =
        IsAnswered-sends w ((Link.link_task w.console_link now).1.bytes ∷ []) v in
      record { frames = frames; link = link; order = order }
  IsAnswered-step w (portal_beats now) c v = record {
    frames = (Answer.other (omega arith) refl, v.frames);
    link = Waits-link_task env.radio env.rx (λ f. Among f w.to_portal) w.portal_link now v.link;
    order = (InOrder.other refl, v.order);
  }
  IsAnswered-step w portal_backs_up c v = record {
    frames = v.frames;
    link = v.link;
    order = v.order;
  }
  IsAnswered-step w portal_restores c v =
      let done = transfers_of (do_restore env.nvs w.portal w.store).1 in
      record {
        frames =
            All-map (Answer w.to_portal w.transferred) (Answer w.to_portal (done ++ w.transferred))
              (Answer-more [] w.to_portal done w.transferred) w.to_console v.frames;
        link = v.link;
        order =
            let new = (do_restore env.nvs w.portal w.store).1 in
            All-map (InOrder w.to_portal w.calls) (InOrder w.to_portal (newest_first new w.calls))
              (InOrder-later w.to_portal new w.calls) w.to_console v.order;
      }

  pub start-IsAnswered : (store : env.nvs.Store) → IsAnswered (start env store)
  start-IsAnswered store = record {
    frames = tt;
    link = Waits-link_init env.radio env.rx (λ f. Among f []) [] link_role_portal;
    order = tt;
  }

  IsAnswered-run :
      (es : List Event) (w : World env.nvs.Store)
      → FromConsole w
      → IsAnswered w
      → IsAnswered (run env w es)
  unfolding run
  IsAnswered-run [] w c v = v
  IsAnswered-run (e ∷ es) w c v =
      IsAnswered-run es (step env w e) (FromConsole-step env w e c) (IsAnswered-step w e c v)

  pub run-Answer :
      (store : env.nvs.Store) (es : List Event)
      → let w = run env (start env store) es in All (Answer w.to_portal w.transferred) w.to_console
  run-Answer store es =
      (IsAnswered-run es (start env store) (start-FromConsole env store)
        (start-IsAnswered store)).frames

  -- From the start of both boards on, whatever happens on them and in the air, each ACK that the portal's
  -- side has sent bears the number of a write that the console's side has sent, and stems from a call of
  -- `link_send` before which, in the order of the calls of the portal's side, another call has handed the
  -- bytes of that write, all of them and no others, over to the transfer to the real portal.
  pub run-InOrder :
      (store : env.nvs.Store) (es : List Event)
      → let w = run env (start env store) es in All (InOrder w.to_portal w.calls) w.to_console
  run-InOrder store es =
      (IsAnswered-run es (start env store) (start-FromConsole env store)
        (start-IsAnswered store)).order
