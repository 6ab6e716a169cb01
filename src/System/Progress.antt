-- ===== src/System/Progress.antt =====
-- Both boards and the radio: what the tasks can still bring about, when the link is up and no end reports
-- anything new. The queues of frames run empty.
use wireless_skyportal_conne.Prelude.{
  ℕ, ◌^◌, ◌<◌, ◌≡◌, refl, arith, sym, subst, ◌∙◌, true, List, [], ◌∷◌, ◌++◌, none, some, All,
  All-append,
}
use wireless_skyportal_conne.Frame.{hdr_at}
use wireless_skyportal_conne.Link.{RxItem}
use wireless_skyportal_conne.SharedLink.Running.{IsRunning, round_busy}
use wireless_skyportal_conne.Console.{Item}
use wireless_skyportal_conne.Console.Task.{Pc}
use wireless_skyportal_conne.System.World.{
  Env, World, Event, console_gets, portal_gets, step, run, usb, console_commands, reaches_console,
  reaches_portal, console_works, portal_works, console_polls, console_writes, console_mounts,
  console_beats, portal_beats, portal_backs_up, portal_restores,
}
use wireless_skyportal_conne.System.Commands.{write_q-on_link_recv}
use wireless_skyportal_conne.System.Heard.{write_seq-on_link_recv}

-- A frame arrives, or `rx_task` or `write_task` runs.
abbrev pub IsOwn : Event → Type 0
IsOwn (reaches_console i now mac strength junk) = Unit {0}
IsOwn (reaches_portal i now mac strength junk) = Unit {0}
IsOwn (console_works junk) = Unit {0}
IsOwn (portal_works now) = Unit {0}
IsOwn (console_writes now) = Unit {0}
IsOwn (usb e) = ⊥
IsOwn (console_commands junk report_id buffer) = ⊥
IsOwn (console_polls tud t) = ⊥
IsOwn console_mounts = ⊥
IsOwn (console_beats now) = ⊥
IsOwn (portal_beats now) = ⊥
IsOwn portal_backs_up = ⊥
IsOwn portal_restores = ⊥

-- Both boards are linked, with those frames waiting at each, and those writes; `write_task` stands there.
pub record IsOpen {S : Type 0} (w : World S) (at_portal at_console : List RxItem) (ws : List Item)
    (pc : Pc) : Type 0 where
  pub portal_runs : IsRunning w.portal_link at_portal
  pub console_runs : IsRunning w.console_link at_console
  pub portal_linked : w.portal_link.linked ≡ true
  pub console_linked : w.console_link.linked ≡ true
  pub write_q : w.console.write_q ≡ ws
  pub small : w.console.write_seq < 2 ^ 16
  pub writer : w.writer ≡ pc

module _ (env : Env) where
  -- Some of those events lead to such a state.
  abbrev pub Can : (World env.nvs.Store → Type 0) → World env.nvs.Store → Type 0
  Can P w = (es : List Event) × All IsOwn es × P (run env w es)

  run-append :
      (w : World env.nvs.Store) (es fs : List Event)
      → run env w (es ++ fs) ≡ run env (run env w es) fs
  unfolding run
  run-append w [] fs = refl
  run-append w (e ∷ es) fs = run-append (step env w e) es fs

  pub Can-then :
      (P Q : World env.nvs.Store → Type 0) (w : World env.nvs.Store)
      → Can P w
      → ((w' : World env.nvs.Store) → P w' → Can Q w')
      → Can Q w
  Can-then P Q w (es, own, p) f =
      let (fs, more, q) = f (run env w es) p in
      (es ++ fs, All-append IsOwn es fs own more, subst Q (sym (run-append w es fs)) q)

  pub Can-next :
      (P : World env.nvs.Store → Type 0) (w : World env.nvs.Store) (e : Event)
      → IsOwn e
      → Can P (step env w e)
      → Can P w
  unfolding run
  Can-next P w e h (es, own, p) = (e ∷ es, (h, own), p)

  pub Can-now : (P : World env.nvs.Store → Type 0) (w : World env.nvs.Store) → P w → Can P w
  unfolding run
  Can-now P w p = ([], tt, p)

  -- The worker of the portal's side takes a frame.
  pub IsOpen-portal_works :
      (w : World env.nvs.Store) (now : ℕ) (x : RxItem) (qp qc : List RxItem) (ws : List Item)
      (pc : Pc)
      → IsOpen w (x ∷ qp) qc ws pc
      → IsOpen (step env w (portal_works now)) qp qc ws pc
  unfolding step portal_gets
  IsOpen-portal_works w now x qp qc ws pc v =
      subst
        (λ t.
          IsOpen
            (elim t.1 [
              | none ↦ record w { portal_link = t.0 }
              | some item ↦ portal_gets env.backups (record w { portal_link = t.0 }) now item
            ])
            qp qc ws pc)
        (sym
          (round_busy env.radio env.rx w.portal_link x qp v.portal_runs.handler v.portal_runs.rx_q))
        (record {
          portal_runs = record {
            handler = v.portal_runs.handler;
            rx_q = refl;
            size = omega (arith, v.portal_runs.size);
          };
          console_runs = v.console_runs;
          portal_linked = v.portal_linked;
          console_linked = v.console_linked;
          write_q = v.write_q;
          small = v.small;
          writer = v.writer;
        })

  pub IsOpen-console_works :
      (w : World env.nvs.Store) (junk : List ℕ) (x : RxItem) (qp qc : List RxItem) (ws : List Item)
      (pc : Pc)
      → IsOpen w qp (x ∷ qc) ws pc
      → IsOpen (step env w (console_works junk)) qp qc ws pc
  unfolding step console_gets
  IsOpen-console_works w junk x qp qc ws pc v =
      subst
        (λ t.
          IsOpen
            (elim t.1 [
              | none ↦ record w { console_link = t.0 }
              | some item ↦ console_gets env.console (record w { console_link = t.0 }) junk item
            ])
            qp qc ws pc)
        (sym (
          round_busy env.radio env.rx w.console_link x qc v.console_runs.handler
            v.console_runs.rx_q))
        (record {
          portal_runs = v.portal_runs;
          console_runs = record {
            handler = v.console_runs.handler;
            rx_q = refl;
            size = omega (arith, v.console_runs.size);
          };
          portal_linked = v.portal_linked;
          console_linked = v.console_linked;
          write_q =
              write_q-on_link_recv env.console w.console junk (hdr_at x.bytes).type x.bytes x.len
              ∙ v.write_q;
          small =
              subst (λ n. n < 2 ^ 16)
                (sym (
                  write_seq-on_link_recv env.console w.console junk (hdr_at x.bytes).type x.bytes
                    x.len))
                v.small;
          writer = v.writer;
        })

  -- The frames that wait at the boards go.
  pub IsOpen-drained :
      (w : World env.nvs.Store) (qp qc : List RxItem) (ws : List Item) (pc : Pc)
      → IsOpen w qp qc ws pc
      → Can (λ w'. IsOpen w' [] [] ws pc) w
  IsOpen-drained w [] [] ws pc v = Can-now (λ w'. IsOpen w' [] [] ws pc) w v
  IsOpen-drained w [] (x ∷ qc) ws pc v =
      Can-next (λ w'. IsOpen w' [] [] ws pc) w (console_works []) tt
        (IsOpen-drained (step env w (console_works [])) [] qc ws pc
          (IsOpen-console_works w [] x [] qc ws pc v))
  IsOpen-drained w (x ∷ qp) qc ws pc v =
      Can-next (λ w'. IsOpen w' [] [] ws pc) w (portal_works 0) tt
        (IsOpen-drained (step env w (portal_works 0)) qp qc ws pc
          (IsOpen-portal_works w 0 x qp qc ws pc v))
