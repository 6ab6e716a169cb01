-- ===== src/System/Hops.antt =====
-- Both boards and the radio: single steps of a frame, to a board and to its worker.
use wireless_skyportal_conne.Prelude.{ℕ, ◌≡◌, refl, ap, true, List, [], ◌∷◌, none, some}
use wireless_skyportal_conne.Link.{Link, RxItem, recv_cb}
use wireless_skyportal_conne.Link
use wireless_skyportal_conne.SharedLink.Running.{IsRunning, round_busy}
use wireless_skyportal_conne.System.World.{
  Env, World, reaches_portal, reaches_console, portal_works, console_works, console_gets,
  portal_gets, step,
}
use wireless_skyportal_conne.System.Sends.{arrival, frame_at, send_all}
use wireless_skyportal_conne.System.Lossless.{junk}

pub send-linked :
    (l : Link) (frame : List ℕ) → l.linked ≡ true → send_all l (frame ∷ []) ≡ frame ∷ []
unfolding Link.link_send
send-linked l frame h = rw h refl

module _ (env : Env) where
  pub arrives_at_portal :
      (w : World env.nvs.Store) (frame : List ℕ) (old : List (List ℕ))
      → w.to_portal ≡ frame ∷ old
      → step env w (reaches_portal 0 0 [] none junk) ≡ record w {
        portal_link = recv_cb env.radio env.rx w.portal_link 0 (arrival [] none frame) junk;
      }
  unfolding step
  arrives_at_portal w frame old e =
      ap
        (λ frames. elim (frame_at frames 0) [
          | none ↦ w
          | some f ↦ record w {
            portal_link = recv_cb env.radio env.rx w.portal_link 0 (arrival [] none f) junk;
          }
        ])
        e

  pub arrives_at_console :
      (w : World env.nvs.Store) (frame : List ℕ) (old : List (List ℕ))
      → w.to_console ≡ frame ∷ old
      → step env w (reaches_console 0 0 [] none junk) ≡ record w {
        console_link = recv_cb env.radio env.rx w.console_link 0 (arrival [] none frame) junk;
      }
  unfolding step
  arrives_at_console w frame old e =
      ap
        (λ frames. elim (frame_at frames 0) [
          | none ↦ w
          | some f ↦ record w {
            console_link = recv_cb env.radio env.rx w.console_link 0 (arrival [] none f) junk;
          }
        ])
        e

  pub portal_takes :
      (w : World env.nvs.Store) (x : RxItem) (q : List RxItem)
      → IsRunning w.portal_link (x ∷ q)
      → step env w (portal_works 0)
        ≡ portal_gets env.backups
            (record w { portal_link = record w.portal_link { rx_q = some q } })
            0
            x
  unfolding step
  portal_takes w x q v =
      ap
        (λ t. elim t.1 [
          | none ↦ record w { portal_link = t.0 }
          | some item ↦ portal_gets env.backups (record w { portal_link = t.0 }) 0 item
        ])
        (round_busy env.radio env.rx w.portal_link x q v.handler v.rx_q)

  pub console_takes :
      (w : World env.nvs.Store) (x : RxItem) (q : List RxItem)
      → IsRunning w.console_link (x ∷ q)
      → step env w (console_works [])
        ≡ console_gets env.console
            (record w { console_link = record w.console_link { rx_q = some q } })
            []
            x
  unfolding step
  console_takes w x q v =
      ap
        (λ t. elim t.1 [
          | none ↦ record w { console_link = t.0 }
          | some item ↦ console_gets env.console (record w { console_link = t.0 }) [] item
        ])
        (round_busy env.radio env.rx w.console_link x q v.handler v.rx_q)
