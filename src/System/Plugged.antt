-- ===== src/System/Plugged.antt =====
-- Both boards and the radio, with the real portal that portal-side/src/tunnel_host.c has or has not: what
-- becomes of the transfers.
use wireless_skyportal_conne.Prelude.{
  ℕ, ◌≡◌, ◌⊎◌, refl, ap, sym, ◌∙◌, true, false, List, [], ◌∷◌, ◌++◌, Option, none, some,
  Option-cases, length, leb, ◌&&◌, Bool-cases, inl, inr, All,
}
use wireless_skyportal_conne.Frame.{hdr_at}
use wireless_skyportal_conne.Link.{Link, RxItem}
use wireless_skyportal_conne.Link
use wireless_skyportal_conne.Portal.{Call, link_send, tunnel_host_send, tunnel_host_send_out}
use wireless_skyportal_conne.Portal
use wireless_skyportal_conne.Portal.Flash.{do_restore}
use wireless_skyportal_conne.TunnelHost.{
  Host, iface_cb, device_cb, input_report, disconnected, connected, other, set_report,
  output_report,
}
use wireless_skyportal_conne.TunnelHost
use wireless_skyportal_conne.System.World.{
  Env, World, Event, portal_gets, console_gets, portal_reports, usb, console_commands,
  reaches_console, reaches_portal, console_works, portal_works, console_polls, console_writes,
  console_mounts, console_beats, portal_beats, portal_backs_up, portal_restores, step, run, start,
}
use wireless_skyportal_conne.System.Sends.{
  Outcome, performed, outcomes_of, transfers_of, frame_at, report_of,
}
use wireless_skyportal_conne.System.Press.{Press}
use wireless_skyportal_conne.System.Up.{Sent, of_console, of_restore}
use wireless_skyportal_conne.System.Sent.{FromConsole-run, FromConsole-step, start-FromConsole}

abbrev pub Unplugs : Event → Type 0
Unplugs (usb (disconnected dev)) = Unit {0}
Unplugs e = ⊥

-- No interface is reported as disconnected.
abbrev pub StaysPlugged : List Event → Type 0
StaysPlugged [] = Unit {0}
StaysPlugged (e ∷ es) = ¬ Unplugs e × StaysPlugged es

-- The bytes went to a device as they are, by its control endpoint or its OUT endpoint.
abbrev pub Reaches : Option (List ℕ) → Outcome → Type 0
Reaches transfer o =
    (bytes : List ℕ) × (dev : ℕ) × (transfer ≡ some bytes)
    × ((o ≡ performed (set_report dev bytes)) ⊎ (o ≡ performed (output_report dev bytes)))

-- Or they lay past the end of their buffer.
abbrev Handled : Option (List ℕ) → Outcome → Type 0
Handled transfer o = (transfer ≡ none) ⊎ Reaches transfer o

-- Place by place, and with nothing left over.
abbrev pub Pairwise : {A B : Type 0} → (A → B → Type 0) → List A → List B → Type 0
Pairwise R [] [] = Unit {0}
Pairwise R [] (b ∷ ys) = ⊥
Pairwise R (a ∷ xs) [] = ⊥
Pairwise R (a ∷ xs) (b ∷ ys) = R a b × Pairwise R xs ys

Handled-calls :
    (h : Host) (dev : ℕ) (calls : List Call) (ts : List (Option (List ℕ))) (os : List Outcome)
    → h.dev ≡ some dev
    → Pairwise Handled ts os
    → Pairwise Handled (transfers_of calls ++ ts) (outcomes_of h calls ++ os)
unfolding TunnelHost.tunnel_host_send TunnelHost.tunnel_host_send_out
Handled-calls h dev [] ts os e v = v
Handled-calls h dev (link_send frame ∷ calls) ts os e v = Handled-calls h dev calls ts os e v
Handled-calls h dev (tunnel_host_send none ∷ calls) ts os e v =
    (inl refl, Handled-calls h dev calls ts os e v)
Handled-calls h dev (tunnel_host_send (some bytes) ∷ calls) ts os e v =
    (inr (bytes, dev, refl, inl (rw e refl)), Handled-calls h dev calls ts os e v)
Handled-calls h dev (tunnel_host_send_out none ∷ calls) ts os e v =
    (inl refl, Handled-calls h dev calls ts os e v)
Handled-calls h dev (tunnel_host_send_out (some bytes) ∷ calls) ts os e v =
    (inr (bytes, dev, refl, inr (rw e refl)), Handled-calls h dev calls ts os e v)

-- A device is connected, and every transfer so far had one.
record IsPlugged {S : Type 0} (w : World S) : Type 0 where
  dev : ℕ
  connected_to : w.host.dev ≡ some dev
  handled : Pairwise Handled w.transferred w.outcomes

-- An event of the USB host that is no disconnection.
stays :
    (h : Host) (e : TunnelHost.Event) (dev : ℕ)
    → ¬ Unplugs (usb e)
    → h.dev ≡ some dev
    → (dev' : ℕ) × ((TunnelHost.step h e).0.dev ≡ some dev')
unfolding TunnelHost.step iface_cb device_cb
stays h (input_report none) dev u e = (dev, e)
stays h (input_report (some report)) dev u e =
    elim (Bool-cases (leb 1 (length report) && h.has_on_in)) [
      | inl f ↦ rw f (dev, e)
      | inr f ↦ rw f (dev, e)
    ]
stays h (disconnected d) dev u e = absurd (u tt)
stays h (connected d true true) dev u e = (d, refl)
stays h (connected d true false) dev u e = (dev, e)
stays h (connected d false started) dev u e = (dev, e)
stays h other dev u e = (dev, e)

module _ (env : Env) where
  IsPlugged-same :
      (w w' : World env.nvs.Store)
      → IsPlugged w
      → w'.host ≡ w.host
      → w'.transferred ≡ w.transferred
      → w'.outcomes ≡ w.outcomes
      → IsPlugged w'
  IsPlugged-same w w' v e f g = record {
    dev = v.dev;
    connected_to = ap (λ h. h.dev) e ∙ v.connected_to;
    handled = rw (f, g) v.handled;
  }

  IsPlugged-console_works :
      (w : World env.nvs.Store) (junk : List ℕ) (l : Link) (o : Option RxItem)
      → IsPlugged w
      → IsPlugged (elim o [
        | none ↦ record w { console_link = l }
        | some item ↦ console_gets env.console (record w { console_link = l }) junk item
      ])
  unfolding console_gets
  IsPlugged-console_works w junk l none v = IsPlugged-same w _ v refl refl refl
  IsPlugged-console_works w junk l (some item) v = IsPlugged-same w _ v refl refl refl

  IsPlugged-portal_works :
      (w : World env.nvs.Store) (now : ℕ) (l : Link) (o : Option RxItem)
      → IsPlugged w
      → IsPlugged (elim o [
        | none ↦ record w { portal_link = l }
        | some item ↦ portal_gets env.backups (record w { portal_link = l }) now item
      ])
  unfolding portal_gets
  IsPlugged-portal_works w now l none v = IsPlugged-same w _ v refl refl refl
  IsPlugged-portal_works w now l (some item) v = record {
    dev = v.dev;
    connected_to = v.connected_to;
    handled =
        Handled-calls w.host v.dev
          (Portal.on_link_recv env.backups w.portal now (hdr_at item.bytes).type item.bytes).1
          w.transferred w.outcomes v.connected_to v.handled;
  }

  IsPlugged-step :
      (w : World env.nvs.Store) (e : Event) → ¬ Unplugs e → IsPlugged w → IsPlugged (step env w e)
  unfolding step portal_reports
  IsPlugged-step w (usb e) u v =
      let (dev, connected_to) = stays w.host e v.dev u v.connected_to in
      elim (Option-cases (report_of (TunnelHost.step w.host e).1)) [
        | inl f ↦
            rw (step, f) (record { dev = dev; connected_to = connected_to; handled = v.handled })
        | inr (r, f) ↦
            rw (step, f) (record { dev = dev; connected_to = connected_to; handled = v.handled })
      ]
  IsPlugged-step w (console_commands junk report_id buffer) u v =
      IsPlugged-same w _ v refl refl refl
  IsPlugged-step w (reaches_console i now mac strength junk) u v =
      elim (Option-cases (frame_at w.to_console i)) [
        | inl e ↦ rw (step, e) v
        | inr (f, e) ↦ rw (step, e) (IsPlugged-same w _ v refl refl refl)
      ]
  IsPlugged-step w (reaches_portal i now mac strength junk) u v =
      elim (Option-cases (frame_at w.to_portal i)) [
        | inl e ↦ rw (step, e) v
        | inr (f, e) ↦ rw (step, e) (IsPlugged-same w _ v refl refl refl)
      ]
  IsPlugged-step w (console_works junk) u v =
      let r = Link.rx_task env.rx w.console_link in IsPlugged-console_works w junk r.0 r.1 v
  IsPlugged-step w (portal_works now) u v =
      let r = Link.rx_task env.rx w.portal_link in IsPlugged-portal_works w now r.0 r.1 v
  IsPlugged-step w (console_polls tud t) u v =
      elim (Option-cases (env.console.items.receive w.console.in_q)) [
        | inl e ↦ rw (step, e) v
        | inr (p, e) ↦ rw (step, e) (IsPlugged-same w _ v refl refl refl)
      ]
  IsPlugged-step w (console_writes now) u v = IsPlugged-same w _ v refl refl refl
  IsPlugged-step w console_mounts u v = IsPlugged-same w _ v refl refl refl
  IsPlugged-step w (console_beats now) u v = IsPlugged-same w _ v refl refl refl
  IsPlugged-step w (portal_beats now) u v = IsPlugged-same w _ v refl refl refl
  IsPlugged-step w portal_backs_up u v = IsPlugged-same w _ v refl refl refl
  IsPlugged-step w portal_restores u v = record {
    dev = v.dev;
    connected_to = v.connected_to;
    handled =
        Handled-calls w.host v.dev (do_restore env.nvs w.portal w.store).1 w.transferred w.outcomes
          v.connected_to v.handled;
  }

  IsPlugged-run :
      (es : List Event) (w : World env.nvs.Store)
      → StaysPlugged es
      → IsPlugged w
      → IsPlugged (run env w es)
  unfolding run
  IsPlugged-run [] w u v = v
  IsPlugged-run (e ∷ es) w u v = IsPlugged-run es (step env w e) u.1 (IsPlugged-step w e u.0 v)

-- No transfer of the program lies past the end of its buffer.
Reaches-Sent :
    (commanded : List (List ℕ)) (pressed : List Press) (ts : List (Option (List ℕ)))
    (os : List Outcome)
    → All (Sent commanded pressed) ts
    → Pairwise Handled ts os
    → Pairwise Reaches ts os
Reaches-Sent commanded pressed [] [] sent v = tt
Reaches-Sent commanded pressed [] (o ∷ os) sent v = absurd v
Reaches-Sent commanded pressed (t ∷ ts) [] sent v = absurd v
Reaches-Sent commanded pressed (t ∷ ts) (o ∷ os) sent (inr r, v) =
    (r, Reaches-Sent commanded pressed ts os sent.1 v)
Reaches-Sent commanded pressed (t ∷ ts) (o ∷ os) sent (inl e, v) = absurd (is_some sent.0 e)
  where
    differ : {bytes : List ℕ} → none ≡ some bytes → ⊥
    differ e = cc

    is_some : {t : Option (List ℕ)} → Sent commanded pressed t → t ≡ none → ⊥
    is_some (of_console c r m cut f) e = differ (sym e ∙ f)
    is_some (of_restore press bytes m h f) e = differ (sym e ∙ f)

module _ (env : Env) (store : env.nvs.Store) (dev : ℕ) where
  -- Both boards just started, and a portal plugged in.
  abbrev pub plugged : World env.nvs.Store
  plugged = step env (start env store) (usb (connected dev true true))

  -- When a portal is plugged in at the start of both boards and is not unplugged, then, whatever else happens
  -- on them and in the air, every transfer so far has gone to a device, with exactly the bytes that were
  -- handed over, and there has been no other.
  pub run-Reaches :
      (es : List Event)
      → StaysPlugged es
      → let w = run env plugged es in Pairwise Reaches w.transferred w.outcomes
  unfolding step TunnelHost.step iface_cb device_cb
  run-Reaches es u =
      let w = run env plugged es in
      Reaches-Sent w.commanded w.pressed w.transferred w.outcomes
        (FromConsole-run env es plugged (
          FromConsole-step env (start env store) (usb (connected dev true true))
            (start-FromConsole env store))).sent
        (IsPlugged-run env es plugged u
          (record { dev = dev; connected_to = refl; handled = tt })).handled
