-- ===== src/System/Reached.antt =====
-- Both boards, the radio and the real portal: a write that console-side/src/main.c counts as acknowledged has
-- been sent to a device by portal-side/src/tunnel_host.c, if one is plugged in throughout.
use wireless_skyportal_conne.Prelude.{
  ℕ, ◌≤◌, refl, sym, subst, true, List, [], ◌∷◌, Option, some, length, inl, inr, Among, All,
  All-map,
}
use wireless_skyportal_conne.Console.{contents}
use wireless_skyportal_conne.Console.Task.{Write}
use wireless_skyportal_conne.TunnelHost.{connected}
use wireless_skyportal_conne.System.World.{Env, Event, usb, run}
use wireless_skyportal_conne.System.Sends.{Outcome}
use wireless_skyportal_conne.System.Up.{Tagged}
use wireless_skyportal_conne.System.Hand.{Delivered}
use wireless_skyportal_conne.System.Delivery.{run-Delivered}
use wireless_skyportal_conne.System.Plugged.{StaysPlugged, Reaches, Pairwise, plugged, run-Reaches}

-- A tag write of the games console whose bytes have gone to a device.
abbrev pub Arrived : List (List ℕ) → List Outcome → Write → Type 0
Arrived commanded outcomes w =
    Tagged commanded w.item × (o : Outcome) × Among o outcomes × Reaches (some (contents w.item)) o

Pairwise-Among :
    (t : Option (List ℕ)) (ts : List (Option (List ℕ))) (os : List Outcome)
    → Pairwise Reaches ts os
    → Among t ts
    → (o : Outcome) × Among o os × Reaches t o
Pairwise-Among t [] [] v m = absurd m
Pairwise-Among t [] (o ∷ os) v m = absurd v
Pairwise-Among t (x ∷ ts) [] v m = absurd v
Pairwise-Among t (x ∷ ts) (o ∷ os) v (inl e) = (o, inl refl, subst (λ s. Reaches s o) (sym e) v.0)
Pairwise-Among t (x ∷ ts) (o ∷ os) v (inr m) =
    let (p, k, r) = Pairwise-Among t ts os v.1 m in (p, inr k, r)

-- When a portal is plugged in at the start of both boards and is not unplugged, then, whatever else happens
-- on them and in the air, while `write_task` has taken no more than 65535 writes in hand, each write that it
-- has found acknowledged is a tag write that the games console has made, and the first 64 bytes of that,
-- exactly these, have gone to a device.
pub run-Arrived :
    (env : Env) (store : env.nvs.Store) (dev : ℕ) (es : List Event)
    → StaysPlugged es
    → let w = run env (plugged env store dev) es in
      length w.begun ≤ 65535 → All (Arrived w.commanded w.outcomes) w.acked
unfolding run
run-Arrived env store dev es u few =
    let w = run env (plugged env store dev) es in
    All-map (Delivered w.commanded w.transferred) (Arrived w.commanded w.outcomes)
      (λ x d.
        let (o, m, r) =
          Pairwise-Among (some (contents x.item)) w.transferred w.outcomes
            (run-Reaches env store dev es u) d.1 in
        (d.0, o, m, r))
      w.acked (run-Delivered env store (usb (connected dev true true) ∷ es) few)
