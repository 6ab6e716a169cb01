-- ===== src/System/Reads.antt =====
-- The reports that portal-side/src/tunnel_host.c passes on.
use wireless_skyportal_conne.Prelude.{
  ℕ, ◌≤◌, ◌≡◌, refl, arith, ap, sym, ◌∙◌, List, some, none, length, leb, ◌&&◌, Bool-cases, inl, inr,
}
use wireless_skyportal_conne.TunnelHost.{
  Host, Event, iface_cb, input_report, disconnected, connected, other,
}
use wireless_skyportal_conne.TunnelHost
use wireless_skyportal_conne.System.World.{IsRead}
use wireless_skyportal_conne.System.Sends.{report_of}

-- A report that is passed on has been read, is not empty, and has at most 64 bytes.
pub report_of-step :
    (h : Host) (e : Event) (r : List ℕ)
    → report_of (TunnelHost.step h e).1 ≡ some r
    → IsRead e
    → (1 ≤ length r) × (length r ≤ 64)
unfolding TunnelHost.step iface_cb
report_of-step h (input_report none) r f read = absurd cc
report_of-step h (input_report (some report)) r f read =
    elim (Bool-cases (leb 1 (length report) && h.has_on_in)) [
      | inl e ↦ let same : report ≡ r = cc in ground (arith, same, ap length same, e, read)
      | inr e ↦ absurd (differ (sym (rw e refl) ∙ f))
    ]
  where
    differ : {r : List ℕ} → none ≡ some r → ⊥
    differ e = cc
report_of-step h (disconnected dev) r f read = absurd cc
report_of-step h (connected dev opened started) r f read = absurd cc
report_of-step h other r f read = absurd cc
