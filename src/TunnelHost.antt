-- ===== src/TunnelHost.antt =====
-- portal-side/src/tunnel_host.c: the USB host of the real portal. What the HID driver answers is part of
-- its events; a callback returns the new statics and what it does with its report or its device.
use wireless_skyportal_conne.Prelude.{
  ℕ, ◌≡◌, refl, ap, ap₂, Bool, true, false, ◌&&◌, not, List, [], ◌∷◌, ◌++◌, if◌then◌else◌, length,
  leb, Option, none, some, Bool-cases, inl, inr,
}

-- `dev` is the handle, `none` for NULL, and `has_on_in` whether there is a callback for reports.
pub record Host : Type 0 where
  pub dev : Option ℕ
  pub connected : Bool
  pub has_on_in : Bool

-- `start` after `tunnel_host_init(on_in)`
abbrev pub started : Bool → Host
started has_on_in = record { dev = none; connected = false; has_on_in = has_on_in }

-- An event of an interface, with the bytes that `hid_host_device_get_raw_input_report_data` reads (64 at
-- most), `none` if it fails, or of the driver, with the answers of `hid_host_device_open` and of
-- `hid_host_device_start`.
pub data Event : Type 0 where
  input_report : (read : Option (List ℕ)) → Event
  disconnected : (dev : ℕ) → Event
  connected : (dev : ℕ) (opened started : Bool) → Event
  other : Event

-- `hid_class_request_set_report` on a device and `hid_host_device_output_report` on its endpoint 2, the
-- callback for reports, and `hid_host_device_close`.
pub data Call : Type 0 where
  set_report : (dev : ℕ) → List ℕ → Call
  output_report : (dev : ℕ) → List ℕ → Call
  on_in : List ℕ → Call
  close : (dev : ℕ) → Call

unfoldable pub iface_cb : Host → Event → Host × List Call
iface_cb s (input_report none) = (s, [])
iface_cb s (input_report (some data')) =
    if leb 1 (length data') && s.has_on_in then (s, on_in data' ∷ []) else (s, [])
iface_cb s (disconnected dev) = (record s { connected = false; dev = none }, close dev ∷ [])
iface_cb s (connected dev opened started) = (s, [])
iface_cb s other = (s, [])

unfoldable pub device_cb : Host → Event → Host
device_cb s (connected dev opened started) =
    if not opened
    then s
    else if not started
    then s
    else record s { dev = some dev; connected = true }
device_cb s (input_report read) = s
device_cb s (disconnected dev) = s
device_cb s other = s

-- Each event is one of the interface or of the driver, and the other callback ignores it.
unfoldable pub step : Host → Event → Host × List Call
step s e = let r = iface_cb s e in (device_cb r.0 e, r.1)

unfoldable pub run : Host → List Event → Host × List Call
run s [] = (s, [])
run s (e ∷ es) = let r = step s e in let rest = run r.0 es in (rest.0, r.1 ++ rest.1)

abbrev pub tunnel_host_connected : Host → Bool
tunnel_host_connected s = s.connected

-- `none` is the `ESP_FAIL` of a NULL handle. Else the call is made, and what the driver answers, which is
-- what the function then returns, is not modelled.
unfoldable pub tunnel_host_send : Host → List ℕ → Option Call
tunnel_host_send s buf = elim s.dev [ none ↦ none | some dev ↦ some (set_report dev buf) ]

unfoldable pub tunnel_host_send_out : Host → List ℕ → Option Call
tunnel_host_send_out s buf = elim s.dev [ none ↦ none | some dev ↦ some (output_report dev buf) ]

-- The device that transfers go to after some events, `dev` before them: that of the last connection that
-- was opened and started, and none after a disconnection, of whichever device.
abbrev pub device_after : Option ℕ → List Event → Option ℕ
device_after dev [] = dev
device_after dev (connected d true true ∷ es) = device_after (some d) es
device_after dev (connected d true false ∷ es) = device_after dev es
device_after dev (connected d false started ∷ es) = device_after dev es
device_after dev (disconnected d ∷ es) = device_after none es
device_after dev (input_report read ∷ es) = device_after dev es
device_after dev (other ∷ es) = device_after dev es

-- The reports that can be passed on: those read, and not empty.
abbrev pub report_of : Event → List Call
report_of (input_report none) = []
report_of (input_report (some data')) = if leb 1 (length data') then on_in data' ∷ [] else []
report_of (disconnected dev) = close dev ∷ []
report_of (connected dev opened started) = []
report_of other = []

abbrev pub reports : List Event → List Call
reports [] = []
reports (e ∷ es) = report_of e ++ reports es

-- The handle is that device, and the flag says whether there is one.
abbrev Holds : Host → Option ℕ → Type 0
Holds s dev = (s.dev ≡ dev) × (s.connected ≡ elim dev [ none ↦ false | some d ↦ true ])

run-Holds :
    (s : Host) (es : List Event) (dev : Option ℕ)
    → Holds s dev
    → Holds (run s es).0 (device_after dev es)
unfolding run step iface_cb device_cb
run-Holds s [] dev h = h
run-Holds s (input_report none ∷ es) dev h = run-Holds s es dev h
run-Holds s (input_report (some d) ∷ es) dev h =
    elim (Bool-cases (leb 1 (length d) && s.has_on_in)) [
      | inl e ↦ rw e (run-Holds s es dev h)
      | inr e ↦ rw e (run-Holds s es dev h)
    ]
run-Holds s (disconnected d ∷ es) dev h =
    run-Holds (record s { connected = false; dev = none }) es none (refl, refl)
run-Holds s (connected d true true ∷ es) dev h =
    run-Holds (record s { dev = some d; connected = true }) es (some d) (refl, refl)
run-Holds s (connected d true false ∷ es) dev h = run-Holds s es dev h
run-Holds s (connected d false started ∷ es) dev h = run-Holds s es dev h
run-Holds s (other ∷ es) dev h = run-Holds s es dev h

step_calls :
    (s : Host) (e : Event)
    → s.has_on_in ≡ true
    → ((step s e).1 ≡ report_of e) × ((step s e).0.has_on_in ≡ true)
unfolding step iface_cb device_cb
step_calls s (input_report none) h = (refl, h)
step_calls s (input_report (some d)) h = elim (Bool-cases (leb 1 (length d))) [
  | inl e ↦ rw (e, h) (refl, refl)
  | inr e ↦ rw e (refl, h)
]
step_calls s (disconnected d) h = (refl, h)
step_calls s (connected d true true) h = (refl, h)
step_calls s (connected d true false) h = (refl, h)
step_calls s (connected d false started) h = (refl, h)
step_calls s other h = (refl, h)

-- After any events since the start, a report for the real portal goes, with its bytes as they are, to
-- the device of the last connection that was opened and started, if there was one and no device has
-- been disconnected since; else no call is made and `ESP_FAIL` comes back. The board counts as
-- connected exactly in the first case.
pub sends-run :
    (has_on_in : Bool) (es : List Event) (buf : List ℕ)
    → let s = (run (started has_on_in) es).0 in
      let dev = device_after none es in
      (tunnel_host_send s buf ≡ elim dev [ none ↦ none | some d ↦ some (set_report d buf) ])
      × (tunnel_host_send_out s buf
          ≡ elim dev [ none ↦ none | some d ↦ some (output_report d buf) ])
      × (tunnel_host_connected s ≡ elim dev [ none ↦ false | some d ↦ true ])
unfolding tunnel_host_send tunnel_host_send_out
sends-run has_on_in es buf =
    let (held, flag) = run-Holds (started has_on_in) es none (refl, refl) in
    (
      ap (λ dev. elim dev [ none ↦ none | some d ↦ some (set_report d buf) ]) held,
      ap (λ dev. elim dev [ none ↦ none | some d ↦ some (output_report d buf) ]) held,
      flag,
    )

-- With a callback, exactly the reports that are read and not empty are passed on, in their order, and
-- every disconnection closes its device.
calls-run : (s : Host) (es : List Event) → s.has_on_in ≡ true → (run s es).1 ≡ reports es
unfolding run
calls-run s [] h = refl
calls-run s (e ∷ es) h =
    let now = step_calls s e h in ap₂ (λ a b. a ++ b) now.0 (calls-run (step s e).0 es now.1)
