-- ===== src/System/Sends.antt =====
-- What a handler's calls are for the rest of both boards: frames that go out, bytes that are handed over for
-- the real portal, and what comes of them.
use wireless_skyportal_conne.Prelude.{ℕ, zero, suc, List, [], ◌∷◌, ◌++◌, Option, none, some, ℤ}
use wireless_skyportal_conne.Link.{Link, RxItem, Arrival, PeerApi, link_init}
use wireless_skyportal_conne.Link
use wireless_skyportal_conne.Portal.{Call, link_send, tunnel_host_send, tunnel_host_send_out}
use wireless_skyportal_conne.TunnelHost.{Host, set_report, output_report, on_in, close}
use wireless_skyportal_conne.TunnelHost

-- What came of a transfer to the real portal: `ESP_FAIL`, a call of the HID driver, or one with what lies past
-- the end of the buffer.
pub data Outcome : Type 0 where
  failed : Outcome
  performed : (call : TunnelHost.Call) → Outcome
  past_end : Outcome

abbrev pub frame_at : List (List ℕ) → ℕ → Option (List ℕ)
frame_at [] i = none
frame_at (f ∷ fs) zero = some f
frame_at (f ∷ fs) (suc i) = frame_at fs i

-- The frames that go out of a board: those of its calls of `link_send`, if it is linked.
abbrev pub send_one : Link → List ℕ → List (List ℕ)
send_one l frame = elim (Link.link_send l frame) [ none ↦ [] | some sent ↦ sent.bytes ∷ [] ]

abbrev pub send_all : Link → List (List ℕ) → List (List ℕ)
send_all l [] = []
send_all l (frame ∷ frames) = send_one l frame ++ send_all l frames

abbrev pub frames_of : List Call → List (List ℕ)
frames_of [] = []
frames_of (link_send frame ∷ calls) = frame ∷ frames_of calls
frames_of (tunnel_host_send bytes ∷ calls) = frames_of calls
frames_of (tunnel_host_send_out bytes ∷ calls) = frames_of calls

abbrev pub transfers_of : List Call → List (Option (List ℕ))
transfers_of [] = []
transfers_of (link_send frame ∷ calls) = transfers_of calls
transfers_of (tunnel_host_send bytes ∷ calls) = bytes ∷ transfers_of calls
transfers_of (tunnel_host_send_out bytes ∷ calls) = bytes ∷ transfers_of calls

-- A handler's calls before older ones, the newest first.
abbrev pub newest_first : List Call → List Call → List Call
newest_first [] older = older
newest_first (call ∷ calls) older = newest_first calls (call ∷ older)

-- The report that the callback of the USB host gets.
abbrev pub report_of : List TunnelHost.Call → Option (List ℕ)
report_of [] = none
report_of (on_in report ∷ calls) = some report
report_of (close dev ∷ calls) = report_of calls
report_of (set_report dev bytes ∷ calls) = report_of calls
report_of (output_report dev bytes ∷ calls) = report_of calls

-- `tunnel_host_send` or `tunnel_host_send_out`, with those bytes.
abbrev pub outcome : (List ℕ → Option TunnelHost.Call) → Option (List ℕ) → Outcome
outcome send none = past_end
outcome send (some bytes) = elim (send bytes) [ none ↦ failed | some call ↦ performed call ]

abbrev pub outcomes_of : Host → List Call → List Outcome
outcomes_of h [] = []
outcomes_of h (link_send frame ∷ calls) = outcomes_of h calls
outcomes_of h (tunnel_host_send bytes ∷ calls) =
    outcome (TunnelHost.tunnel_host_send h) bytes ∷ outcomes_of h calls
outcomes_of h (tunnel_host_send_out bytes ∷ calls) =
    outcome (TunnelHost.tunnel_host_send_out h) bytes ∷ outcomes_of h calls

abbrev pub arrival : List ℕ → Option ℤ → List ℕ → Arrival
arrival mac strength frame = record { src_addr = mac; rx_ctrl = strength; bytes = frame }
