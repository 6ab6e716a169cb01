-- ===== src/System/Tunnel.antt =====
-- A report through both boards, console-side/src/main.c to portal-side/src/main.c and back.
use wireless_skyportal_conne.Prelude.{
  ℕ, ◌+◌, ◌%◌, ◌≤◌, ◌≡◌, arith, ap, ◌∙◌, false, ◌&&◌, ◌||◌, not, List, [], ◌∷◌, ◌++◌, ◌==◌, ltb,
  if◌then◌else◌, length, take, take_all, some, Bool-cases, inl, inr,
}
use wireless_skyportal_conne.Sky.{byte, sky_cmd_ready, sky_cmd_activate, sky_cmd_status}
use wireless_skyportal_conne.Frame.{
  hdr_init, hdr_at, tunnel_bytes, link_t_tun_in, link_t_tun_out, link_t_tun_outep,
}
use wireless_skyportal_conne.Rtos.{QueueApi}
use wireless_skyportal_conne.Console.{
  Console, Apis, on_tun_in, set_report, is_tag_write, tunnelled, min_of,
}
use wireless_skyportal_conne.Console.Tunnel.{
  HasBuffers, waiting, with_newest, answers, on_tun_in_lem, on_link_recv-tun_in,
}
use wireless_skyportal_conne.Portal.{
  Portal, Call, link_send, tunnel_host_send, tunnel_host_send_out, on_portal_in,
}
use wireless_skyportal_conne.Portal.Deliver.{on_link_recv_delivers}

-- What the portal's side does for each of those frames, every one in a buffer with the bytes `rest`
-- after it.
abbrev pub delivered : QueueApi (List ℕ) → Portal → ℕ → List ℕ → List (List ℕ) → List Call
delivered api p now rest [] = []
delivered api p now rest (frame ∷ frames) =
    let r =
      wireless_skyportal_conne.Portal.on_link_recv api p now (hdr_at (frame ++ rest)).type
        (frame ++ rest) in
    r.1 ++ delivered api r.0 now rest frames

tunnelled_lem :
    (type : ℕ) (buffer : List ℕ)
    → length buffer ≤ 200
    → tunnelled type buffer ≡ tunnel_bytes (hdr_init type 0) (length buffer) buffer
unfolding tunnelled
tunnelled_lem type buffer h =
    let small : min_of 200 (length buffer) ≡ length buffer = ground arith in
    let one_byte : length buffer % 256 ≡ length buffer = omega arith in
    rw (small, one_byte, take_all (length buffer) buffer (omega arith))

-- Every report of the console of 1 to 200 bytes, but a tag write, reaches the real portal byte for byte
-- if its frame arrives: audio by its OUT endpoint, and everything else by its control endpoint.
pub set_report_delivers :
    (apis : Apis) (api : QueueApi (List ℕ)) (s : Console) (p : Portal) (junk rest : List ℕ)
    (now report_id : ℕ) (buffer : List ℕ)
    → 1 ≤ length buffer
    → length buffer ≤ 200
    → is_tag_write buffer ≡ false
    → delivered api p now rest (set_report apis s junk report_id buffer).1
      ≡ (if report_id == 0xEE
          then tunnel_host_send_out (some buffer)
          else tunnel_host_send (some buffer))
        ∷ []
unfolding set_report
set_report_delivers apis api s p junk rest now report_id buffer lo hi w =
    elim (Bool-cases (report_id == 0xEE)) [
      | inl e ↦
          rw (e, tunnelled_lem link_t_tun_outep buffer hi)
            (ap (λ c. c ++ [])
              (on_link_recv_delivers api p now 0 buffer rest (omega arith) (omega arith)).1)
      | inr e ↦
          let some_bytes : ltb (length buffer) 1 ≡ false = ground arith in
          rw (e, some_bytes, w, tunnelled_lem link_t_tun_out buffer hi)
            (ap (λ c. c ++ [])
              (on_link_recv_delivers api p now 0 buffer rest (omega arith) (omega arith)).0)
    ]

-- A report of the real portal goes into one frame.
pub on_portal_in_lem :
    (p : Portal) (report : List ℕ)
    → length report ≤ 64
    → (on_portal_in p report).1
      ≡ link_send (tunnel_bytes (hdr_init link_t_tun_in 0) (length report) report) ∷ []
unfolding on_portal_in
on_portal_in_lem p report hi =
    let small : ltb 200 (length report) ≡ false = ground arith in
    let one_byte : length report % 256 ≡ length report = omega arith in
    rw (small, one_byte, take_all (length report) report (omega arith))

-- A report of the real portal of 1 to 64 bytes is sent as one frame. When that arrives, with any bytes
-- after it in the buffer, a reply to Ready or to Activate becomes, byte for byte, the answer that the
-- console's side has for that command, and is not queued; a status report before the console has
-- activated the portal is not queued; and every other report is the newest in the queue to the console,
-- byte for byte, a full queue losing its oldest for it. No other answer changes.
pub on_portal_in_delivers :
    (apis : Apis) (s : Console) (p : Portal) (junk rest report : List ℕ)
    → HasBuffers s
    → 1 ≤ length report
    → length report ≤ 64
    → let ready = byte report 0 == sky_cmd_ready in
      let act = byte report 0 == sky_cmd_activate in
      let held = byte report 0 == sky_cmd_status && not s.console_active in
      (frame : List ℕ) × ((on_portal_in p report).1 ≡ link_send frame ∷ [])
      × (let s' =
            wireless_skyportal_conne.Console.on_link_recv apis s junk
              (hdr_at (frame ++ rest)).type
              (frame ++ rest)
              (length frame) in
          (waiting s'
            ≡ (if ready || act || held then waiting s else with_newest (waiting s) report))
          × (answers s' ≡ (
            if ready then report else take s.ready_len s.ready_resp,
            if act then report else take s.act_len s.act_resp,
          )))
unfolding on_portal_in
on_portal_in_delivers apis s p junk rest report v lo hi =
    let frame = tunnel_bytes (hdr_init link_t_tun_in 0) (length report) report in
    let arrives : wireless_skyportal_conne.Console.on_link_recv apis s junk link_t_tun_in
          (frame ++ rest) (length frame)
        ≡ on_tun_in apis s junk report =
      ap (wireless_skyportal_conne.Console.on_link_recv apis s junk link_t_tun_in (frame ++ rest))
        (size report)
      ∙ on_link_recv-tun_in apis s junk report rest hi in
    let now = on_tun_in_lem apis s junk report v lo hi in
    (frame, on_portal_in_lem p report hi, (ap waiting arrives ∙ now.0, ap answers arrives ∙ now.1))
  where
    size :
        (r : List ℕ) → length (tunnel_bytes (hdr_init link_t_tun_in 0) (length r) r) ≡ 7 + length r
    size r = omega arith
