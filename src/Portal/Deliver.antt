-- ===== src/Portal/Deliver.antt =====
-- What `on_link_recv` does with the frames of the console: the transfers and the answer.
use wireless_skyportal_conne.Prelude.{
  ℕ, ◌^◌, ◌<◌, ◌≤◌, ◌≡◌, arith, ap, ap₂, List, [], ◌∷◌, ◌++◌, length, none, some,
}
use wireless_skyportal_conne.Frame.{
  hdr_init, hdr_at, tunnel_bytes, tunnel_len, tunnel_payload, ack_bytes, link_t_tun_out,
  link_t_tun_outep, link_t_tun_write, link_t_ack, link_ok,
}
use wireless_skyportal_conne.Frame.Wire.{tunnel_payload-tunnel_bytes}
use wireless_skyportal_conne.Rtos.{QueueApi}
use wireless_skyportal_conne.Portal.{
  Portal, link_send, tunnel_host_send, tunnel_host_send_out, on_write, on_link_recv,
}

module _ (api : QueueApi (List ℕ)) where
  -- Of a frame that carries a report of up to 243 bytes, and lies in a buffer with any bytes after it:
  -- a command goes to the portal's control endpoint and audio to its OUT endpoint, byte for byte; a
  -- write goes to the control endpoint, and is then acknowledged under the number of its frame.
  pub on_link_recv_delivers :
      (p : Portal) (now seq : ℕ) (report rest : List ℕ)
      → length report ≤ 243
      → seq < 2 ^ 16
      → ((on_link_recv api p now link_t_tun_out
            (tunnel_bytes (hdr_init link_t_tun_out seq) (length report) report ++ rest)).1
          ≡ tunnel_host_send (some report) ∷ [])
        × ((on_link_recv api p now link_t_tun_outep
              (tunnel_bytes (hdr_init link_t_tun_outep seq) (length report) report ++ rest)).1
            ≡ tunnel_host_send_out (some report) ∷ [])
        × ((on_link_recv api p now link_t_tun_write
              (tunnel_bytes (hdr_init link_t_tun_write seq) (length report) report ++ rest)).1
            ≡ tunnel_host_send (some report)
              ∷ link_send (ack_bytes (hdr_init link_t_ack 0) seq link_ok)
              ∷ [])
  unfolding on_link_recv on_write
  on_link_recv_delivers p now seq report rest h k = (
    ap (λ t. tunnel_host_send t ∷ [])
        (tunnel_payload-tunnel_bytes (hdr_init link_t_tun_out seq) report rest),
    ap (λ t. tunnel_host_send_out t ∷ [])
        (tunnel_payload-tunnel_bytes (hdr_init link_t_tun_outep seq) report rest),
    ap₂ (λ t s. tunnel_host_send t ∷ link_send (ack_bytes (hdr_init link_t_ack 0) s link_ok) ∷ [])
        (tunnel_payload-tunnel_bytes (hdr_init link_t_tun_write seq) report rest) seq_read,
  )
    where
      seq_read :
          (hdr_at (tunnel_bytes (hdr_init link_t_tun_write seq) (length report) report ++ rest)).seq
          ≡ seq
      seq_read = omega arith

  -- A frame of the receive queue, of 250 bytes, whose length byte is above 243 makes the transfer of a
  -- command, of audio or of a write read past the end of the frame's buffer.
  pub on_link_recv_overreads :
      (p : Portal) (now : ℕ) (frame : List ℕ)
      → length frame ≡ 250
      → 243 < tunnel_len frame
      → ((on_link_recv api p now link_t_tun_out frame).1 ≡ tunnel_host_send none ∷ [])
        × ((on_link_recv api p now link_t_tun_outep frame).1 ≡ tunnel_host_send_out none ∷ [])
        × ((on_link_recv api p now link_t_tun_write frame).1
            ≡ tunnel_host_send none
              ∷ link_send (ack_bytes (hdr_init link_t_ack 0) (hdr_at frame).seq link_ok)
              ∷ [])
  unfolding on_link_recv on_write
  on_link_recv_overreads p now frame l h = (
    ap (λ t. tunnel_host_send t ∷ []) over,
    ap (λ t. tunnel_host_send_out t ∷ []) over,
    ap
        (λ t.
          tunnel_host_send t
          ∷ link_send (ack_bytes (hdr_init link_t_ack 0) (hdr_at frame).seq link_ok)
          ∷ [])
        over,
  )
    where
      over : tunnel_payload frame (tunnel_len frame) ≡ none
      over = unfold tunnel_payload in ground arith
