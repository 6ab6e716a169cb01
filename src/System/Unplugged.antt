-- ===== src/System/Unplugged.antt =====
-- Both boards and the radio, when portal-side/src/tunnel_host.c has no portal: what becomes of a write.
use wireless_skyportal_conne.Prelude.{
  ℕ, ◌^◌, ◌<◌, ◌≤◌, ◌≡◌, refl, ap, ◌∙◌, true, List, [], ◌∷◌, ◌++◌, none, some, length,
}
use wireless_skyportal_conne.Frame.{
  hdr_init, hdr_at, tunnel_bytes, ack_bytes, link_t_ack, link_t_tun_write, link_ok,
}
use wireless_skyportal_conne.Link.{RxItem}
use wireless_skyportal_conne.SharedLink.Running.{IsRunning}
use wireless_skyportal_conne.Portal.{Call, link_send, tunnel_host_send, tunnel_host_send_out}
use wireless_skyportal_conne.Portal
use wireless_skyportal_conne.Portal.Deliver.{on_link_recv_delivers}
use wireless_skyportal_conne.TunnelHost.{
  Host, iface_cb, device_cb, input_report, disconnected, connected, other, set_report,
  output_report,
}
use wireless_skyportal_conne.TunnelHost
use wireless_skyportal_conne.System.World.{Env, World, portal_gets, portal_works, step}
use wireless_skyportal_conne.System.Sends.{failed, outcomes_of, frames_of, send_all}
use wireless_skyportal_conne.System.Hops.{portal_takes, send-linked}

-- A write of at most 243 bytes that the portal's side takes from its queue while it is linked and no portal
-- is connected: the transfer fails, and the ACK goes out all the same, with its status `LINK_OK`.
pub ack-failed :
    (env : Env) (w : World env.nvs.Store) (item : RxItem) (q : List RxItem) (seq : ℕ)
    (bytes rest : List ℕ)
    → w.host.dev ≡ none
    → w.portal_link.linked ≡ true
    → IsRunning w.portal_link (item ∷ q)
    → item.bytes ≡ tunnel_bytes (hdr_init link_t_tun_write seq) (length bytes) bytes ++ rest
    → length bytes ≤ 243
    → seq < 2 ^ 16
    → let w' = step env w (portal_works 0) in
      (w'.outcomes ≡ failed ∷ w.outcomes)
      × (w'.to_console ≡ ack_bytes (hdr_init link_t_ack 0) seq link_ok ∷ w.to_console)
unfolding portal_gets TunnelHost.tunnel_host_send
ack-failed env w item q seq bytes rest unplugged linked runs e h k =
    let calls =
      (Portal.on_link_recv env.backups w.portal 0 (hdr_at item.bytes).type item.bytes).1 in
    let ack = ack_bytes (hdr_init link_t_ack 0) seq link_ok in
    let sent : calls ≡ tunnel_host_send (some bytes) ∷ link_send ack ∷ [] =
      ap (λ b. (Portal.on_link_recv env.backups w.portal 0 (hdr_at b).type b).1) e
      ∙ (on_link_recv_delivers env.backups w.portal 0 seq bytes rest h k).2 in
    let takes = portal_takes env w item q runs in
    let l = record w.portal_link { rx_q = some q } in
    (
      ap (λ s. s.outcomes) takes
          ∙ ap (λ c. outcomes_of w.host c ++ w.outcomes) sent
          ∙ rw unplugged refl,
      ap (λ s. s.to_console) takes
          ∙ ap (λ c. send_all l (frames_of c) ++ w.to_console) sent
          ∙ ap (λ fs. fs ++ w.to_console) (send-linked l ack linked),
    )
