-- ===== src/Console/Between.antt =====
-- What the handlers and rounds of console-side/src/main.c leave of the learned replies until the next reply
-- of that kind comes in.
use wireless_skyportal_conne.Prelude.{
  ℕ, ◌+◌, ◌%◌, ◌^◌, ◌≤◌, ◌≡◌, refl, arith, ap, ◌∙◌, Bool, true, false, ◌&&◌, List, [], ◌∷◌, ◌==◌,
  leb, if◌then◌else◌, length, length-take, slice, drop, Bool-cases, inl, inr,
}
use wireless_skyportal_conne.Sky.{byte, sky_cmd_ready, sky_cmd_activate}
use wireless_skyportal_conne.Frame.{
  link_t_tun_in, link_t_ack, sizeof_hdr, sizeof_ack, tunnel_data, tunnel_len, ack_seq_at,
}
use wireless_skyportal_conne.Rtos.{receive_cases}
use wireless_skyportal_conne.Console.{
  Console, Item, Apis, item_of, item_size, snoop_in, push_in, on_tun_in, on_link_recv, on_mount,
  min_of,
}
use wireless_skyportal_conne.Console.Log.{dlog, lost_text}
use wireless_skyportal_conne.Console.Writer.{Wait, write_round, write_loop, attempts}
use wireless_skyportal_conne.Console.Tunnel.{HasBuffers}
use wireless_skyportal_conne.Console.Buffers.{HasBuffers-on_tun_in}
use wireless_skyportal_conne.Console.Events.{
  Event, from_link, from_host, mounts, tx_takes, writer_takes, step, run,
}
use wireless_skyportal_conne.Console.Learned.{
  brings, NoneBrings, ready_learned, act_learned, Keeps, Keeps-same, Keeps-set_report, buffers_of,
}

module _ (api : Apis) where
  learned-snoop_in :
      (s : Console) (r : List ℕ) (n : ℕ)
      → (ready_learned (snoop_in s r n) ≡ ready_learned s)
        × (act_learned (snoop_in s r n) ≡ act_learned s)
  unfolding snoop_in
  learned-snoop_in s r n = ground arith

  ready_learned-on_tun_in :
      (s : Console) (junk report : List ℕ)
      → (byte report 0 == sky_cmd_ready) ≡ false
      → ready_learned (on_tun_in api s junk report) ≡ ready_learned s
  unfolding on_tun_in push_in
  ready_learned-on_tun_in s junk report h =
      ground (arith, learned-snoop_in s (item_of junk report).bytes (item_of junk report).len)

  act_learned-on_tun_in :
      (s : Console) (junk report : List ℕ)
      → (byte report 0 == sky_cmd_activate) ≡ false
      → act_learned (on_tun_in api s junk report) ≡ act_learned s
  unfolding on_tun_in push_in
  act_learned-on_tun_in s junk report h =
      ground (arith, learned-snoop_in s (item_of junk report).bytes (item_of junk report).len)

  Keeps-on_tun_in :
      (s : Console) (junk report : List ℕ)
      → HasBuffers s
      → length report ≤ 64
      → Keeps s
          (on_tun_in api s junk report)
          (byte report 0 == sky_cmd_ready)
          (byte report 0 == sky_cmd_activate)
  Keeps-on_tun_in s junk report v hi = record {
    buffers = HasBuffers-on_tun_in api s junk report v hi;
    ready_same = ready_learned-on_tun_in s junk report;
    act_same = act_learned-on_tun_in s junk report;
  }

  Keeps-from_link :
      (s : Console) (junk : List ℕ) (type : ℕ) (frame : List ℕ) (len : ℕ)
      → HasBuffers s
      → Keeps s
          (on_link_recv api s junk type frame len)
          (brings sky_cmd_ready (from_link junk type frame len))
          (brings sky_cmd_activate (from_link junk type frame len))
  unfolding on_link_recv
  Keeps-from_link s junk type frame len v =
      let report = slice frame tunnel_data (min_of item_size (tunnel_len frame)) in
      elim (Bool-cases (type == link_t_tun_in)) [
        | inl e ↦ elim (Bool-cases (leb (sizeof_hdr + 1) len)) [
          | inl f ↦ rw (e, f) (Keeps-on_tun_in s junk report v (short frame))
          | inr f ↦ rw (e, f) (acked (type == link_t_ack && leb sizeof_ack len))
        ]
        | inr e ↦ rw e (acked (type == link_t_ack && leb sizeof_ack len))
      ]
    where
      short : (frame : List ℕ) → length (slice frame 7 (min_of 64 (tunnel_len frame))) ≤ 64
      short frame = ground (arith, length-take (min_of 64 (tunnel_len frame)) (drop 7 frame))

      acked :
          (b : Bool)
          → Keeps s
              (if b
                then record s {
                  acked_seq = ack_seq_at frame;
                  ack_sem = (api.sem.send 1 s.ack_sem tt).1;
                }
                else s)
              false
              false
      acked true = Keeps-same s _ false false v refl
      acked false = Keeps-same s s false false v refl

  Keeps-mount : (s : Console) → HasBuffers s → Keeps s (on_mount api s) false false
  unfolding on_mount
  Keeps-mount s v = record {
    buffers = record {
      ready = v.ready;
      act = v.act;
      queue = rw (api.items.reset_lem s.in_q) (omega arith);
    };
    ready_same = λ h. refl;
    act_same = λ h. refl;
  }

  Keeps-write_round :
      (s t : Console) (w : Item) (waits : ℕ → Wait) (now : ℕ)
      → HasBuffers s
      → buffers_of t ≡ buffers_of s
      → Keeps s (write_round t w waits now).0 false false
  unfolding write_round dlog
  Keeps-write_round s t w waits now v e = either (write_loop waits attempts 0 t.write_seq w).1
    where
      counted : Console
      counted = record t {
        write_seq = (t.write_seq + 1) % 2 ^ 16;
        writes = (t.writes + 1) % 2 ^ 32;
        last_write_ms = now;
      }

      either :
          (acked : Bool)
          → Keeps s (if acked then counted else dlog counted (lost_text t.write_seq)) false false
      either true = Keeps-same s _ false false v e
      either false = Keeps-same s _ false false v e

  Keeps-step :
      (s : Console) (e : Event)
      → HasBuffers s
      → Keeps s (step api s e) (brings sky_cmd_ready e) (brings sky_cmd_activate e)
  unfolding step
  Keeps-step s (from_link junk type frame len) v = Keeps-from_link s junk type frame len v
  Keeps-step s (from_host junk report_id buffer) v = Keeps-set_report api s junk report_id buffer v
  Keeps-step s mounts v = Keeps-mount s v
  Keeps-step s tx_takes v = elim (receive_cases api.items s.in_q) [
    | inl e ↦ rw (step, e) (Keeps-same s s false false v refl)
    | inr (it, rest, e, q) ↦
        rw (step, e)
          (record {
            buffers = record {
              ready = v.ready;
              act = v.act;
              queue = omega (arith, v.queue, ap length q);
            };
            ready_same = λ h. refl;
            act_same = λ h. refl;
          })
  ]
  Keeps-step s (writer_takes waits now) v = elim (receive_cases api.items s.write_q) [
    | inl e ↦ rw (step, e) (Keeps-same s s false false v refl)
    | inr (it, rest, e, q) ↦
        rw (step, e) (Keeps-write_round s (record s { write_q = rest }) it waits now v refl)
  ]

  pub ready_learned-run :
      (s : Console) (es : List Event)
      → HasBuffers s
      → NoneBrings sky_cmd_ready es
      → HasBuffers (run api s es) × (ready_learned (run api s es) ≡ ready_learned s)
  unfolding run
  ready_learned-run s [] v h = (v, refl)
  ready_learned-run s (e ∷ es) v h =
      let now = Keeps-step s e v in
      let rest = ready_learned-run (step api s e) es now.buffers h.1 in
      (rest.0, rest.1 ∙ now.ready_same h.0)

  pub act_learned-run :
      (s : Console) (es : List Event)
      → HasBuffers s
      → NoneBrings sky_cmd_activate es
      → HasBuffers (run api s es) × (act_learned (run api s es) ≡ act_learned s)
  unfolding run
  act_learned-run s [] v h = (v, refl)
  act_learned-run s (e ∷ es) v h =
      let now = Keeps-step s e v in
      let rest = act_learned-run (step api s e) es now.buffers h.1 in
      (rest.0, rest.1 ∙ now.act_same h.0)
