-- ===== src/Console/Gate.antt =====
-- From a (re)connection of the console until it activates the portal, no status report is queued.
use wireless_skyportal_conne.Prelude.{
  ℕ, ◌+◌, ◌%◌, ◌^◌, ◌≤◌, ◌≡◌, refl, arith, sym, subst, ◌∙◌, Bool, true, false, ◌&&◌, not, List, [],
  ◌∷◌, ◌==◌, ltb, leb, if◌then◌else◌, length, take, set, slice, Bool-cases, inl, inr,
}
use wireless_skyportal_conne.Sky.{byte, sky_cmd_ready, sky_cmd_activate, sky_cmd_status}
use wireless_skyportal_conne.Frame.{
  link_t_tun_in, link_t_ack, sizeof_hdr, sizeof_ack, tunnel_data, tunnel_len, ack_seq_at,
}
use wireless_skyportal_conne.Rtos.{receive_cases}
use wireless_skyportal_conne.Console.{
  Console, Item, Apis, item_of, item_size, write_q_length, queue_local, on_link_recv, on_mount,
  min_of, is_tag_write, answer, set_report,
}
use wireless_skyportal_conne.Console.Log.{dlog, lost_text}
use wireless_skyportal_conne.Console.Writer.{Wait, write_round, write_loop, attempts}
use wireless_skyportal_conne.Console.Events.{
  Event, from_link, from_host, mounts, tx_takes, writer_takes, activates, step, run, NoneActivates,
}
use wireless_skyportal_conne.Console.Quiet.{
  NoStatus, HasAnswers, IsQuiet, queue_local-IsQuiet, IsQuiet-same, on_tun_in-IsQuiet,
  first_of-take, second-set,
}

module _ (api : Apis) where
  answer-IsQuiet :
      (s : Console) (junk buffer : List ℕ)
      → IsQuiet s
      → (leb 2 (length buffer) && byte buffer 0 == sky_cmd_activate && not (byte buffer 1 == 0))
        ≡ false
      → IsQuiet (answer api s junk buffer)
  unfolding answer
  answer-IsQuiet s junk buffer v h = elim (Bool-cases (byte buffer 0 == sky_cmd_ready)) [
    | inl e ↦ rw e (
        queue_local-IsQuiet api s junk (take s.ready_len s.ready_resp) v (
          first_of-take s.ready_len s.ready_resp sky_cmd_status
            (λ g. absurd (omega (arith, g, v.answers.ready))) (λ g. cc)))
    | inr e ↦ elim (Bool-cases (byte buffer 0 == sky_cmd_activate)) [
      | inr f ↦ rw (e, f) v
      | inl f ↦ elim (Bool-cases (leb 2 (length buffer))) [
        | inl g ↦ rw (e, f, g) (activated (not (byte buffer 1 == 0)) (flag g f h))
        | inr g ↦ rw (e, f, g) (from s v)
      ]
    ]
  ]
    where
      flag :
          leb 2 (length buffer) ≡ true
          → (byte buffer 0 == sky_cmd_activate) ≡ true
          → (leb 2 (length buffer) && byte buffer 0 == sky_cmd_activate && not (byte buffer 1 == 0))
            ≡ false
          → not (byte buffer 1 == 0) ≡ false
      flag g f h = ground arith

      from :
          (s : Console) → IsQuiet s → IsQuiet (queue_local api s junk (take s.act_len s.act_resp))
      from s v = queue_local-IsQuiet api s junk (take s.act_len s.act_resp) v (
          first_of-take s.act_len s.act_resp sky_cmd_status
            (λ g. absurd (omega (arith, g, v.answers.act))) (λ g. cc))

      activated :
          (on : Bool)
          → on ≡ false
          → let s' = record s {
            act_resp = set s.act_resp 1 (byte buffer 1);
            console_active = on;
          } in
            IsQuiet (queue_local api s' junk (take s'.act_len s'.act_resp))
      activated on e =
          from (record s { act_resp = set s.act_resp 1 (byte buffer 1); console_active = on })
            (record {
              inactive = e;
              queue = v.queue;
              no_status = v.no_status;
              answers = record {
                ready = v.answers.ready;
                act = second-set s.act_resp (byte buffer 1) ∙ v.answers.act;
              };
            })

  linked-IsQuiet :
      (s : Console) (junk : List ℕ) (type : ℕ) (frame : List ℕ) (len : ℕ)
      → IsQuiet s
      → IsQuiet (on_link_recv api s junk type frame len)
  unfolding on_link_recv
  linked-IsQuiet s junk type frame len v =
      elim (Bool-cases (type == link_t_tun_in && leb (sizeof_hdr + 1) len)) [
        | inl e ↦ rw e (
            on_tun_in-IsQuiet api s junk
              (slice frame tunnel_data (min_of item_size (tunnel_len frame))) v)
        | inr e ↦ elim (Bool-cases (type == link_t_ack && leb sizeof_ack len)) [
          | inl f ↦
              rw (e, f)
                (IsQuiet-same s
                  (record s {
                    acked_seq = ack_seq_at frame;
                    ack_sem = (api.sem.send 1 s.ack_sem tt).1;
                  })
                  v (refl, refl, refl, refl))
          | inr f ↦ rw (e, f) v
        ]
      ]

  set_report-IsQuiet :
      (s : Console) (junk : List ℕ) (report_id : ℕ) (buffer : List ℕ)
      → IsQuiet s
      → activates (from_host junk report_id buffer) ≡ false
      → IsQuiet (set_report api s junk report_id buffer).0
  unfolding set_report
  set_report-IsQuiet s junk report_id buffer v h = elim (Bool-cases (report_id == 0xEE)) [
    | inl e ↦ rw e (
        IsQuiet-same s (record s { sound_pkts = (s.sound_pkts + 1) % 2 ^ 32 }) v
          (refl, refl, refl, refl))
    | inr e ↦ elim (Bool-cases (ltb (length buffer) 1)) [
      | inl f ↦ rw (e, f) v
      | inr f ↦ elim (Bool-cases (is_tag_write buffer)) [
        | inl g ↦
            rw (e, f, g)
              (IsQuiet-same s
                (record s {
                  write_q =
                      (api.items.send write_q_length s.write_q
                        (item_of junk (take (min_of item_size (length buffer)) buffer))).1;
                })
                v (refl, refl, refl, refl))
        | inr g ↦ rw (e, f, g) (answer-IsQuiet s junk buffer v (passive e h))
      ]
    ]
  ]
    where
      passive :
          (report_id == 0xEE) ≡ false
          → activates (from_host junk report_id buffer) ≡ false
          → (leb 2 (length buffer) && byte buffer 0 == sky_cmd_activate && not (byte buffer 1 == 0))
            ≡ false
      passive e h = ground arith

  taken-IsQuiet : (s : Console) → IsQuiet s → IsQuiet (step api s tx_takes)
  unfolding step
  taken-IsQuiet s v = elim (receive_cases api.items s.in_q) [
    | inl e ↦ rw (step, e) v
    | inr (it, rest, e, q) ↦
        rw (step, e)
          (record {
            inactive = v.inactive;
            queue = ground (arith, v.queue, q);
            no_status = (subst NoStatus q v.no_status).1;
            answers = record { ready = v.answers.ready; act = v.answers.act };
          })
  ]

  dlog-IsQuiet : (s : Console) (text : List ℕ) → IsQuiet s → IsQuiet (dlog s text)
  unfolding dlog
  dlog-IsQuiet s text v = record {
    inactive = v.inactive;
    queue = v.queue;
    no_status = v.no_status;
    answers = record { ready = v.answers.ready; act = v.answers.act };
  }

  write_round-IsQuiet :
      (s : Console) (w : Item) (waits : ℕ → Wait) (now : ℕ)
      → IsQuiet s
      → IsQuiet (write_round s w waits now).0
  unfolding write_round
  write_round-IsQuiet s w waits now v = either (write_loop waits attempts 0 s.write_seq w).1 (
      IsQuiet-same s
        (record s {
          write_seq = (s.write_seq + 1) % 2 ^ 16;
          writes = (s.writes + 1) % 2 ^ 32;
          last_write_ms = now;
        })
        v (refl, refl, refl, refl))
    where
      either :
          {t : Console} (acked : Bool)
          → IsQuiet t
          → IsQuiet (if acked then t else dlog t (lost_text s.write_seq))
      either true u = u
      either {t} false u = dlog-IsQuiet t (lost_text s.write_seq) u

  on_mount-IsQuiet : (s : Console) → HasAnswers s → IsQuiet (on_mount api s)
  unfolding on_mount
  on_mount-IsQuiet s v = record {
    inactive = refl;
    queue = subst (λ q. length q ≤ 48) (sym (api.items.reset_lem s.in_q)) (omega arith);
    no_status = subst NoStatus (sym (api.items.reset_lem s.in_q)) tt;
    answers = record { ready = v.ready; act = v.act };
  }

  step-IsQuiet :
      (s : Console) (e : Event) → IsQuiet s → activates e ≡ false → IsQuiet (step api s e)
  unfolding step on_mount
  step-IsQuiet s (from_link junk type frame len) v h = linked-IsQuiet s junk type frame len v
  step-IsQuiet s (from_host junk report_id buffer) v h =
      set_report-IsQuiet s junk report_id buffer v h
  step-IsQuiet s mounts v h = on_mount-IsQuiet s v.answers
  step-IsQuiet s tx_takes v h = taken-IsQuiet s v
  step-IsQuiet s (writer_takes waits now) v h = elim (receive_cases api.items s.write_q) [
    | inl e ↦ rw (step, e) v
    | inr (w, rest, e, q) ↦
        rw (step, e)
          (write_round-IsQuiet (record s { write_q = rest }) w waits now
            (IsQuiet-same s (record s { write_q = rest }) v (refl, refl, refl, refl)))
  ]

  run-IsQuiet :
      (s : Console) (events : List Event)
      → IsQuiet s
      → NoneActivates events
      → IsQuiet (run api s events)
  unfolding run
  run-IsQuiet s [] v h = v
  run-IsQuiet s (e ∷ es) v h = run-IsQuiet (step api s e) es (step-IsQuiet s e v h.0) h.1

  -- From a mount or an unmount of the console on, through any frames from the link, reports of the
  -- console, further mounts and rounds of the two tasks, as long as none of those reports is an
  -- Activate with a flag other than 0: the portal counts as not activated, the queue to the console
  -- holds at most 48 reports and no status report among them, and the two learned answers still begin
  -- with 'R' and 'A', if they did before.
  pub run-on_mount :
      (s : Console) (events : List Event)
      → HasAnswers s
      → NoneActivates events
      → IsQuiet (run api (on_mount api s) events)
  run-on_mount s events v h = run-IsQuiet (on_mount api s) events (on_mount-IsQuiet s v) h
