-- ===== src/System/Replies.antt =====
-- What the handlers of console-side/src/main.c add to what the console is shown.
use wireless_skyportal_conne.Prelude.{
  ℕ, ◌+◌, ◌%◌, ◌^◌, ◌≤◌, ◌≡◌, refl, ap, sym, subst, ◌∙◌, Bool, true, false, ◌&&◌, ◌||◌, not, List,
  [], ◌∷◌, ◌==◌, leb, ltb, if◌then◌else◌, length, set, take, drop, length-set, Bool-cases, inl, inr,
  ==_iff, leb→le, Among, All, All-append, All-kept,
}
use wireless_skyportal_conne.Sky.{byte, sky_cmd_ready, sky_cmd_activate, sky_cmd_status}
use wireless_skyportal_conne.Console.{
  Console, Apis, queue_local, push_in, on_tun_in, answer, set_report, is_tag_write,
}
use wireless_skyportal_conne.Console.Tunnel.{HasBuffers, waiting, with_newest, on_tun_in_lem}
use wireless_skyportal_conne.Console.Host.{waiting-queue_local, take-second_set}
use wireless_skyportal_conne.Console.Buffers.{HasBuffers-on_tun_in, HasBuffers-queue_local}
use wireless_skyportal_conne.System.Shown.{
  Reply, built_in_ready, Asked, Flagged, Shown, from_portal, ready_reply, activate_reply, IsHonest,
  IsHonest-same, Flagged-set, short_take,
}

module _ (api : Apis) (commanded reported : List (List ℕ)) where
  newest-shown :
      (q : List (List ℕ)) (r : List ℕ)
      → All (Shown commanded reported) q
      → Shown commanded reported r
      → All (Shown commanded reported) (with_newest q r)
  newest-shown q r h k =
      All-append (Shown commanded reported) (if ltb (length q) 48 then q else drop 1 q) (r ∷ [])
        (All-kept (Shown commanded reported) (ltb (length q) 48) q h) (k, tt)

  -- A report that came from the real portal, whatever is done with it.
  pub IsHonest-on_tun_in :
      (s : Console) (junk report : List ℕ)
      → IsHonest commanded reported s
      → Among report reported
      → 1 ≤ length report
      → length report ≤ 64
      → IsHonest commanded reported (on_tun_in api s junk report)
  IsHonest-on_tun_in s junk report v member lo hi =
      let now = on_tun_in_lem api s junk report v.buffers lo hi in
      let ready = byte report 0 == sky_cmd_ready in
      let act = byte report 0 == sky_cmd_activate in
      let held = byte report 0 == sky_cmd_status && not s.console_active in
      record {
        buffers = HasBuffers-on_tun_in api s junk report v.buffers hi;
        shown = subst (All (Shown commanded reported)) (sym now.0) (choose (ready || act || held));
        ready = subst (Reply reported built_in_ready) (sym (ap (λ t. t.0) now.1)) (new_ready ready);
        act =
            subst (Flagged commanded reported) (sym (ap (λ t. t.1) now.1))
              (new_act act (==_iff (byte report 0) sky_cmd_activate).0);
      }
    where
      choose :
          (b : Bool)
          → All (Shown commanded reported) (if b then waiting s else with_newest (waiting s) report)
      choose true = v.shown
      choose false = newest-shown (waiting s) report v.shown (from_portal member)

      new_ready :
          (b : Bool)
          → Reply reported built_in_ready (if b then report else take s.ready_len s.ready_resp)
      new_ready true = inl member
      new_ready false = v.ready

      new_act :
          (b : Bool)
          → (b ≡ true → byte report 0 ≡ sky_cmd_activate)
          → Flagged commanded reported (if b then report else take s.act_len s.act_resp)
      new_act true f = (report, inl member, f refl, inl refl)
      new_act false f = v.act

  IsHonest-queue_local :
      (s : Console) (junk d : List ℕ)
      → IsHonest commanded reported s
      → length d ≤ 64
      → Shown commanded reported d
      → HasBuffers (queue_local api s junk d)
      → IsHonest commanded reported (queue_local api s junk d)
  unfolding queue_local push_in
  IsHonest-queue_local s junk d v h k buffers = record {
    buffers = buffers;
    shown =
        subst (All (Shown commanded reported))
          (sym (waiting-queue_local api s junk d v.buffers.queue h))
          (newest-shown (waiting s) d v.shown k);
    ready = v.ready;
    act = v.act;
  }

  IsHonest-activated :
      (s : Console) (flag : ℕ) (active : Bool)
      → Asked commanded flag
      → IsHonest commanded reported s
      → IsHonest commanded reported
          (record s { act_resp = set s.act_resp 1 flag; console_active = active })
  IsHonest-activated s flag active asked v = record {
    buffers = record {
      ready = v.buffers.ready;
      act = length-set s.act_resp 1 flag ∙ v.buffers.act;
      queue = v.buffers.queue;
    };
    shown = v.shown;
    ready = v.ready;
    act =
        subst (Flagged commanded reported) (sym (take-second_set s.act_len s.act_resp flag))
          (Flagged-set commanded reported (take s.act_len s.act_resp) flag asked v.act);
  }

  IsHonest-answered :
      (s : Console) (junk : List ℕ)
      → IsHonest commanded reported s
      → IsHonest commanded reported (queue_local api s junk (take s.act_len s.act_resp))
  IsHonest-answered s junk v =
      IsHonest-queue_local s junk (take s.act_len s.act_resp) v
        (short_take s.act_len s.act_resp v.buffers.act) (activate_reply v.act)
        (HasBuffers-queue_local api s junk (take s.act_len s.act_resp) v.buffers)

  IsHonest-answer :
      (s : Console) (junk buffer : List ℕ)
      → Among buffer commanded
      → IsHonest commanded reported s
      → IsHonest commanded reported (answer api s junk buffer)
  unfolding answer
  IsHonest-answer s junk buffer m v = elim (Bool-cases (byte buffer 0 == sky_cmd_ready)) [
    | inl e ↦ rw e (
        IsHonest-queue_local s junk (take s.ready_len s.ready_resp) v
          (short_take s.ready_len s.ready_resp v.buffers.ready) (ready_reply v.ready)
          (HasBuffers-queue_local api s junk (take s.ready_len s.ready_resp) v.buffers))
    | inr e ↦ elim (Bool-cases (byte buffer 0 == sky_cmd_activate)) [
      | inr f ↦ rw (e, f) v
      | inl f ↦
          rw (e, f)
            (elim (Bool-cases (leb 2 (length buffer))) [
              | inr g ↦ rw g (IsHonest-answered s junk v)
              | inl g ↦
                  let active = not (byte buffer 1 == 0) in
                  rw g (
                    IsHonest-answered
                      (record s {
                        act_resp = set s.act_resp 1 (byte buffer 1);
                        console_active = active;
                      })
                      junk
                      (IsHonest-activated s (byte buffer 1) active
                        (
                          buffer,
                          m,
                          leb→le 2 (length buffer) g,
                          (==_iff (byte buffer 0) sky_cmd_activate).0 f,
                          refl,
                        )
                        v))
            ])
    ]
  ]

  -- Any report that the console makes.
  pub IsHonest-set_report :
      (s : Console) (junk : List ℕ) (report_id : ℕ) (buffer : List ℕ)
      → Among buffer commanded
      → IsHonest commanded reported s
      → IsHonest commanded reported (set_report api s junk report_id buffer).0
  unfolding set_report
  IsHonest-set_report s junk report_id buffer m v = elim (Bool-cases (report_id == 0xEE)) [
    | inl e ↦ rw e (
        IsHonest-same commanded reported s (record s { sound_pkts = (s.sound_pkts + 1) % 2 ^ 32 })
          refl v)
    | inr e ↦ elim (Bool-cases (ltb (length buffer) 1)) [
      | inl f ↦ rw (e, f) v
      | inr f ↦ elim (Bool-cases (is_tag_write buffer)) [
        | inl g ↦ rw (e, f, g) (IsHonest-same commanded reported s _ refl v)
        | inr g ↦ rw (e, f, g) (IsHonest-answer s junk buffer m v)
      ]
    ]
  ]
