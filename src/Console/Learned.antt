-- ===== src/Console/Learned.antt =====
-- The replies to Ready and to Activate that console-side/src/main.c has learned, between one such reply and
-- the next.
use wireless_skyportal_conne.Prelude.{
  ℕ, ◌≤◌, ◌≡◌, refl, ap, sym, subst, ◌∙◌, Bool, false, ◌&&◌, not, List, [], ◌∷◌, ◌==◌, ltb, leb,
  length, length-set, take, set, slice, Bool-cases, inl, inr,
}
use wireless_skyportal_conne.Sky.{byte, sky_cmd_ready, sky_cmd_activate}
use wireless_skyportal_conne.Frame.{link_t_tun_in, tunnel_len}
use wireless_skyportal_conne.Console.{
  Console, Item, Apis, push_in, queue_local, min_of, is_tag_write, answer, set_report,
}
use wireless_skyportal_conne.Console.Tunnel.{HasBuffers}
use wireless_skyportal_conne.Console.Buffers.{HasBuffers-queue_local}
use wireless_skyportal_conne.Console.Events.{
  Event, from_link, from_host, mounts, tx_takes, writer_takes,
}

-- A frame with a report that begins with `cmd`, of the portal's side.
abbrev pub brings : ℕ → Event → Bool
brings cmd (from_link junk type frame len) =
    type == link_t_tun_in
    && leb 7 len
    && byte (slice frame 7 (min_of 64 (tunnel_len frame))) 0 == cmd
brings cmd (from_host junk report_id buffer) = false
brings cmd mounts = false
brings cmd tx_takes = false
brings cmd (writer_takes waits now) = false

abbrev pub NoneBrings : ℕ → List Event → Type 0
NoneBrings cmd [] = Unit {0}
NoneBrings cmd (e ∷ es) = (brings cmd e ≡ false) × NoneBrings cmd es

-- The reply to Ready, and what is left of the reply to Activate once a flag is in its second byte.
abbrev pub ready_learned : Console → List ℕ × ℕ
ready_learned s = (s.ready_resp, s.ready_len)

abbrev pub act_learned : Console → List ℕ × ℕ
act_learned s = (set s.act_resp 1 0, s.act_len)

pub twice_set : (xs : List ℕ) (b c : ℕ) → set (set xs 1 b) 1 c ≡ set xs 1 c
twice_set [] b c = refl
twice_set (x ∷ []) b c = refl
twice_set (x ∷ y ∷ xs) b c = refl

-- What a handler keeps: the sizes, and each answer unless a new reply for it comes.
pub record Keeps (s t : Console) (ready act : Bool) : Type 0 where
  pub buffers : HasBuffers t
  pub ready_same : ready ≡ false → ready_learned t ≡ ready_learned s
  pub act_same : act ≡ false → act_learned t ≡ act_learned s

-- What they speak of.
abbrev pub buffers_of : Console → List Item × List ℕ × ℕ × List ℕ × ℕ
buffers_of s = (s.in_q, s.ready_resp, s.ready_len, s.act_resp, s.act_len)

pub Keeps-same :
    (s t : Console) (ready act : Bool)
    → HasBuffers s
    → buffers_of t ≡ buffers_of s
    → Keeps s t ready act
Keeps-same s t ready act v e = record {
  buffers = record {
    ready = ap (λ o. length o.1) e ∙ v.ready;
    act = ap (λ o. length o.3) e ∙ v.act;
    queue = subst (λ o. length o.0 ≤ 48) (sym e) v.queue;
  };
  ready_same = λ h. ap (λ o. (o.1, o.2)) e;
  act_same = λ h. ap (λ o. (set o.3 1 0, o.4)) e;
}

module _ (api : Apis) where
  Keeps-queue_local :
      (s : Console) (junk d : List ℕ) (ready act : Bool)
      → HasBuffers s
      → Keeps s (queue_local api s junk d) ready act
  unfolding queue_local push_in
  Keeps-queue_local s junk d ready act v = record {
    buffers = HasBuffers-queue_local api s junk d v;
    ready_same = λ h. refl;
    act_same = λ h. refl;
  }

  Keeps-answer :
      (s : Console) (junk buffer : List ℕ)
      → HasBuffers s
      → Keeps s (answer api s junk buffer) false false
  unfolding answer queue_local push_in
  Keeps-answer s junk buffer v = elim (Bool-cases (byte buffer 0 == sky_cmd_ready)) [
    | inl e ↦ rw e (Keeps-queue_local s junk (take s.ready_len s.ready_resp) false false v)
    | inr e ↦ elim (Bool-cases (byte buffer 0 == sky_cmd_activate)) [
      | inr f ↦ rw (e, f) (Keeps-same s s false false v refl)
      | inl f ↦ elim (Bool-cases (leb 2 (length buffer))) [
        | inr g ↦ rw (e, f, g) (Keeps-queue_local s junk (take s.act_len s.act_resp) false false v)
        | inl g ↦
            let s' = record s {
              act_resp = set s.act_resp 1 (byte buffer 1);
              console_active = not (byte buffer 1 == 0);
            } in
            rw (e, f, g)
              (record {
                buffers = HasBuffers-queue_local api s' junk (take s'.act_len s'.act_resp) (record {
                  ready = v.ready;
                  act = length-set s.act_resp 1 (byte buffer 1) ∙ v.act;
                  queue = v.queue;
                });
                ready_same = λ h. refl;
                act_same = λ h. ap (λ t. (t, s.act_len)) (twice_set s.act_resp (byte buffer 1) 0);
              })
      ]
    ]
  ]

  pub Keeps-set_report :
      (s : Console) (junk : List ℕ) (report_id : ℕ) (buffer : List ℕ)
      → HasBuffers s
      → Keeps s (set_report api s junk report_id buffer).0 false false
  unfolding set_report
  Keeps-set_report s junk report_id buffer v = elim (Bool-cases (report_id == 0xEE)) [
    | inl e ↦ rw e (Keeps-same s _ false false v refl)
    | inr e ↦ elim (Bool-cases (ltb (length buffer) 1)) [
      | inl f ↦ rw (e, f) (Keeps-same s s false false v refl)
      | inr f ↦ elim (Bool-cases (is_tag_write buffer)) [
        | inl g ↦ rw (e, f, g) (Keeps-same s _ false false v refl)
        | inr g ↦ rw (e, f, g) (Keeps-answer s junk buffer v)
      ]
    ]
  ]
