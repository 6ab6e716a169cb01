-- ===== src/Console/Quiet.antt =====
-- The queue of console-side/src/main.c to the console before an activation: no status report is in it.
use wireless_skyportal_conne.Prelude.{
  ℕ, zero, suc, ◌%◌, ◌≤◌, ◌≡◌, ◌≢◌, refl, arith, ap, sym, subst, ◌∙◌, Bool, true, false, ◌&&◌, not,
  List, [], ◌∷◌, ◌++◌, ◌==◌, ltb, if◌then◌else◌, length, take, drop, set, overwrite, le→leb,
  Bool-cases, inl, inr, ==_iff,
}
use wireless_skyportal_conne.Sky.{byte, sky_cmd_ready, sky_cmd_activate, sky_cmd_status}
use wireless_skyportal_conne.Rtos.{push_newest_lem, length-push_newest}
use wireless_skyportal_conne.Console.{
  Console, Item, Apis, item_of, contents, snoop_in, push_in, queue_local, on_tun_in, min_of,
}
use wireless_skyportal_conne.Console.Tunnel.{contents-item_of, first-overwrite}

-- No report of the queue is a status report.
abbrev pub NoStatus : List Item → Type 0
NoStatus [] = Unit {0}
NoStatus (it ∷ q) = (byte (contents it) 0 ≢ sky_cmd_status) × NoStatus q

-- The learned answers are answers: they begin with 'R' and 'A'.
pub record HasAnswers (s : Console) : Type 0 where
  pub ready : byte s.ready_resp 0 ≡ sky_cmd_ready
  pub act : byte s.act_resp 0 ≡ sky_cmd_activate

pub record IsQuiet (s : Console) : Type 0 where
  pub inactive : s.console_active ≡ false
  pub queue : length s.in_q ≤ 48
  pub no_status : NoStatus s.in_q
  pub answers : HasAnswers s

NoStatus-drop : (q : List Item) → NoStatus q → NoStatus (drop 1 q)
NoStatus-drop [] h = h
NoStatus-drop (it ∷ q) h = h.1

NoStatus-append :
    (q : List Item) (it : Item)
    → NoStatus q
    → byte (contents it) 0 ≢ sky_cmd_status
    → NoStatus (q ++ (it ∷ []))
NoStatus-append [] it h k = (k, tt)
NoStatus-append (x ∷ q) it h k = (h.0, NoStatus-append q it h.1 k)

pub first_of-take : (n : ℕ) (xs : List ℕ) (b : ℕ) → byte xs 0 ≢ b → 0 ≢ b → byte (take n xs) 0 ≢ b
first_of-take zero xs b h k = k
first_of-take (suc n) [] b h k = k
first_of-take (suc n) (x ∷ xs) b h k = h

pub second-set : (xs : List ℕ) (b : ℕ) → byte (set xs 1 b) 0 ≡ byte xs 0
second-set [] b = refl
second-set (x ∷ xs) b = refl

pub snoop_in_same :
    (s : Console) (r : List ℕ) (n : ℕ)
    → ((snoop_in s r n).in_q ≡ s.in_q)
      × ((snoop_in s r n).console_active ≡ s.console_active)
      × ((snoop_in s r n).ready_resp ≡ s.ready_resp)
      × ((snoop_in s r n).act_resp ≡ s.act_resp)
unfolding snoop_in
snoop_in_same s r n = ground arith

pub IsQuiet-same :
    (s t : Console)
    → IsQuiet s
    → (t.in_q ≡ s.in_q)
      × (t.console_active ≡ s.console_active)
      × (t.ready_resp ≡ s.ready_resp)
      × (t.act_resp ≡ s.act_resp)
    → IsQuiet t
IsQuiet-same s t v h = record {
  inactive = h.1 ∙ v.inactive;
  queue = subst (λ q. length q ≤ 48) (sym h.0) v.queue;
  no_status = subst NoStatus (sym h.0) v.no_status;
  answers = record {
    ready = ap (λ r. byte r 0) h.2 ∙ v.answers.ready;
    act = ap (λ r. byte r 0) h.3 ∙ v.answers.act;
  };
}

pub learned-IsQuiet :
    (s t : Console)
    → IsQuiet s
    → t.in_q ≡ s.in_q
    → t.console_active ≡ s.console_active
    → HasAnswers t
    → IsQuiet t
learned-IsQuiet s t v q a h = record {
  inactive = a ∙ v.inactive;
  queue = subst (λ q. length q ≤ 48) (sym q) v.queue;
  no_status = subst NoStatus (sym q) v.no_status;
  answers = h;
}

module _ (api : Apis) where
  push_in-IsQuiet :
      (s : Console) (it : Item)
      → IsQuiet s
      → byte (contents it) 0 ≢ sky_cmd_status
      → IsQuiet (push_in api s it)
  unfolding push_in
  push_in-IsQuiet s it v h = record {
    inactive = v.inactive;
    queue = length-push_newest api.items 48 s.in_q it (omega arith) v.queue;
    no_status =
        subst NoStatus (sym (push_newest_lem api.items 48 s.in_q it (omega arith) v.queue))
          (newest (ltb (length s.in_q) 48));
    answers = record { ready = v.answers.ready; act = v.answers.act };
  }
    where
      newest : (b : Bool) → NoStatus ((if b then s.in_q else drop 1 s.in_q) ++ (it ∷ []))
      newest true = NoStatus-append s.in_q it v.no_status h
      newest false = NoStatus-append (drop 1 s.in_q) it (NoStatus-drop s.in_q v.no_status) h

  pub queue_local-IsQuiet :
      (s : Console) (junk d : List ℕ)
      → IsQuiet s
      → byte d 0 ≢ sky_cmd_status
      → IsQuiet (queue_local api s junk d)
  unfolding queue_local
  queue_local-IsQuiet s junk d v h =
      push_in-IsQuiet s (item_of junk (take (min_of 64 (length d)) d)) v (
        subst (λ t. byte t 0 ≢ sky_cmd_status)
          (sym (contents-item_of junk (take (min_of 64 (length d)) d)))
          (first_of-take (min_of 64 (length d)) d sky_cmd_status h (λ e. cc)))

  snoop_in-IsQuiet : (s : Console) (r : List ℕ) (n : ℕ) → IsQuiet s → IsQuiet (snoop_in s r n)
  snoop_in-IsQuiet s r n v = IsQuiet-same s (snoop_in s r n) v (snoop_in_same s r n)

  passed_on-IsQuiet :
      (s : Console) (it : Item) (held : Bool)
      → IsQuiet s
      → (held ≡ false → byte (contents it) 0 ≢ sky_cmd_status)
      → IsQuiet
          (if held then snoop_in s it.bytes it.len else push_in api (snoop_in s it.bytes it.len) it)
  passed_on-IsQuiet s it true v h = snoop_in-IsQuiet s it.bytes it.len v
  passed_on-IsQuiet s it false v h =
      push_in-IsQuiet (snoop_in s it.bytes it.len) it (snoop_in-IsQuiet s it.bytes it.len v)
        (h refl)

  held_first :
      (b : ℕ) (active : Bool)
      → active ≡ false
      → (b == sky_cmd_status && not active) ≡ false
      → b ≢ sky_cmd_status
  held_first b true e h = λ _. cc
  held_first b false e h = ground arith

  unheld-IsQuiet :
      (s : Console) (junk : List ℕ) (b : ℕ) (report : List ℕ)
      → IsQuiet s
      → (b == sky_cmd_ready) ≡ false
      → (b == sky_cmd_activate) ≡ false
      → IsQuiet (on_tun_in api s junk (b ∷ report))
  unfolding on_tun_in
  unheld-IsQuiet s junk b report v e f =
      rw (le→leb 1 (suc (length report)) (omega arith), e, f)
        (passed_on-IsQuiet s (item_of junk (b ∷ report))
          (byte (overwrite junk 0 (b ∷ report)) 0 == sky_cmd_status && not s.console_active) v
          (λ h.
            subst (λ t. byte t 0 ≢ sky_cmd_status) (sym (contents-item_of junk (b ∷ report)))
              (held_first b s.console_active v.inactive (
                ap (λ t. t == sky_cmd_status && not s.console_active)
                  (sym (first-overwrite junk (b ∷ report) (omega arith)))
                ∙ h))))

  pub on_tun_in-IsQuiet :
      (s : Console) (junk report : List ℕ) → IsQuiet s → IsQuiet (on_tun_in api s junk report)
  unfolding on_tun_in
  on_tun_in-IsQuiet s junk [] v =
      passed_on-IsQuiet s (item_of junk [])
        (byte (overwrite junk 0 []) 0 == sky_cmd_status && not s.console_active) v
        (λ h. subst (λ t. byte t 0 ≢ sky_cmd_status) (sym (contents-item_of junk [])) (λ g. cc))
  on_tun_in-IsQuiet s junk (b ∷ report) v = elim (Bool-cases (b == sky_cmd_ready)) [
    | inl e ↦
        rw (le→leb 1 (suc (length report)) (omega arith), e)
          (learned-IsQuiet s
            (record s {
              ready_resp = overwrite s.ready_resp 0 (b ∷ report);
              ready_len = suc (length report) % 256;
            })
            v refl refl
            (record {
              ready =
                  first-overwrite s.ready_resp (b ∷ report) (omega arith)
                  ∙ (==_iff b sky_cmd_ready).0 e;
              act = v.answers.act;
            }))
    | inr e ↦ elim (Bool-cases (b == sky_cmd_activate)) [
      | inl f ↦
          rw (le→leb 1 (suc (length report)) (omega arith), e, f)
            (learned-IsQuiet s
              (record s {
                act_resp = overwrite s.act_resp 0 (b ∷ report);
                act_len = suc (length report) % 256;
              })
              v refl refl
              (record {
                ready = v.answers.ready;
                act =
                    first-overwrite s.act_resp (b ∷ report) (omega arith)
                    ∙ (==_iff b sky_cmd_activate).0 f;
              }))
      | inr f ↦ unheld-IsQuiet s junk b report v e f
    ]
  ]
