-- ===== src/System/Shown.antt =====
-- What the console is shown, as it follows from what the real portal reported: the part of
-- console-side/src/main.c.
use wireless_skyportal_conne.Prelude.{
  ℕ, ◌≤◌, ◌≡◌, ◌⊎◌, refl, arith, ap, sym, subst, ◌∙◌, List, [], ◌∷◌, length, set, take, map,
  length-take, inl, inr, Among, All, All-map,
}
use wireless_skyportal_conne.Sky.{byte, sky_cmd_activate}
use wireless_skyportal_conne.Console.{Console, Item, contents, start}
use wireless_skyportal_conne.Console.Learned.{twice_set}
use wireless_skyportal_conne.Console.Tunnel.{HasBuffers, waiting}

-- A reply of the real portal, or the one that the program has instead until it has learned one.
abbrev pub Reply : List (List ℕ) → List ℕ → List ℕ → Type 0
Reply reported built_in r = Among r reported ⊎ (r ≡ built_in)

-- "R 02 18" and "A 01 FF 77", with zeros up to 32 bytes.
abbrev pub built_in_ready : List ℕ
built_in_ready = take start.ready_len start.ready_resp

abbrev pub built_in_activate : List ℕ
built_in_activate = take start.act_len start.act_resp

-- An Activate of the games console with that flag.
abbrev pub Asked : List (List ℕ) → ℕ → Type 0
Asked commanded flag =
    (command : List ℕ) × Among command commanded
    × (2 ≤ length command)
    × (byte command 0 ≡ sky_cmd_activate)
    × (flag ≡ byte command 1)

-- Such a reply to Activate, as it is, or with the flag of an Activate of the console's as second byte.
abbrev pub Flagged : List (List ℕ) → List (List ℕ) → List ℕ → Type 0
Flagged commanded reported r =
    (reply : List ℕ) × Reply reported built_in_activate reply
    × (byte reply 0 ≡ sky_cmd_activate)
    × ((r ≡ reply) ⊎ ((flag : ℕ) × Asked commanded flag × (r ≡ set reply 1 flag)))

-- Where a report to the console comes from.
pub data Shown (commanded reported : List (List ℕ)) (r : List ℕ) : Type 0 where
  from_portal : Among r reported → Shown commanded reported r
  ready_reply : Reply reported built_in_ready r → Shown commanded reported r
  activate_reply : Flagged commanded reported r → Shown commanded reported r

pub record IsHonest (commanded reported : List (List ℕ)) (s : Console) : Type 0 where
  pub buffers : HasBuffers s
  pub shown : All (Shown commanded reported) (waiting s)
  pub ready : Reply reported built_in_ready (take s.ready_len s.ready_resp)
  pub act : Flagged commanded reported (take s.act_len s.act_resp)

Reply-more :
    (reported : List (List ℕ)) (new built_in r : List ℕ)
    → Reply reported built_in r
    → Reply (new ∷ reported) built_in r
Reply-more reported new built_in r (inl h) = inl (inr h)
Reply-more reported new built_in r (inr h) = inr h

Flagged-more :
    (commanded reported : List (List ℕ)) (new r : List ℕ)
    → Flagged commanded reported r
    → Flagged commanded (new ∷ reported) r
Flagged-more commanded reported new r (reply, h, a, f) =
    (reply, Reply-more reported new built_in_activate reply h, a, f)

pub Shown-more :
    (commanded reported : List (List ℕ)) (new r : List ℕ)
    → Shown commanded reported r
    → Shown commanded (new ∷ reported) r
Shown-more commanded reported new r (from_portal h) = from_portal (inr h)
Shown-more commanded reported new r (ready_reply h) =
    ready_reply (Reply-more reported new built_in_ready r h)
Shown-more commanded reported new r (activate_reply h) =
    activate_reply (Flagged-more commanded reported new r h)

-- A new report of the real portal takes nothing away.
pub IsHonest-more :
    (commanded reported : List (List ℕ)) (new : List ℕ) (s : Console)
    → IsHonest commanded reported s
    → IsHonest commanded (new ∷ reported) s
IsHonest-more commanded reported new s v = record {
  buffers = v.buffers;
  shown =
      All-map (Shown commanded reported) (Shown commanded (new ∷ reported))
        (Shown-more commanded reported new) (waiting s) v.shown;
  ready = Reply-more reported new built_in_ready (take s.ready_len s.ready_resp) v.ready;
  act = Flagged-more commanded reported new (take s.act_len s.act_resp) v.act;
}

Flagged-asked :
    (commanded reported : List (List ℕ)) (new r : List ℕ)
    → Flagged commanded reported r
    → Flagged (new ∷ commanded) reported r
Flagged-asked commanded reported new r (reply, h, a, inl e) = (reply, h, a, inl e)
Flagged-asked commanded reported new r (reply, h, a, inr (flag, (c, m, l, k, f), e)) =
    (reply, h, a, inr (flag, (c, inr m, l, k, f), e))

pub Shown-asked :
    (commanded reported : List (List ℕ)) (new r : List ℕ)
    → Shown commanded reported r
    → Shown (new ∷ commanded) reported r
Shown-asked commanded reported new r (from_portal h) = from_portal h
Shown-asked commanded reported new r (ready_reply h) = ready_reply h
Shown-asked commanded reported new r (activate_reply h) =
    activate_reply (Flagged-asked commanded reported new r h)

-- Nor does a new report of the console.
pub IsHonest-asked :
    (commanded reported : List (List ℕ)) (new : List ℕ) (s : Console)
    → IsHonest commanded reported s
    → IsHonest (new ∷ commanded) reported s
IsHonest-asked commanded reported new s v = record {
  buffers = v.buffers;
  shown =
      All-map (Shown commanded reported) (Shown (new ∷ commanded) reported)
        (Shown-asked commanded reported new) (waiting s) v.shown;
  ready = v.ready;
  act = Flagged-asked commanded reported new (take s.act_len s.act_resp) v.act;
}

pub start-IsHonest : IsHonest [] [] start
start-IsHonest = record {
  buffers = record { ready = refl; act = refl; queue = omega arith };
  shown = tt;
  ready = inr refl;
  act = (built_in_activate, inr refl, refl, inl refl);
}

-- What the invariant speaks of.
abbrev pub offer : Console → List Item × List ℕ × ℕ × List ℕ × ℕ
offer s = (s.in_q, s.ready_resp, s.ready_len, s.act_resp, s.act_len)

pub IsHonest-same :
    (commanded reported : List (List ℕ)) (s t : Console)
    → offer t ≡ offer s
    → IsHonest commanded reported s
    → IsHonest commanded reported t
IsHonest-same commanded reported s t e v = record {
  buffers = record {
    ready = ap (λ o. length o.1) e ∙ v.buffers.ready;
    act = ap (λ o. length o.3) e ∙ v.buffers.act;
    queue = subst (λ o. length o.0 ≤ 48) (sym e) v.buffers.queue;
  };
  shown = subst (λ o. All (Shown commanded reported) (map contents o.0)) (sym e) v.shown;
  ready = subst (λ o. Reply reported built_in_ready (take o.2 o.1)) (sym e) v.ready;
  act = subst (λ o. Flagged commanded reported (take o.4 o.3)) (sym e) v.act;
}

-- The console's flag over an earlier one.
pub Flagged-set :
    (commanded reported : List (List ℕ)) (r : List ℕ) (flag : ℕ)
    → Asked commanded flag
    → Flagged commanded reported r
    → Flagged commanded reported (set r 1 flag)
Flagged-set commanded reported r flag asked (reply, h, a, inl e) =
    (reply, h, a, inr (flag, asked, ap (λ t. set t 1 flag) e))
Flagged-set commanded reported r flag asked (reply, h, a, inr (old, o, e)) =
    (reply, h, a, inr (flag, asked, ap (λ t. set t 1 flag) e ∙ twice_set reply old flag))

pub short_take : (n : ℕ) (xs : List ℕ) → length xs ≡ 64 → length (take n xs) ≤ 64
short_take n xs h = omega (arith, length-take n xs)
