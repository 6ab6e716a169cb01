-- ===== src/Console/Arrivals.antt =====
-- What the frames that `on_link_recv` of console-side/src/main.c gets do to the number and the semaphore.
use wireless_skyportal_conne.Prelude.{
  ℕ, ◌≤◌, ◌≡◌, refl, arith, ap, sym, subst, ◌∙◌, Bool, true, false, ◌&&◌, ◌||◌, List, [], ◌∷◌, ◌++◌,
  ◌==◌, leb, if◌then◌else◌, length, slice, Bool-cases, inl, inr, Among, Among-append_left,
  Among-append_right,
}
use wireless_skyportal_conne.Frame.{link_t_ack, sizeof_ack, ack_seq_at, tunnel_len}
use wireless_skyportal_conne.Rtos.{send_lem}
use wireless_skyportal_conne.Console.{
  Console, Apis, on_link_recv, on_tun_in, snoop_in, push_in, min_of,
}
use wireless_skyportal_conne.Console.Live.{Frame, arrivals}

-- The frame is a whole ACK.
abbrev pub is_ack : Frame → Bool
is_ack f = f.type == link_t_ack && leb sizeof_ack f.len

abbrev pub any_ack : List Frame → Bool
any_ack [] = false
any_ack (f ∷ fs) = is_ack f || any_ack fs

-- The number of the last ACK of the frames, and `seq` if there is none.
abbrev pub last_ack : ℕ → List Frame → ℕ
last_ack seq [] = seq
last_ack seq (f ∷ fs) = last_ack (if is_ack f then ack_seq_at f.bytes else seq) fs

-- Among the frames is an ACK of that number.
abbrev pub Acks : ℕ → List Frame → Type 0
Acks seq fs = (f : Frame) × Among f fs × (is_ack f ≡ true) × (ack_seq_at f.bytes ≡ seq)

last_ack-none : (fs : List Frame) (seq : ℕ) → any_ack fs ≡ false → last_ack seq fs ≡ seq
last_ack-none [] seq e = refl
last_ack-none (f ∷ fs) seq e =
    let not_this : is_ack f ≡ false = ground arith in
    let not_those : any_ack fs ≡ false = ground arith in
    rw not_this (last_ack-none fs seq not_those)

pub last_ack-Acks : (fs : List Frame) (seq : ℕ) → any_ack fs ≡ true → Acks (last_ack seq fs) fs
last_ack-Acks [] seq h = absurd cc
last_ack-Acks (f ∷ fs) seq h = elim (Bool-cases (any_ack fs)) [
  | inl e ↦
      let (g, m, a, q) = last_ack-Acks fs (if is_ack f then ack_seq_at f.bytes else seq) e in
      (g, inr m, a, q)
  | inr e ↦
      let mine : is_ack f ≡ true = ground arith in
      rw mine (f, inl refl, mine, sym (last_ack-none fs (ack_seq_at f.bytes) e))
]

-- The last ACK of two runs of frames, the first of which has one.
pub Acks-append :
    (fs gs : List Frame) (seq : ℕ)
    → any_ack fs ≡ true
    → Acks (last_ack (last_ack seq fs) gs) (fs ++ gs)
Acks-append fs gs seq h = elim (Bool-cases (any_ack gs)) [
  | inl e ↦
      let (f, m, a, q) = last_ack-Acks gs (last_ack seq fs) e in
      (f, Among-append_right f fs gs m, a, q)
  | inr e ↦
      let (f, m, a, q) = last_ack-Acks fs seq h in
      (f, Among-append_left f fs gs m, a, q ∙ sym (last_ack-none gs (last_ack seq fs) e))
]

module _ (api : Apis) where
  same_ack-on_tun_in :
      (s : Console) (junk report : List ℕ)
      → ((on_tun_in api s junk report).acked_seq ≡ s.acked_seq)
        × ((on_tun_in api s junk report).ack_sem ≡ s.ack_sem)
  unfolding on_tun_in snoop_in push_in
  same_ack-on_tun_in s junk report = ground arith

  -- A frame sets the number and gives the semaphore if it is an ACK, and touches neither if not.
  ack-on_link_recv :
      (s : Console) (f : Frame)
      → let s' = on_link_recv api s f.junk f.type f.bytes f.len in
        (s'.acked_seq ≡ (if is_ack f then ack_seq_at f.bytes else s.acked_seq))
        × (s'.ack_sem ≡ (if is_ack f then (api.sem.send 1 s.ack_sem tt).1 else s.ack_sem))
  unfolding on_link_recv
  ack-on_link_recv s f =
      ground (arith, same_ack-on_tun_in s f.junk (slice f.bytes 7 (min_of 64 (tunnel_len f.bytes))))

  pub acked_seq-arrivals :
      (fs : List Frame) (s : Console) → (arrivals api s fs).acked_seq ≡ last_ack s.acked_seq fs
  unfolding arrivals
  acked_seq-arrivals [] s = refl
  acked_seq-arrivals (f ∷ fs) s =
      acked_seq-arrivals fs (on_link_recv api s f.junk f.type f.bytes f.len)
      ∙ ap (λ n. last_ack n fs) (ack-on_link_recv s f).0

  pub no_ack-arrivals :
      (fs : List Frame) (s : Console)
      → s.ack_sem ≡ []
      → any_ack fs ≡ false
      → (arrivals api s fs).ack_sem ≡ []
  unfolding arrivals
  no_ack-arrivals [] s e h = e
  no_ack-arrivals (f ∷ fs) s e h =
      let not_this : is_ack f ≡ false = ground arith in
      let not_those : any_ack fs ≡ false = ground arith in
      no_ack-arrivals fs (on_link_recv api s f.junk f.type f.bytes f.len)
        ((ack-on_link_recv s f).1 ∙ rw not_this e) not_those

  at_most_one :
      (q : List (Unit {0})) (b : Bool)
      → length q ≤ 1
      → length (if b then (api.sem.send 1 q tt).1 else q) ≤ 1
  at_most_one q false h = h
  at_most_one [] true h = rw (send_lem api.sem 1 [] tt) (omega arith)
  at_most_one (x ∷ q) true h = rw (send_lem api.sem 1 (x ∷ q) tt) (ground arith)

  -- The semaphore is binary.
  pub binary-arrivals :
      (fs : List Frame) (s : Console)
      → length s.ack_sem ≤ 1
      → length (arrivals api s fs).ack_sem ≤ 1
  unfolding arrivals
  binary-arrivals [] s h = h
  binary-arrivals (f ∷ fs) s h =
      binary-arrivals fs (on_link_recv api s f.junk f.type f.bytes f.len) (
        subst (λ q. length q ≤ 1) (sym (ack-on_link_recv s f).1)
          (at_most_one s.ack_sem (is_ack f) h))
