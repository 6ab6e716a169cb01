-- ===== src/Link/History.antt =====
-- A board over time: what must have happened for it to be linked.
use wireless_skyportal_conne.Prelude.{
  ℕ, ◌≡◌, refl, arith, ap, subst, sym, ◌∙◌, Bool, true, false, ◌&&◌, List, [], ◌∷◌, ◌==◌, leb,
  if◌then◌else◌, length, ◌⊎◌, inl, inr, Bool-cases,
}
use wireless_skyportal_conne.Frame.{hdr_at, hdr_valid, sizeof_hdr, sizeof_hello, link_t_hello}
use wireless_skyportal_conne.Rtos.{QueueApi}
use wireless_skyportal_conne.Link.{
  Link, Arrival, RxItem, PeerApi, add_peer, on_hello, bookkeeping, recv_valid, recv_cb, rx_task,
  expire, link_task, link_init,
}
use wireless_skyportal_conne.Link.Pairing.{
  pairing, is_other_hello, pairing-recv_cb, role-expire, same-enqueue,
}

-- What happens to a board: a frame arrives, or one of its two tasks makes a round.
pub data Event : Type 0 where
  arrives : (now : ℕ) (a : Arrival) (junk : List ℕ) → Event
  link_round : (now : ℕ) → Event
  rx_round : Event

-- Some event of the list is the arrival, from `mac`, of a HELLO of another role than `role`.
abbrev pub Heard : ℕ → List ℕ → List Event → Type 0
Heard role mac [] = ⊥
Heard role mac (arrives now a junk ∷ es) =
    ((is_other_hello role a.bytes ≡ true) × (a.src_addr ≡ mac)) ⊎ Heard role mac es
Heard role mac (link_round now ∷ es) = Heard role mac es
Heard role mac (rx_round ∷ es) = Heard role mac es

module _ (radio : PeerApi) (api : QueueApi RxItem) where
  unfoldable pub step : Link → Event → Link
  step l (arrives now a junk) = recv_cb radio api l now a junk
  step l (link_round now) = (link_task l now).0
  step l rx_round = (rx_task api l).0

  unfoldable pub run : Link → List Event → Link
  run l [] = l
  run l (e ∷ es) = run (step l e) es

  role-on_hello : (l : Link) (a : Arrival) → (on_hello radio l a).role ≡ l.role
  unfolding on_hello add_peer
  role-on_hello l a = ground arith

  role-recv_valid :
      (l : Link) (now : ℕ) (a : Arrival) (junk : List ℕ)
      → (recv_valid radio api l now a junk).role ≡ l.role
  unfolding recv_valid bookkeeping
  role-recv_valid l now a junk =
      (same-enqueue radio api _ a junk).1
      ∙ elim (Bool-cases
          ((hdr_at a.bytes).type == link_t_hello && leb sizeof_hello (length a.bytes))) [
            | inl e ↦ rw e (role-on_hello _ a)
            | inr e ↦ rw e
          ]

  role-recv_cb :
      (l : Link) (now : ℕ) (a : Arrival) (junk : List ℕ)
      → (recv_cb radio api l now a junk).role ≡ l.role
  unfolding recv_cb
  role-recv_cb l now a junk =
      elim (Bool-cases (leb sizeof_hdr (length a.bytes) && hdr_valid (hdr_at a.bytes))) [
        | inl e ↦ rw e (role-recv_valid l now a junk)
        | inr e ↦ rw e
      ]

  rx_task-keeps :
      (l : Link) → (pairing (rx_task api l).0 ≡ pairing l) × ((rx_task api l).0.role ≡ l.role)
  unfolding rx_task
  rx_task-keeps l = ground arith

  link_task-keeps :
      (l : Link) (now : ℕ) (mac : List ℕ)
      → pairing (link_task l now).0 ≡ (true, mac)
      → pairing l ≡ (true, mac)
  unfolding link_task expire
  link_task-keeps l now mac h = ground arith

  role-step : (l : Link) (e : Event) → (step l e).role ≡ l.role
  unfolding step link_task rx_task
  role-step l (arrives now a junk) = role-recv_cb l now a junk
  role-step l (link_round now) = role-expire l now
  role-step l rx_round = (rx_task-keeps l).1

  via :
      (l : Link) (now : ℕ) (a : Arrival) (junk : List ℕ) {b : Bool}
      → is_other_hello l.role a.bytes ≡ b
      → (c : Bool) → b ≡ c
      → pairing (recv_cb radio api l now a junk) ≡ (if c then (true, a.src_addr) else pairing l)
  via l now a junk e c f = rw (← f, ← e) (pairing-recv_cb radio api l now a junk)

  -- A board that is linked after some events was already paired with that peer before them, or one of
  -- them is the arrival of a HELLO of the other role from that peer.
  pub linked-run :
      (es : List Event) (l : Link)
      → (run l es).linked ≡ true
      → (pairing l ≡ (true, (run l es).peer)) ⊎ Heard l.role (run l es).peer es
  unfolding run step
  linked-run [] l h = inl (ap (λ b. (b, l.peer)) h)
  linked-run (arrives now a junk ∷ es) l h = elim (linked-run es (step l (arrives now a junk)) h) [
    | inl e ↦ elim (Bool-cases (is_other_hello l.role a.bytes)) [
      | inl k ↦ inr (inl (k, ap (λ t. t.1) (sym (via l now a junk k true refl) ∙ e)))
      | inr k ↦ inl (sym (via l now a junk k false refl) ∙ e)
    ]
    | inr k ↦ inr (
        inr (
          subst (λ r. Heard r (run (step l (arrives now a junk)) es).peer es)
            (role-step l (arrives now a junk)) k))
  ]
  linked-run (link_round now ∷ es) l h = elim (linked-run es (step l (link_round now)) h) [
    | inl e ↦ inl (link_task-keeps l now _ e)
    | inr k ↦ inr (
        subst (λ r. Heard r (run (step l (link_round now)) es).peer es)
          (role-step l (link_round now)) k)
  ]
  linked-run (rx_round ∷ es) l h = elim (linked-run es (step l rx_round) h) [
    | inl e ↦ inl (sym (rx_task-keeps l).0 ∙ e)
    | inr k ↦ inr (subst (λ r. Heard r (run (step l rx_round) es).peer es) (role-step l rx_round) k)
  ]

  unlinked-link_init :
      (peers : List (List ℕ)) (role : ℕ) → (link_init radio peers role).linked ≡ false
  unfolding link_init add_peer
  unlinked-link_init peers role = ground arith

  role-link_init : (peers : List (List ℕ)) (role : ℕ) → (link_init radio peers role).role ≡ role
  unfolding link_init add_peer
  role-link_init peers role = ground arith

  -- A board that is linked, at any time since `link_init`, has received a HELLO of the other role from
  -- the peer that it is linked to.
  pub linked-Heard :
      (peers : List (List ℕ)) (role : ℕ) (es : List Event)
      → (run (link_init radio peers role) es).linked ≡ true
      → Heard role (run (link_init radio peers role) es).peer es
  linked-Heard peers role es h = elim (linked-run es (link_init radio peers role) h) [
    | inl e ↦ absurd (never (sym (unlinked-link_init peers role) ∙ ap (λ t. t.0) e))
    | inr k ↦
        subst (λ r. Heard r (run (link_init radio peers role) es).peer es)
          (role-link_init peers role) k
  ]
    where
      never : false ≡ true → ⊥
      never e = cc
