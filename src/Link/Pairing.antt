-- ===== src/Link/Pairing.antt =====
-- When a board is linked, and to whom.
use wireless_skyportal_conne.Prelude.{
  ℕ, ◌≡◌, ◌≢◌, refl, arith, ◌∙◌, Bool, true, false, ◌&&◌, not, List, [], ◌∷◌, ◌==◌, leb,
  if◌then◌else◌, Option, length, inl, inr, Bool-cases, ℤ,
}
use wireless_skyportal_conne.Frame.{
  hdr_at, hdr_valid, hello_role, sizeof_hdr, sizeof_hello, link_t_hello,
}
use wireless_skyportal_conne.Rtos.{QueueApi}
use wireless_skyportal_conne.Link.{
  Link, Arrival, RxItem, PeerApi, same_mac, add_peer, on_hello, enqueue, bookkeeping, recv_valid,
  recv_cb, expire, link_task,
}

same_mac_sound : (xs ys : List ℕ) → same_mac xs ys ≡ true → xs ≡ ys
unfolding same_mac
same_mac_sound [] [] h = refl
same_mac_sound [] (y ∷ ys) h = cc
same_mac_sound (x ∷ xs) [] h = cc
same_mac_sound (x ∷ xs) (y ∷ ys) h = ground (arith, same_mac_sound xs ys)

-- What a board has of its peer.
abbrev pub pairing : Link → Bool × List ℕ
pairing l = (l.linked, l.peer)

-- The bytes are those of a HELLO, of a board of another role than `role`.
abbrev pub is_other_hello : ℕ → List ℕ → Bool
is_other_hello role bytes =
    leb sizeof_hello (length bytes)
    && hdr_valid (hdr_at bytes)
    && (hdr_at bytes).type == link_t_hello
    && not (hello_role bytes == role)

accepted :
    {A : Type 0} (n : ℕ) (valid hello same : Bool) (x y : A)
    → (leb sizeof_hdr n && valid) ≡ true
    → (if hello && leb sizeof_hello n then (if same then x else y) else x)
      ≡ (if leb sizeof_hello n && valid && hello && not same then y else x)
accepted n valid hello same x y e = ground arith

refused :
    {A : Type 0} (n : ℕ) (valid hello same : Bool) (x y : A)
    → (leb sizeof_hdr n && valid) ≡ false
    → x ≡ (if leb sizeof_hello n && valid && hello && not same then y else x)
refused n valid hello same x y e = ground arith

pub role-expire : (l : Link) (now : ℕ) → (expire l now).role ≡ l.role
unfolding expire
role-expire l now = ground arith

differs : (a b c : ℕ) → a ≢ b → c ≡ b → not (c == a) ≡ true
differs a b c ne e = ground arith

module _ (radio : PeerApi) (api : QueueApi RxItem) where
  pairing-add_peer : (l : Link) (mac : List ℕ) → pairing (add_peer radio l mac) ≡ pairing l
  unfolding add_peer
  pairing-add_peer l mac = ground arith

  pairing-on_hello :
      (l : Link) (a : Arrival)
      → pairing (on_hello radio l a)
        ≡ (if hello_role a.bytes == l.role then pairing l else (true, a.src_addr))
  unfolding on_hello
  pairing-on_hello l a = ground (arith, same_mac_sound l.peer a.src_addr)

  pub same-enqueue :
      (l : Link) (a : Arrival) (junk : List ℕ)
      → (pairing (enqueue api l a junk) ≡ pairing l)
        × ((enqueue api l a junk).role ≡ l.role)
        × ((enqueue api l a junk).last_rx_ms ≡ l.last_rx_ms)
  unfolding enqueue
  same-enqueue l a junk = ground arith

  pub pairing-recv_valid :
      (l : Link) (now : ℕ) (a : Arrival) (junk : List ℕ)
      → pairing (recv_valid radio api l now a junk) ≡ (
          if (hdr_at a.bytes).type == link_t_hello && leb sizeof_hello (length a.bytes)
          then (if hello_role a.bytes == l.role then pairing l else (true, a.src_addr))
          else pairing l)
  unfolding recv_valid bookkeeping
  pairing-recv_valid l now a junk =
      (same-enqueue _ a junk).0
      ∙ elim (Bool-cases
          ((hdr_at a.bytes).type == link_t_hello && leb sizeof_hello (length a.bytes))) [
            | inl e ↦ rw e (pairing-on_hello _ a)
            | inr e ↦ rw e
          ]

  -- A received frame pairs the board with its sender exactly if it is a HELLO of the other role; else
  -- the board stays as it is, linked or not.
  pub pairing-recv_cb :
      (l : Link) (now : ℕ) (a : Arrival) (junk : List ℕ)
      → pairing (recv_cb radio api l now a junk)
        ≡ (if is_other_hello l.role a.bytes then (true, a.src_addr) else pairing l)
  unfolding recv_cb
  pairing-recv_cb l now a junk =
      elim (Bool-cases (leb sizeof_hdr (length a.bytes) && hdr_valid (hdr_at a.bytes))) [
        | inl e ↦ rw e (pairing-recv_valid l now a junk ∙ accepted (length a.bytes) _ _ _ _ _ e)
        | inr e ↦ rw e (refused (length a.bytes) _ _ _ _ _ e)
      ]

  -- Two boards of different roles: one is linked to the other once it has received any frame that the
  -- other's `link_task` sends, whatever state the two are in.
  pub recv_cb-link_task :
      (l other : Link) (now later : ℕ) (mac : List ℕ) (strength : Option ℤ) (junk : List ℕ)
      → l.role ≢ other.role
      → let a : Arrival = record {
        src_addr = mac;
        rx_ctrl = strength;
        bytes = (link_task other later).1.bytes;
      } in
        pairing (recv_cb radio api l now a junk) ≡ (true, mac)
  unfolding link_task
  recv_cb-link_task l other now later mac strength junk ne =
      pairing-recv_cb l now
        (record { src_addr = mac; rx_ctrl = strength; bytes = (link_task other later).1.bytes })
        junk
      ∙ rw (differs l.role other.role (expire other later).role ne (role-expire other later)) refl
