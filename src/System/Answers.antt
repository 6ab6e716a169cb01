-- ===== src/System/Answers.antt =====
-- Both boards and the radio: portal-side/src/main.c acknowledges only what it has transferred.
use wireless_skyportal_conne.Prelude.{
  ℕ, ◌≤◌, ◌≡◌, refl, ap, sym, subst, false, Bool-cases, List, [], ◌∷◌, ◌++◌, ◌==◌, ==_iff, Option,
  some, length, drop, inl, inr, Among, Among-append_right, All,
}
use wireless_skyportal_conne.Frame.{
  hdr_init, hdr_at, tunnel_bytes, ack_bytes, link_t_tun_out, link_t_tun_outep, link_t_tun_write,
  link_t_ack, link_ok,
}
use wireless_skyportal_conne.Frame.Wire.{tunnel_payload-tunnel_bytes}
use wireless_skyportal_conne.Rtos.{QueueApi}
use wireless_skyportal_conne.Link.{RxItem}
use wireless_skyportal_conne.Portal.{Portal, Call, link_send, tunnel_host_send}
use wireless_skyportal_conne.Portal
use wireless_skyportal_conne.System.Sends.{frames_of, transfers_of, newest_first}
use wireless_skyportal_conne.System.Radio.{Whole}
use wireless_skyportal_conne.System.Up.{Up, command, hello}

-- The number and the bytes of a write that the console's side has sent and the portal's side has
-- transferred.
abbrev pub Written : List (List ℕ) → List (Option (List ℕ)) → ℕ → Type 0
Written to_portal transferred seq =
    (write : List ℕ) × Among write to_portal
    × ((hdr_at write).type ≡ link_t_tun_write)
    × ((hdr_at write).seq ≡ seq)
    × Among (some (drop 7 write)) transferred

-- A frame of the portal's side that is no ACK, or the ACK of such a write.
pub data Answer (to_portal : List (List ℕ)) (transferred : List (Option (List ℕ))) (frame : List ℕ)
    : Type 0 where
  other :
      6 ≤ length frame
      → ((hdr_at frame).type == link_t_ack) ≡ false
      → Answer to_portal transferred frame
  ack :
      (seq : ℕ)
      → frame ≡ ack_bytes (hdr_init link_t_ack 0) seq link_ok
      → Written to_portal transferred seq
      → Answer to_portal transferred frame

pub Answer-more :
    (new to_portal : List (List ℕ)) (done transferred : List (Option (List ℕ))) (frame : List ℕ)
    → Answer to_portal transferred frame
    → Answer (new ++ to_portal) (done ++ transferred) frame
Answer-more new to_portal done transferred frame (other l e) = other l e
Answer-more new to_portal done transferred frame (ack seq e (write, m, t, n, d)) = ack seq e (
  write,
  Among-append_right write new to_portal m,
  t,
  n,
  Among-append_right (some (drop 7 write)) done transferred d,
)

-- A frame of the portal's side that is no ACK, or the ACK of such a write, sent by one of its calls, with the
-- write's bytes handed over by an older call.
pub data InOrder (to_portal : List (List ℕ)) (calls : List Call) (frame : List ℕ) : Type 0 where
  other : ((hdr_at frame).type == link_t_ack) ≡ false → InOrder to_portal calls frame
  ack :
      (seq : ℕ) (later older : List Call)
      → frame ≡ ack_bytes (hdr_init link_t_ack 0) seq link_ok
      → calls ≡ later ++ (link_send frame ∷ older)
      → Written to_portal (transfers_of older) seq
      → InOrder to_portal calls frame

Written-more :
    (new to_portal : List (List ℕ)) (transferred : List (Option (List ℕ))) (seq : ℕ)
    → Written to_portal transferred seq
    → Written (new ++ to_portal) transferred seq
Written-more new to_portal transferred seq (write, m, t, n, d) =
    (write, Among-append_right write new to_portal m, t, n, d)

pub InOrder-more :
    (new to_portal : List (List ℕ)) (calls : List Call) (frame : List ℕ)
    → InOrder to_portal calls frame
    → InOrder (new ++ to_portal) calls frame
InOrder-more new to_portal calls frame (other e) = other e
InOrder-more new to_portal calls frame (ack seq later older e c h) =
    ack seq later older e c (Written-more new to_portal (transfers_of older) seq h)

pub InOrder-later :
    (to_portal : List (List ℕ)) (more calls : List Call) (frame : List ℕ)
    → InOrder to_portal calls frame
    → InOrder to_portal (newest_first more calls) frame
InOrder-later to_portal [] calls frame h = h
InOrder-later to_portal (call ∷ more) calls frame (other e) = other e
InOrder-later to_portal (call ∷ more) calls frame (ack seq later older e c h) =
    InOrder-later to_portal more (call ∷ calls) frame
      (ack seq (call ∷ later) older e (ap (λ cs. call ∷ cs) c) h)

pub Among-All :
    (P : List ℕ → Type 0) (x : List ℕ) (xs : List (List ℕ)) → Among x xs → All P xs → P x
Among-All P x [] h a = absurd h
Among-All P x (y ∷ ys) (inl e) a = subst P (sym e) a.0
Among-All P x (y ∷ ys) (inr h) a = Among-All P x ys h a.1

module _ (api : QueueApi (List ℕ)) (p : Portal) (now : ℕ) (to_portal commanded : List (List ℕ))
    (transferred : List (Option (List ℕ))) (calls : List Call) where
  -- What the portal's side sends for a frame of the console's side, in a buffer with any bytes after it.
  abbrev pub Answered : List ℕ → Type 0
  Answered frame =
      let r = Portal.on_link_recv api p now (hdr_at frame).type frame in
      All (Answer to_portal (transfers_of r.1 ++ transferred)) (frames_of r.1)
      × All (InOrder to_portal (newest_first r.1 calls)) (frames_of r.1)

  Answered-command :
      (type seq : ℕ) (bytes rest : List ℕ)
      → Among (tunnel_bytes (hdr_init type seq) (length bytes) bytes) to_portal
      → Answered (tunnel_bytes (hdr_init type seq) (length bytes) bytes ++ rest)
  unfolding Portal.on_link_recv Portal.on_write
  Answered-command type seq bytes rest m = elim (Bool-cases (type == link_t_tun_out)) [
    | inl e ↦ rw e (tt, tt)
    | inr e ↦ elim (Bool-cases (type == link_t_tun_outep)) [
      | inl f ↦ rw (e, f) (tt, tt)
      | inr f ↦ elim (Bool-cases (type == link_t_tun_write)) [
        | inr g ↦ rw (e, f, g) (tt, tt)
        | inl g ↦
            let write = tunnel_bytes (hdr_init type seq) (length bytes) bytes in
            rw (e, f, g, tunnel_payload-tunnel_bytes (hdr_init type seq) bytes rest)
              (
                (
                  ack (hdr_at (write ++ rest)).seq refl
                      (write, m, (==_iff type link_t_tun_write).0 g, refl, inl refl),
                  tt,
                ),
                (
                  ack (hdr_at (write ++ rest)).seq [] (tunnel_host_send (some bytes) ∷ calls) refl
                      refl (write, m, (==_iff type link_t_tun_write).0 g, refl, inl refl),
                  tt,
                ),
              )
      ]
    ]
  ]

  Answered-frame :
      (frame rest : List ℕ) → Among frame to_portal → Up commanded frame → Answered (frame ++ rest)
  unfolding Portal.on_link_recv
  Answered-frame frame rest m (command type seq c bytes member cut e) =
      subst (λ f. Answered (f ++ rest)) (sym e)
        (Answered-command type seq bytes rest (subst (λ f. Among f to_portal) e m))
  Answered-frame frame rest m (hello seq role e) =
      subst (λ f. Answered (f ++ rest)) (sym e) (tt, tt)

  pub Answered-item :
      (item : RxItem)
      → All (Up commanded) to_portal
      → Whole (λ f. Among f to_portal) item
      → Answered item.bytes
  Answered-item item up (frame, rest, m, e, n) =
      subst Answered (sym e)
        (Answered-frame frame rest m (Among-All (Up commanded) frame to_portal m up))
