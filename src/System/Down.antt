-- ===== src/System/Down.antt =====
-- The frames that the portal's side sends, and what console-side/src/main.c makes of them.
use wireless_skyportal_conne.Prelude.{
  ℕ, zero, suc, true, false, ◌+◌, ◌≤◌, ◌≡◌, refl, arith, ap, sym, subst, List, ◌∷◌, ◌++◌, ◌==◌,
  length, map, Bool-cases, inl, inr, Among, All,
}
use wireless_skyportal_conne.Frame.{
  hdr_init, hdr_at, tunnel_bytes, ack_bytes, hello_bytes, link_t_tun_in, link_t_tun_out,
  link_t_tun_outep, link_t_tun_write, link_t_ack, link_t_hello, link_ok,
}
use wireless_skyportal_conne.Rtos.{QueueApi, receive_cases}
use wireless_skyportal_conne.Link.{Link, RxItem}
use wireless_skyportal_conne.Link
use wireless_skyportal_conne.Portal.{Portal, on_portal_in}
use wireless_skyportal_conne.Portal
use wireless_skyportal_conne.Console.{Console, Item, Apis, contents, on_mount, set_report}
use wireless_skyportal_conne.Console
use wireless_skyportal_conne.Console.Tunnel.{on_link_recv-tun_in}
use wireless_skyportal_conne.Console.Live.{empty_sem}
use wireless_skyportal_conne.Console.Task.{
  Pc, idle, testing, emptied, awaiting, taken, ended, write_step,
}
use wireless_skyportal_conne.Console.Log.{dlog}
use wireless_skyportal_conne.System.Sends.{frames_of}
use wireless_skyportal_conne.System.Radio.{Whole}
use wireless_skyportal_conne.System.Shown.{Shown, IsHonest, IsHonest-same}
use wireless_skyportal_conne.System.Replies.{IsHonest-on_tun_in}

-- The frames of the portal's side: reports of the real portal, acknowledgements, and HELLOs.
pub data Down (reported : List (List ℕ)) (frame : List ℕ) : Type 0 where
  report :
      (r : List ℕ)
      → Among r reported
      → 1 ≤ length r
      → length r ≤ 64
      → frame ≡ tunnel_bytes (hdr_init link_t_tun_in 0) (length r) r
      → Down reported frame
  ack : (seq : ℕ) → frame ≡ ack_bytes (hdr_init link_t_ack 0) seq link_ok → Down reported frame
  hello :
      (seq role : ℕ)
      → frame ≡ hello_bytes (hdr_init link_t_hello seq) role 1 0
      → Down reported frame

pub Down-more :
    (reported : List (List ℕ)) (new frame : List ℕ)
    → Down reported frame
    → Down (new ∷ reported) frame
Down-more reported new frame (report r member lo hi e) = report r (inr member) lo hi e
Down-more reported new frame (ack seq e) = ack seq e
Down-more reported new frame (hello seq role e) = hello seq role e

pub Down-link_task :
    (reported : List (List ℕ)) (l : Link) (now : ℕ) → Down reported (Link.link_task l now).1.bytes
unfolding Link.link_task
Down-link_task reported l now = hello (Link.expire l now).seq (Link.expire l now).role refl

-- The portal's side answers frames with acknowledgements alone.
pub Down-on_link_recv :
    (reported : List (List ℕ)) (api : QueueApi (List ℕ)) (p : Portal) (now type : ℕ)
    (frame : List ℕ)
    → All (Down reported) (frames_of (Portal.on_link_recv api p now type frame).1)
unfolding Portal.on_link_recv Portal.on_write
Down-on_link_recv reported api p now type frame = elim (Bool-cases (type == link_t_tun_out)) [
  | inl e ↦ rw e tt
  | inr e ↦ elim (Bool-cases (type == link_t_tun_outep)) [
    | inl f ↦ rw (e, f) tt
    | inr f ↦ elim (Bool-cases (type == link_t_tun_write)) [
      | inl g ↦ rw (e, f, g) (ack (hdr_at frame).seq refl, tt)
      | inr g ↦ rw (e, f, g) tt
    ]
  ]
]

All-rest :
    (P : List ℕ → Type 0) (it : Item) (q : List Item)
    → All P (map contents (it ∷ q))
    → All P (map contents q)
All-rest P it q h = h.1

module _ (apis : Apis) (commanded reported : List (List ℕ)) where
  -- A frame of the portal's side, in a buffer with any bytes after it.
  IsHonest-on_link_recv :
      (s : Console) (junk frame rest : List ℕ)
      → IsHonest commanded reported s
      → Down reported frame
      → IsHonest commanded reported (
          Console.on_link_recv apis s junk
            (hdr_at (frame ++ rest)).type
            (frame ++ rest)
            (length frame))
  unfolding Console.on_link_recv
  IsHonest-on_link_recv s junk frame rest v (report r member lo hi e) =
      subst
        (λ f.
          IsHonest commanded reported
            (Console.on_link_recv apis s junk (hdr_at (f ++ rest)).type (f ++ rest) (length f)))
        (sym e)
        (subst
          (λ n. IsHonest commanded reported (
            Console.on_link_recv apis s junk link_t_tun_in
              (tunnel_bytes (hdr_init link_t_tun_in 0) (length r) r ++ rest) n))
          (size r)
          (subst (IsHonest commanded reported) (sym (on_link_recv-tun_in apis s junk r rest hi))
            (IsHonest-on_tun_in apis commanded reported s junk r v member lo hi)))
    where
      size :
          (t : List ℕ)
          → 7 + length t ≡ length (tunnel_bytes (hdr_init link_t_tun_in 0) (length t) t)
      size t = omega arith
  IsHonest-on_link_recv s junk frame rest v (ack seq e) =
      subst
        (λ f.
          IsHonest commanded reported
            (Console.on_link_recv apis s junk (hdr_at (f ++ rest)).type (f ++ rest) (length f)))
        (sym e) (IsHonest-same commanded reported s _ refl v)
  IsHonest-on_link_recv s junk frame rest v (hello seq role e) =
      subst
        (λ f.
          IsHonest commanded reported
            (Console.on_link_recv apis s junk (hdr_at (f ++ rest)).type (f ++ rest) (length f)))
        (sym e) v

  pub IsHonest-item :
      (s : Console) (junk : List ℕ) (item : RxItem)
      → IsHonest commanded reported s
      → Whole (Down reported) item
      → IsHonest commanded reported
          (Console.on_link_recv apis s junk (hdr_at item.bytes).type item.bytes item.len)
  IsHonest-item s junk item v (frame, rest, down, e, n) =
      subst
        (λ b.
          IsHonest commanded reported (Console.on_link_recv apis s junk (hdr_at b).type b item.len))
        (sym e)
        (subst
          (λ k.
            IsHonest commanded reported
              (Console.on_link_recv apis s junk (hdr_at (frame ++ rest)).type (frame ++ rest) k))
          (sym n) (IsHonest-on_link_recv s junk frame rest v down))

  pub IsHonest-mount :
      (s : Console) → IsHonest commanded reported s → IsHonest commanded reported (on_mount apis s)
  unfolding on_mount
  IsHonest-mount s v = record {
    buffers = record {
      ready = v.buffers.ready;
      act = v.buffers.act;
      queue = rw (apis.items.reset_lem s.in_q) (omega arith);
    };
    shown = rw (apis.items.reset_lem s.in_q) tt;
    ready = v.ready;
    act = v.act;
  }

  -- The console takes the oldest report.
  pub IsHonest-taken :
      (s : Console) (it : Item) (rest : List Item)
      → s.in_q ≡ it ∷ rest
      → IsHonest commanded reported s
      → IsHonest commanded reported (record s { in_q = rest })
  IsHonest-taken s it rest e v = record {
    buffers = record {
      ready = v.buffers.ready;
      act = v.buffers.act;
      queue = omega (arith, v.buffers.queue, ap length e);
    };
    shown =
        All-rest (Shown commanded reported) it rest
          (subst (λ q. All (Shown commanded reported) (map contents q)) e v.shown);
    ready = v.ready;
    act = v.act;
  }

  pub IsHonest-write_step :
      (s : Console) (pc : Pc) (now : ℕ)
      → IsHonest commanded reported s
      → IsHonest commanded reported (write_step apis s pc now).console
  unfolding write_step empty_sem dlog
  IsHonest-write_step s idle now v = elim (receive_cases apis.items s.write_q) [
    | inl e ↦ rw (write_step, e) v
    | inr (it, rest, e, q) ↦ rw (write_step, e) (IsHonest-same commanded reported s _ refl v)
  ]
  IsHonest-write_step s (testing w zero) now v = v
  IsHonest-write_step s (testing w (suc left)) now v = elim (receive_cases apis.sem s.ack_sem) [
    | inl e ↦ rw (empty_sem, e) v
    | inr (t, rest, e, q) ↦ rw (empty_sem, e) (IsHonest-same commanded reported s _ refl v)
  ]
  IsHonest-write_step s (emptied w left) now v = v
  IsHonest-write_step s (awaiting w left) now v = elim (receive_cases apis.sem s.ack_sem) [
    | inl e ↦ rw (write_step, e) v
    | inr (t, rest, e, q) ↦ rw (write_step, e) (IsHonest-same commanded reported s _ refl v)
  ]
  IsHonest-write_step s (taken w left) now v = elim (Bool-cases (s.acked_seq == w.seq)) [
    | inl e ↦ rw e v
    | inr e ↦ rw e v
  ]
  IsHonest-write_step s (ended w true) now v = IsHonest-same commanded reported s _ refl v
  IsHonest-write_step s (ended w false) now v = IsHonest-same commanded reported s _ refl v
