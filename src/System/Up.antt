-- ===== src/System/Up.antt =====
-- The frames that console-side/src/main.c sends, and what portal-side/src/main.c transfers for them.
use wireless_skyportal_conne.Prelude.{
  ℕ, ◌%◌, ◌≡◌, ◌⊎◌, refl, arith, ap, ap₂, sym, subst, ◌∙◌, true, List, ◌∷◌, ◌++◌, ◌==◌, ltb, Option,
  some, length, min, take, length-take, take_all, Bool-cases, inl, inr, Among, All,
}
use wireless_skyportal_conne.Frame.{
  hdr_init, hdr_at, tunnel_bytes, tunnel_len, tunnel_payload, hello_bytes, link_t_tun_out,
  link_t_tun_outep, link_t_tun_write, link_t_hello,
}
use wireless_skyportal_conne.Frame.Wire.{tunnel_payload-tunnel_bytes}
use wireless_skyportal_conne.Rtos.{QueueApi}
use wireless_skyportal_conne.Link.{Link, RxItem}
use wireless_skyportal_conne.Link
use wireless_skyportal_conne.Portal.{Portal}
use wireless_skyportal_conne.Portal
use wireless_skyportal_conne.Console.{Item, contents, min_of, tunnelled, is_tag_write}
use wireless_skyportal_conne.Console.Writer.{write_frame}
use wireless_skyportal_conne.System.Sends.{transfers_of}
use wireless_skyportal_conne.System.Press.{Press, IsRestoring}
use wireless_skyportal_conne.System.Radio.{Whole}

-- The bytes of a command that go over the air: 200 at most, and of a tag write 64.
abbrev pub Cut : List ℕ → List ℕ → Type 0
Cut command r = (r ≡ take 200 command) ⊎ ((is_tag_write command ≡ true) × (r ≡ take 64 command))

-- The frames of the console's side: commands, and HELLOs.
pub data Up (commanded : List (List ℕ)) (frame : List ℕ) : Type 0 where
  command :
      (type seq : ℕ) (c r : List ℕ)
      → Among c commanded
      → Cut c r
      → frame ≡ tunnel_bytes (hdr_init type seq) (length r) r
      → Up commanded frame
  hello :
      (seq role : ℕ) → frame ≡ hello_bytes (hdr_init link_t_hello seq) role 1 0 → Up commanded frame

-- A transfer that lies inside its buffer: of a command, or of a restore at a press of the button.
pub data Sent (commanded : List (List ℕ)) (pressed : List Press) (transfer : Option (List ℕ))
    : Type 0 where
  of_console :
      (c r : List ℕ)
      → Among c commanded
      → Cut c r
      → transfer ≡ some r
      → Sent commanded pressed transfer
  of_restore :
      (press : Press) (bytes : List ℕ)
      → Among press pressed
      → IsRestoring press bytes
      → transfer ≡ some bytes
      → Sent commanded pressed transfer

-- A waiting write.
abbrev pub Tagged : List (List ℕ) → Item → Type 0
Tagged commanded it =
    (c : List ℕ) × Among c commanded
    × (is_tag_write c ≡ true)
    × (contents it ≡ take 64 c)
    × (it.len ≡ length (contents it))

pub Up-more :
    (commanded : List (List ℕ)) (new frame : List ℕ)
    → Up commanded frame
    → Up (new ∷ commanded) frame
Up-more commanded new frame (command type seq c r member cut e) =
    command type seq c r (inr member) cut e
Up-more commanded new frame (hello seq role e) = hello seq role e

pub Sent-more :
    (commanded : List (List ℕ)) (pressed : List Press) (new : List ℕ) (transfer : Option (List ℕ))
    → Sent commanded pressed transfer
    → Sent (new ∷ commanded) pressed transfer
Sent-more commanded pressed new transfer (of_console c r member cut e) =
    of_console c r (inr member) cut e
Sent-more commanded pressed new transfer (of_restore press bytes member h e) =
    of_restore press bytes member h e

pub Sent-pressed :
    (commanded : List (List ℕ)) (pressed : List Press) (new : Press) (transfer : Option (List ℕ))
    → Sent commanded pressed transfer
    → Sent commanded (new ∷ pressed) transfer
Sent-pressed commanded pressed new transfer (of_console c r member cut e) =
    of_console c r member cut e
Sent-pressed commanded pressed new transfer (of_restore press bytes member h e) =
    of_restore press bytes (inr member) h e

pub Tagged-more :
    (commanded : List (List ℕ)) (new : List ℕ) (it : Item)
    → Tagged commanded it
    → Tagged (new ∷ commanded) it
Tagged-more commanded new it (c, member, tag, e, l) = (c, inr member, tag, e, l)

pub take-min_of : (n : ℕ) (xs : List ℕ) → take (min_of n (length xs)) xs ≡ take n xs
take-min_of n xs = elim (Bool-cases (ltb n (length xs))) [
  | inl e ↦ rw e refl
  | inr e ↦ rw e (take_all (length xs) xs (omega arith) ∙ sym (take_all n xs (ground arith)))
]

pub tunnelled-cut :
    (type : ℕ) (buffer : List ℕ)
    → tunnelled type buffer
      ≡ tunnel_bytes (hdr_init type 0) (length (take 200 buffer)) (take 200 buffer)
unfolding tunnelled
tunnelled-cut type buffer =
    ap₂ (tunnel_bytes (hdr_init type 0)) (size (length buffer) ∙ sym (length-take 200 buffer))
      (take-min_of 200 buffer)
  where
    size : (n : ℕ) → min_of 200 n % 256 ≡ min 200 n
    size n = ground arith

pub Up-link_task :
    (commanded : List (List ℕ)) (l : Link) (now : ℕ) → Up commanded (Link.link_task l now).1.bytes
unfolding Link.link_task
Up-link_task commanded l now = hello (Link.expire l now).seq (Link.expire l now).role refl

pub Up-write_frame :
    (commanded : List (List ℕ)) (seq : ℕ) (w : Item)
    → Tagged commanded w
    → Up commanded (write_frame seq w)
unfolding write_frame
Up-write_frame commanded seq w (c, member, tag, e, l) =
    command link_t_tun_write seq c (contents w) member (inr (tag, e))
      (ap (λ n. tunnel_bytes (hdr_init link_t_tun_write seq) n (contents w)) l)

-- What the portal's side transfers is at most what the frame tells it to.
transfers-on_link_recv :
    (P : Option (List ℕ) → Type 0) (api : QueueApi (List ℕ)) (p : Portal) (now type : ℕ)
    (frame : List ℕ)
    → P (tunnel_payload frame (tunnel_len frame))
    → All P (transfers_of (Portal.on_link_recv api p now type frame).1)
unfolding Portal.on_link_recv Portal.on_write
transfers-on_link_recv P api p now type frame h = elim (Bool-cases (type == link_t_tun_out)) [
  | inl e ↦ rw e (h, tt)
  | inr e ↦ elim (Bool-cases (type == link_t_tun_outep)) [
    | inl f ↦ rw (e, f) (h, tt)
    | inr f ↦ elim (Bool-cases (type == link_t_tun_write)) [
      | inl g ↦ rw (e, f, g) (h, tt)
      | inr g ↦ rw (e, f, g) tt
    ]
  ]
]

module _ (api : QueueApi (List ℕ)) (commanded : List (List ℕ)) (pressed : List Press) where
  Sent-frame :
      (p : Portal) (now : ℕ) (frame rest : List ℕ)
      → Up commanded frame
      → All (Sent commanded pressed) (
          transfers_of
            (Portal.on_link_recv api p now (hdr_at (frame ++ rest)).type (frame ++ rest)).1)
  unfolding Portal.on_link_recv
  Sent-frame p now frame rest (command type seq c r member cut e) =
      subst
        (λ f.
          All (Sent commanded pressed)
            (transfers_of (Portal.on_link_recv api p now (hdr_at (f ++ rest)).type (f ++ rest)).1))
        (sym e)
        (transfers-on_link_recv (Sent commanded pressed) api p now type
          (tunnel_bytes (hdr_init type seq) (length r) r ++ rest)
          (of_console c r member cut (tunnel_payload-tunnel_bytes (hdr_init type seq) r rest)))
  Sent-frame p now frame rest (hello seq role e) =
      subst
        (λ f.
          All (Sent commanded pressed)
            (transfers_of (Portal.on_link_recv api p now (hdr_at (f ++ rest)).type (f ++ rest)).1))
        (sym e) tt

  pub Sent-item :
      (p : Portal) (now : ℕ) (item : RxItem)
      → Whole (Up commanded) item
      → All
          (Sent commanded pressed)
          (transfers_of (Portal.on_link_recv api p now (hdr_at item.bytes).type item.bytes).1)
  Sent-item p now item (frame, rest, up, e, n) =
      subst
        (λ b.
          All (Sent commanded pressed)
            (transfers_of (Portal.on_link_recv api p now (hdr_at b).type b).1))
        (sym e) (Sent-frame p now frame rest up)
