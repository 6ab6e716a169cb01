-- ===== src/System/Heard.antt =====
-- The last ACK that console-side/src/main.c has heard, `s_acked_seq`, and what leaves it alone.
use wireless_skyportal_conne.Prelude.{
  ℕ, ◌≡◌, refl, arith, ap, sym, subst, true, List, ◌++◌, ◌==◌, ltb, leb, ◌&&◌, ◌+◌, Option, slice,
  length, Bool-cases, inl, inr, All,
}
use wireless_skyportal_conne.Frame.{
  hdr_at, tunnel_len, ack_seq_at, link_t_ack, link_t_tun_in, sizeof_ack, sizeof_hdr,
}
use wireless_skyportal_conne.Link.{RxItem}
use wireless_skyportal_conne.Console.{
  Console, Apis, min_of, tunnelled, is_tag_write, set_report, answer, push_in, queue_local,
  on_tun_in, snoop_in, on_link_recv,
}
use wireless_skyportal_conne.Console.Task.{Write}
use wireless_skyportal_conne.System.Radio.{Whole}
use wireless_skyportal_conne.System.Up.{Up}
use wireless_skyportal_conne.System.Answers.{Answer}
use wireless_skyportal_conne.System.Confirmed.{Written-Answer}
use wireless_skyportal_conne.System.Numbers.{Numbered, no_write, Done, Heard, Done-Written}

-- The number for the next write and that of the last ACK.
abbrev pub numbers : Console → ℕ × ℕ
numbers s = (s.write_seq, s.acked_seq)

module _ (apis : Apis) where
  numbers-answer :
      (s : Console) (junk buffer : List ℕ) → numbers (answer apis s junk buffer) ≡ numbers s
  unfolding answer queue_local push_in
  numbers-answer s junk buffer = ground arith

  numbers-on_tun_in :
      (s : Console) (junk report : List ℕ) → numbers (on_tun_in apis s junk report) ≡ numbers s
  unfolding on_tun_in snoop_in push_in
  numbers-on_tun_in s junk report = ground arith

  -- A report of the console leaves the numbers alone, and no frame for it is a numbered write.
  pub Numbered-set_report :
      (begun : List Write) (s : Console) (junk : List ℕ) (report_id : ℕ) (buffer : List ℕ)
      → let r = set_report apis s junk report_id buffer in
        (numbers r.0 ≡ numbers s) × All (Numbered begun) r.1
  unfolding set_report tunnelled
  Numbered-set_report begun s junk report_id buffer = elim (Bool-cases (report_id == 0xEE)) [
    | inl e ↦ rw e (refl, (no_write refl, tt))
    | inr e ↦ elim (Bool-cases (ltb (length buffer) 1)) [
      | inl f ↦ rw (e, f) (refl, tt)
      | inr f ↦ elim (Bool-cases (is_tag_write buffer)) [
        | inl g ↦ rw (e, f, g) (refl, tt)
        | inr g ↦ rw (e, f, g) (numbers-answer s junk buffer, (no_write refl, tt))
      ]
    ]
  ]

  -- A frame from the link: only an ACK changes the last number heard, and to its own.
  heard-on_link_recv :
      (P : ℕ → Type 0) (s : Console) (junk : List ℕ) (type : ℕ) (frame : List ℕ) (len : ℕ)
      → P s.acked_seq
      → ((type == link_t_ack) ≡ true → P (ack_seq_at frame))
      → let s' = on_link_recv apis s junk type frame len in
        (s'.write_seq ≡ s.write_seq) × P s'.acked_seq
  unfolding on_link_recv
  heard-on_link_recv P s junk type frame len h k =
      elim (Bool-cases (type == link_t_tun_in && leb (sizeof_hdr + 1) len)) [
        | inl e ↦
            let same = numbers-on_tun_in s junk (slice frame 7 (min_of 64 (tunnel_len frame))) in
            rw e (ap (λ t. t.0) same, subst P (sym (ap (λ t. t.1) same)) h)
        | inr e ↦ elim (Bool-cases (type == link_t_ack)) [
          | inr f ↦ rw (e, f) (refl, h)
          | inl f ↦ elim (Bool-cases (leb sizeof_ack len)) [
            | inl g ↦ rw (e, f, g) (refl, k f)
            | inr g ↦ rw (e, f, g) (refl, h)
          ]
        ]
      ]

  pub write_seq-on_link_recv :
      (s : Console) (junk : List ℕ) (type : ℕ) (frame : List ℕ) (len : ℕ)
      → (on_link_recv apis s junk type frame len).write_seq ≡ s.write_seq
  write_seq-on_link_recv s junk type frame len =
      (heard-on_link_recv (λ n. Unit {0}) s junk type frame len tt (λ e. tt)).0

  pub Heard-item :
      (commanded to_portal : List (List ℕ)) (transferred : List (Option (List ℕ)))
      (begun : List Write) (s : Console) (junk : List ℕ) (item : RxItem)
      → All (Up commanded) to_portal
      → All (Numbered begun) to_portal
      → Heard begun transferred s.acked_seq
      → Whole (Answer to_portal transferred) item
      → let s' = on_link_recv apis s junk (hdr_at item.bytes).type item.bytes item.len in
        (s'.write_seq ≡ s.write_seq) × Heard begun transferred s'.acked_seq
  Heard-item commanded to_portal transferred begun s junk item up all h (frame, rest, a, e, n) =
      heard-on_link_recv (Heard begun transferred) s junk (hdr_at item.bytes).type item.bytes
        item.len h
        (λ is. inr (
          subst (λ b. Done begun transferred (ack_seq_at b)) (sym e)
            (Done-Written begun to_portal transferred (ack_seq_at (frame ++ rest)) all (
              Written-Answer commanded to_portal transferred frame rest up a
                (subst (λ b. ((hdr_at b).type == link_t_ack) ≡ true) e is)))))
