-- ===== src/System/Commands.antt =====
-- The writes that wait in console-side/src/main.c, and the frames of its handler for the console.
use wireless_skyportal_conne.Prelude.{
  ℕ, zero, suc, ◌≡◌, refl, arith, ap, sym, subst, ◌∙◌, Bool, true, false, List, [], ◌∷◌, ◌++◌, ◌==◌,
  ltb, if◌then◌else◌, length, take, slice, Bool-cases, inl, inr, All, All-map, All-append,
}
use wireless_skyportal_conne.Frame.{tunnel_len, link_t_tun_out, link_t_tun_outep}
use wireless_skyportal_conne.Rtos.{send_lem, receive_cases}
use wireless_skyportal_conne.Console.{
  Console, Item, Apis, item_of, item_size, min_of, tunnelled, is_tag_write, set_report, answer,
  push_in, queue_local, on_tun_in, snoop_in, on_link_recv,
}
use wireless_skyportal_conne.Console.Tunnel.{contents-item_of}
use wireless_skyportal_conne.Console.Live.{empty_sem}
use wireless_skyportal_conne.Console.Task.{
  Pc, InHand, idle, testing, emptied, awaiting, taken, ended, write_step,
}
use wireless_skyportal_conne.Console.Log.{dlog}
use wireless_skyportal_conne.System.Up.{
  Up, Tagged, Tagged-more, command, take-min_of, tunnelled-cut, Up-write_frame,
}

module _ (apis : Apis) where
  write_q-answer :
      (s : Console) (junk buffer : List ℕ) → (answer apis s junk buffer).write_q ≡ s.write_q
  unfolding answer queue_local push_in
  write_q-answer s junk buffer = ground arith

  write_q-on_tun_in :
      (s : Console) (junk report : List ℕ) → (on_tun_in apis s junk report).write_q ≡ s.write_q
  unfolding on_tun_in snoop_in push_in
  write_q-on_tun_in s junk report = ground arith

  pub write_q-on_link_recv :
      (s : Console) (junk : List ℕ) (type : ℕ) (frame : List ℕ) (len : ℕ)
      → (on_link_recv apis s junk type frame len).write_q ≡ s.write_q
  unfolding on_link_recv
  write_q-on_link_recv s junk type frame len =
      ground (arith, write_q-on_tun_in s junk (slice frame 7 (min_of 64 (tunnel_len frame))))

  tag_write-Tagged :
      (commanded : List (List ℕ)) (junk buffer : List ℕ)
      → is_tag_write buffer ≡ true
      → Tagged (buffer ∷ commanded) (item_of junk (take (min_of item_size (length buffer)) buffer))
  tag_write-Tagged commanded junk buffer tag =
      let bytes = take (min_of item_size (length buffer)) buffer in
      let whole = contents-item_of junk bytes in
      (buffer, inl refl, tag, whole ∙ take-min_of 64 buffer, ap length (sym whole))

  Tagged-send :
      (commanded : List (List ℕ)) (q : List Item) (it : Item)
      → All (Tagged commanded) q
      → Tagged commanded it
      → All (Tagged commanded) (apis.items.send 16 q it).1
  Tagged-send commanded q it h t =
      subst (All (Tagged commanded)) (sym (send_lem apis.items 16 q it))
        (choose (ltb (length q) 16))
    where
      choose : (b : Bool) → All (Tagged commanded) (if b then q ++ (it ∷ []) else q)
      choose true = All-append (Tagged commanded) q (it ∷ []) h (t, tt)
      choose false = h

  -- A report of the console: the frames that go out, and the writes that wait.
  pub set_report-Up :
      (commanded : List (List ℕ)) (s : Console) (junk : List ℕ) (report_id : ℕ) (buffer : List ℕ)
      → All (Tagged commanded) s.write_q
      → let r = set_report apis s junk report_id buffer in
        All (Tagged (buffer ∷ commanded)) r.0.write_q × All (Up (buffer ∷ commanded)) r.1
  unfolding set_report
  set_report-Up commanded s junk report_id buffer h = elim (Bool-cases (report_id == 0xEE)) [
    | inl e ↦ rw e (older, (frame link_t_tun_outep, tt))
    | inr e ↦ elim (Bool-cases (ltb (length buffer) 1)) [
      | inl f ↦ rw (e, f) (older, tt)
      | inr f ↦ elim (Bool-cases (is_tag_write buffer)) [
        | inl g ↦
            rw (e, f, g)
              (
                Tagged-send (buffer ∷ commanded) s.write_q
                    (item_of junk (take (min_of item_size (length buffer)) buffer)) older
                    (tag_write-Tagged commanded junk buffer g),
                tt,
              )
        | inr g ↦ rw (e, f, g, write_q-answer s junk buffer) (older, (frame link_t_tun_out, tt))
      ]
    ]
  ]
    where
      older : All (Tagged (buffer ∷ commanded)) s.write_q
      older =
          All-map (Tagged commanded) (Tagged (buffer ∷ commanded)) (Tagged-more commanded buffer)
            s.write_q h

      frame : (type : ℕ) → Up (buffer ∷ commanded) (tunnelled type buffer)
      frame type =
          command type 0 buffer (take 200 buffer) (inl refl) (inl refl) (tunnelled-cut type buffer)

  -- The writes that wait, the one in hand, and the frames, after the next action of `write_task`.
  pub Tagged-write_step :
      (commanded : List (List ℕ)) (s : Console) (pc : Pc) (now : ℕ)
      → All (Tagged commanded) s.write_q
      → InHand (λ w. Tagged commanded w.item) pc
      → let t = write_step apis s pc now in
        All (Tagged commanded) t.console.write_q
        × InHand (λ w. Tagged commanded w.item) t.pc
        × All (Up commanded) t.frames
  unfolding write_step empty_sem dlog
  Tagged-write_step commanded s idle now h k = elim (receive_cases apis.items s.write_q) [
    | inl e ↦ rw (write_step, e) (h, tt, tt)
    | inr (it, rest, e, q) ↦
        let both = subst (All (Tagged commanded)) q h in rw (write_step, e) (both.1, both.0, tt)
  ]
  Tagged-write_step commanded s (testing w zero) now h k = (h, k, tt)
  Tagged-write_step commanded s (testing w (suc left)) now h k =
      elim (receive_cases apis.sem s.ack_sem) [
        | inl e ↦ rw (empty_sem, e) (h, k, tt)
        | inr (t, rest, e, q) ↦ rw (empty_sem, e) (h, k, tt)
      ]
  Tagged-write_step commanded s (emptied w left) now h k =
      (h, k, (Up-write_frame commanded w.seq w.item k, tt))
  Tagged-write_step commanded s (awaiting w left) now h k =
      elim (receive_cases apis.sem s.ack_sem) [
        | inl e ↦ rw (write_step, e) (h, k, tt)
        | inr (t, rest, e, q) ↦ rw (write_step, e) (h, k, tt)
      ]
  Tagged-write_step commanded s (taken w left) now h k = elim (Bool-cases (s.acked_seq == w.seq)) [
    | inl e ↦ rw e (h, k, tt)
    | inr e ↦ rw e (h, k, tt)
  ]
  Tagged-write_step commanded s (ended w true) now h k = (h, tt, tt)
  Tagged-write_step commanded s (ended w false) now h k = (h, tt, tt)
