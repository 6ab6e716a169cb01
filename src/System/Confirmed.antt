-- ===== src/System/Confirmed.antt =====
-- A write through both boards at once: what `write_task` of console-side/src/main.c may conclude from an
-- acknowledgement, when the frames that arrive are those that portal-side/src/main.c has sent.
use wireless_skyportal_conne.Prelude.{
  ℕ, ◌+◌, ◌^◌, ◌<◌, ◌≤◌, ◌≡◌, refl, arith, ap, sym, subst, ◌∙◌, Bool, true, false, ◌&&◌, List, [],
  ◌∷◌, ◌++◌, Option, inl, inr, ◌==◌, leb, length, get_or-append_left, Among, All,
}
use wireless_skyportal_conne.Frame.{
  hdr_at, hdr_init, ack_bytes, ack_seq_at, link_t_ack, link_ok, sizeof_ack,
}
use wireless_skyportal_conne.Console.{Console, Item}
use wireless_skyportal_conne.Console.Live.{Frame, Attempt, live_loop}
use wireless_skyportal_conne.Console.Arrivals.{is_ack}
use wireless_skyportal_conne.Console.Acked.{live_loop-Acks}
use wireless_skyportal_conne.System.World.{Env, Event, run, start}
use wireless_skyportal_conne.System.Up.{Up, command, hello}
use wireless_skyportal_conne.System.Sent.{FromConsole-run, start-FromConsole}
use wireless_skyportal_conne.System.Answers.{Written, Answer, other, ack, Among-All}
use wireless_skyportal_conne.System.Acks.{run-Answer}

-- The frame is one of those, in a buffer with any bytes after it, and passed on under its own type.
abbrev pub FromAir : List (List ℕ) → Frame → Type 0
FromAir frames f =
    (sent : List ℕ) × (rest : List ℕ) × Among sent frames
    × (f.bytes ≡ sent ++ rest)
    × (f.type ≡ (hdr_at f.bytes).type)

All-Among : (P : Frame → Type 0) (f : Frame) (fs : List Frame) → Among f fs → All P fs → P f
All-Among P f [] h a = absurd h
All-Among P f (g ∷ fs) (inl e) a = subst P (sym e) a.0
All-Among P f (g ∷ fs) (inr h) a = All-Among P f fs h a.1

small_number :
    (commanded : List (List ℕ)) (frame : List ℕ) → Up commanded frame → (hdr_at frame).seq < 2 ^ 16
small_number commanded frame (command type seq c r member cut e) =
    subst (λ f. (hdr_at f).seq < 2 ^ 16) (sym e) (omega arith)
small_number commanded frame (hello seq role e) =
    subst (λ f. (hdr_at f).seq < 2 ^ 16) (sym e) (omega arith)

number_read :
    (seq : ℕ) (rest : List ℕ)
    → seq < 2 ^ 16
    → ack_seq_at (ack_bytes (hdr_init link_t_ack 0) seq link_ok ++ rest) ≡ seq
number_read seq rest h = omega arith

same_type :
    (sent rest : List ℕ) → 6 ≤ length sent → (hdr_at (sent ++ rest)).type ≡ (hdr_at sent).type
same_type sent rest h = get_or-append_left sent rest 3 0 (omega arith)

module _ (commanded to_portal : List (List ℕ)) (transferred : List (Option (List ℕ))) where
  pub Written-Answer :
      (sent rest : List ℕ)
      → All (Up commanded) to_portal
      → Answer to_portal transferred sent
      → ((hdr_at (sent ++ rest)).type == link_t_ack) ≡ true
      → Written to_portal transferred (ack_seq_at (sent ++ rest))
  Written-Answer sent rest up (other long not_ack) is =
      absurd (differ (sym is ∙ ap (λ t. t == link_t_ack) (same_type sent rest long) ∙ not_ack))
    where
      differ : true ≡ false → ⊥
      differ e = cc
  Written-Answer sent rest up (ack seq e (write, m, t, n, d)) is =
      subst (λ f. Written to_portal transferred (ack_seq_at (f ++ rest))) (sym e)
        (subst (Written to_portal transferred)
          (sym (
            number_read seq rest (
              subst (λ k. k < 2 ^ 16) n
                (small_number commanded write (Among-All (Up commanded) write to_portal m up)))))
          (write, m, t, n, d))

  Written-frame :
      (frames : List (List ℕ)) (f : Frame)
      → All (Up commanded) to_portal
      → All (Answer to_portal transferred) frames
      → FromAir frames f
      → is_ack f ≡ true
      → Written to_portal transferred (ack_seq_at f.bytes)
  Written-frame frames f up answers (sent, rest, m, e, t) is =
      subst (λ b. Written to_portal transferred (ack_seq_at b)) (sym e)
        (Written-Answer sent rest up
          (Among-All (Answer to_portal transferred) sent frames m answers)
          (ap (λ b. (hdr_at b).type == link_t_ack) (sym e)
            ∙ ap (λ n. n == link_t_ack) (sym t)
            ∙ left (f.type == link_t_ack) (leb sizeof_ack f.len) is))
    where
      left : (a b : Bool) → (a && b) ≡ true → a ≡ true
      left true b h = refl
      left false b h = cc

-- Both boards have run from their start through any steps, and `write_task` makes its attempts at a
-- write, with any of the frames that the portal's side has sent by then arriving in any order, any number
-- of times, between its calls: if the write counts as acknowledged, then the console's side has sent a
-- write of that number, and the real portal got the bytes of that write.
live_loop-Written :
    (env : Env) (store : env.nvs.Store) (es : List Event) (script : ℕ → Attempt) (n k seq : ℕ)
    (w : Item) (s : Console)
    → let world = run env (start env store) es in
      length s.ack_sem ≤ 1
      → ((j : ℕ) → All (FromAir world.to_console) ((script j).during ++ (script j).after))
      → (live_loop env.console script n k seq w s).2 ≡ true
      → Written world.to_portal world.transferred seq
live_loop-Written env store es script n k seq w s h air acked =
    let world = run env (start env store) es in
    let (j, l, (f, m, is, number)) = live_loop-Acks env.console script n k seq w s h acked in
    subst (Written world.to_portal world.transferred) number (
      Written-frame world.commanded world.to_portal world.transferred world.to_console f
        (FromConsole-run env es (start env store) (start-FromConsole env store)).frames
        (run-Answer env store es)
        (All-Among (FromAir world.to_console) f ((script (k + j)).during ++ (script (k + j)).after)
          m (air (k + j)))
        is)
