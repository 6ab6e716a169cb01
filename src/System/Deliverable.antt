-- ===== src/System/Deliverable.antt =====
-- Both boards and the radio: no run of console-side/src/main.c and portal-side/src/main.c ends where a write
-- that waits can no longer reach the real portal.
use wireless_skyportal_conne.Prelude.{
  ℕ, suc, ◌^◌, ◌<◌, ◌≤◌, ◌≡◌, refl, arith, ap, sym, subst, ◌∙◌, true, List, [], ◌∷◌, ◌++◌, ==_iff,
  some, length, length-take, inl, Among, All, All-map,
}
use wireless_skyportal_conne.Frame.{hdr_init, tunnel_bytes, link_t_tun_write}
use wireless_skyportal_conne.Link.{RxItem}
use wireless_skyportal_conne.Console.{Item, contents}
use wireless_skyportal_conne.Console.Writer.{write_frame}
use wireless_skyportal_conne.Console.Task.{
  Pc, Write, idle, testing, emptied, awaiting, taken, ended, write_step,
}
use wireless_skyportal_conne.System.World.{Env, World, Event, console_writes, run, start, step}
use wireless_skyportal_conne.System.Sends.{send_all}
use wireless_skyportal_conne.System.Up.{Tagged}
use wireless_skyportal_conne.System.Sent.{FromConsole-run, start-FromConsole}
use wireless_skyportal_conne.System.Delivery.{run-IsSound}
use wireless_skyportal_conne.System.Progress.{
  IsOpen, Can, Can-now, Can-next, Can-then, IsOpen-drained,
}
use wireless_skyportal_conne.System.Rounds.{IsOpen-writes, IsOpen-idle}
use wireless_skyportal_conne.System.Stages.{IsSent, IsTaken, sent-IsTaken}
use wireless_skyportal_conne.System.Hops.{send-linked}

-- The write of that item is acknowledged, and its bytes have been handed over.
abbrev pub IsConfirmed : {S : Type 0} → Item → World S → Type 0
IsConfirmed it w =
    (x : Write) × (x.item ≡ it) × Among x w.acked × Among (some (contents it)) w.transferred

-- And the task is past it, with those writes waiting.
abbrev IsPast : {S : Type 0} → List Item → Item → World S → Type 0
IsPast ws it w = IsConfirmed it w × (x : Write) × IsOpen w [] [] ws (ended x true)

module _ (env : Env) (ws : List Item) where
  -- The task takes the oldest write in hand.
  IsOpen-taken :
      (w : World env.nvs.Store) (it : Item)
      → IsOpen w [] [] (it ∷ ws) idle
      → IsOpen
          (step env w (console_writes 0))
          []
          []
          ws
          (testing (record { seq = w.console.write_seq; item = it }) 6)
  unfolding step write_step
  IsOpen-taken w it v =
      let given : env.console.items.receive w.console.write_q ≡ some (it, ws) =
        ap env.console.items.receive v.write_q ∙ env.console.items.receive_cons it ws in
      rw (v.writer, write_step, given)
        (record {
          portal_runs = v.portal_runs;
          console_runs = v.console_runs;
          portal_linked = v.portal_linked;
          console_linked = v.console_linked;
          write_q = refl;
          small = omega arith;
          writer = refl;
        })

  module _ (x : Write) (left : ℕ) where
    emptied-IsSent :
        (w : World env.nvs.Store)
        → x.item.len ≡ length (contents x.item)
        → IsOpen w [] [] ws (emptied x left)
        → IsSent env ws x left (step env w (console_writes 0))
    unfolding step write_step write_frame
    emptied-IsSent w l v = (
      IsOpen-writes env [] [] ws w 0 (emptied x left) (awaiting x left) v tt refl,
      w.to_portal,
      ap (λ p. send_all w.console_link (write_step env.console w.console p 0).frames ++ w.to_portal)
            v.writer
          ∙ ap (λ fs. fs ++ w.to_portal)
              (send-linked w.console_link (write_frame x.seq x.item) v.console_linked)
          ∙ ap
              (λ n.
                tunnel_bytes (hdr_init link_t_tun_write x.seq) n (contents x.item) ∷ w.to_portal)
              l,
    )

    taken-IsPast :
        (w : World env.nvs.Store)
        → IsTaken env ws x left w
        → IsPast ws x.item (step env w (console_writes 0))
    unfolding step write_step
    taken-IsPast w (v, m, e) =
        let same = (==_iff w.console.acked_seq x.seq).1 e in
        (
          (x, refl, rw (v.writer, write_step, same) (inl refl), m),
          x,
          IsOpen-writes env [] [] ws w 0 (taken x left) (ended x true) v tt (rw same refl),
        )

    -- From an attempt on.
    attempt-IsPast :
        (w : World env.nvs.Store)
        → x.seq < 2 ^ 16
        → x.item.len ≡ length (contents x.item)
        → length (contents x.item) ≤ 64
        → IsOpen w [] [] ws (testing x (suc left))
        → Can env (IsPast ws x.item) w
    unfolding write_step
    attempt-IsPast w k l h v =
        let P = IsPast ws x.item in
        let a = IsOpen-writes env [] [] ws w 0 (testing x (suc left)) (emptied x left) v tt refl in
        Can-next env P w (console_writes 0) tt (
          Can-next env P _ (console_writes 0) tt (
            Can-then env (IsTaken env ws x left) P _
              (sent-IsTaken env ws x left _ k h (emptied-IsSent _ l a))
              (λ w' t.
                Can-next env P w' (console_writes 0) tt (Can-now env P _ (taken-IsPast w' t)))))

  -- From any state in which both are linked and a write of at most 64 bytes waits.
  open-IsPast :
      (w : World env.nvs.Store) (it : Item) (qp qc : List RxItem) (pc : Pc)
      → it.len ≡ length (contents it)
      → length (contents it) ≤ 64
      → IsOpen w qp qc (it ∷ ws) pc
      → Can env (IsPast ws it) w
  open-IsPast w it qp qc pc l h v =
      let P = IsPast ws it in
      Can-then env (λ w'. IsOpen w' [] [] (it ∷ ws) pc) P w
        (IsOpen-drained env w qp qc (it ∷ ws) pc v)
        (λ w1 v1.
          Can-then env (λ w'. IsOpen w' [] [] (it ∷ ws) idle) P w1
            (IsOpen-idle env [] [] (it ∷ ws) w1 pc v1)
            (λ w2 v2. Can-next env P w2 (console_writes 0) tt (
              attempt-IsPast (record { seq = w2.console.write_seq; item = it }) 5 _ v2.small l h
                (IsOpen-taken w2 it v2))))

-- A write as `tud_hid_set_report_cb` queues it.
abbrev Fits : Item → Type 0
Fits it = (it.len ≡ length (contents it)) × (length (contents it) ≤ 64)

Fits-Tagged : (commanded : List (List ℕ)) (it : Item) → Tagged commanded it → Fits it
Fits-Tagged commanded it (command, m, tag, cut, l) =
    (l, subst (λ b. length b ≤ 64) (sym cut) (omega (arith, length-take 64 command)))

-- One write after the other, up to that one.
open-IsConfirmed :
    (env : Env) (before ws : List Item) (w : World env.nvs.Store) (it : Item) (qp qc : List RxItem)
    (pc : Pc)
    → All Fits (before ++ (it ∷ ws))
    → IsOpen w qp qc (before ++ (it ∷ ws)) pc
    → Can env (IsConfirmed it) w
open-IsConfirmed env [] ws w it qp qc pc fits v =
    Can-then env (IsPast ws it) (IsConfirmed it) w
      (open-IsPast env ws w it qp qc pc fits.0.0 fits.0.1 v)
      (λ w' past. Can-now env (IsConfirmed it) w' past.0)
open-IsConfirmed env (b ∷ before) ws w it qp qc pc fits v =
    Can-then env (IsPast (before ++ (it ∷ ws)) b) (IsConfirmed it) w
      (open-IsPast env (before ++ (it ∷ ws)) w b qp qc pc fits.0.0 fits.0.1 v)
      (λ w' past. open-IsConfirmed env before ws w' it [] [] (ended past.1 true) fits.1 past.2)

-- From the start of both boards on, whatever has happened on them and in the air, lost and repeated frames
-- included: if both are linked, then for each write that waits, some frames may arrive and `rx_task` and
-- `write_task` may run on, with no other event, so that this write is acknowledged, and its bytes have been
-- handed over to the transfer to the real portal.
pub run-Can :
    (env : Env) (store : env.nvs.Store) (es : List Event) (before ws : List Item) (it : Item)
    → let w = run env (start env store) es in
      w.portal_link.linked ≡ true
      → w.console_link.linked ≡ true
      → w.console.write_q ≡ before ++ (it ∷ ws)
      → Can env (IsConfirmed it) w
run-Can env store es before ws it portal_linked console_linked q =
    let w = run env (start env store) es in
    let from = FromConsole-run env es (start env store) (start-FromConsole env store) in
    let sound = run-IsSound env store es in
    let (qp, portal_runs, p) = from.link in
    let (qc, console_runs, c) = sound.link in
    open-IsConfirmed env before ws w it qp qc w.writer
      (All-map (Tagged w.commanded) Fits (Fits-Tagged w.commanded) (before ++ (it ∷ ws))
        (subst (All (Tagged w.commanded)) q from.writes))
      (record {
        portal_runs = portal_runs;
        console_runs = console_runs;
        portal_linked = portal_linked;
        console_linked = console_linked;
        write_q = q;
        small = omega (arith, sound.kept.next);
        writer = refl;
      })
