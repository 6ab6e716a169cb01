-- ===== src/System/Stages.antt =====
-- Both boards and the radio: a write of the games console and its ACK, station by station, from the call
-- of `link_send` in `write_task` of console-side/src/main.c to the reading of `s_acked_seq`.
use wireless_skyportal_conne.Prelude.{
  ℕ, ◌+◌, ◌^◌, ◌<◌, ◌≤◌, ◌≡◌, refl, arith, ap, sym, subst, ◌∙◌, List, [], ◌∷◌, ◌++◌, none, some,
  length, drop, overwrite, inl, Among,
}
use wireless_skyportal_conne.Frame.{
  hdr_init, hdr_at, ack_bytes, ack_seq_at, tunnel_bytes, link_t_ack, link_t_tun_write, link_ok,
}
use wireless_skyportal_conne.Frame.Wire.{ack_seq_at-ack_bytes}
use wireless_skyportal_conne.Rtos.{send_lem}
use wireless_skyportal_conne.Link.{RxItem}
use wireless_skyportal_conne.Portal
use wireless_skyportal_conne.Portal.{link_send, tunnel_host_send}
use wireless_skyportal_conne.Portal.Deliver.{on_link_recv_delivers}
use wireless_skyportal_conne.Console.{Item, contents}
use wireless_skyportal_conne.Console
use wireless_skyportal_conne.Console.Task.{Write, awaiting, taken, write_step}
use wireless_skyportal_conne.System.World.{
  Env, World, reaches_portal, reaches_console, portal_works, console_works, console_writes,
  console_gets, portal_gets, step,
}
use wireless_skyportal_conne.System.Sends.{arrival, send_all, frames_of, transfers_of}
use wireless_skyportal_conne.System.Progress.{
  IsOpen, IsOpen-portal_works, IsOpen-console_works, Can, Can-now, Can-next,
}
use wireless_skyportal_conne.System.Rounds.{IsOpen-writes}
use wireless_skyportal_conne.System.Lossless.{junk, linked-recv_cb, IsRunning-arrived}
use wireless_skyportal_conne.System.Hops.{
  send-linked, arrives_at_portal, arrives_at_console, portal_takes, console_takes,
}

module _ (env : Env) (ws : List Item) (x : Write) (left : ℕ) where
  abbrev pub bytes : List ℕ
  bytes = contents x.item

  -- The frame of the write, and its ACK.
  abbrev pub frame : List ℕ
  frame = tunnel_bytes (hdr_init link_t_tun_write x.seq) (length bytes) bytes

  abbrev ack : List ℕ
  ack = ack_bytes (hdr_init link_t_ack 0) x.seq link_ok

  -- The frame is in the air; it waits at the portal's side; the bytes are transferred, and the ACK is in
  -- the air; it waits at the console's side; it is heard; the semaphore is taken.
  abbrev pub IsSent : World env.nvs.Store → Type 0
  IsSent w =
      IsOpen w [] [] ws (awaiting x left) × (old : List (List ℕ)) × (w.to_portal ≡ frame ∷ old)

  abbrev HasArrived : World env.nvs.Store → Type 0
  HasArrived w =
      (item : RxItem) × (rest : List ℕ) × IsOpen w (item ∷ []) [] ws (awaiting x left)
      × (item.bytes ≡ frame ++ rest)

  abbrev IsTransferred : World env.nvs.Store → Type 0
  IsTransferred w =
      IsOpen w [] [] ws (awaiting x left)
      × Among (some bytes) w.transferred
      × (old : List (List ℕ)) × (w.to_console ≡ ack ∷ old)

  abbrev IsComing : World env.nvs.Store → Type 0
  IsComing w =
      (item : RxItem) × (rest : List ℕ) × IsOpen w [] (item ∷ []) ws (awaiting x left)
      × Among (some bytes) w.transferred
      × (item.bytes ≡ ack ++ rest)
      × (item.len ≡ 9)

  abbrev IsHeard : World env.nvs.Store → Type 0
  IsHeard w =
      IsOpen w [] [] ws (awaiting x left)
      × Among (some bytes) w.transferred
      × (w.console.acked_seq ≡ x.seq)
      × (t : Unit {0}) × (more : List (Unit {0})) × (env.console.sem.receive w.console.ack_sem
          ≡ some (t, more))

  abbrev pub IsTaken : World env.nvs.Store → Type 0
  IsTaken w =
      IsOpen w [] [] ws (taken x left)
      × Among (some bytes) w.transferred
      × (w.console.acked_seq ≡ x.seq)

  sent-HasArrived :
      (w : World env.nvs.Store)
      → length bytes ≤ 64
      → IsSent w
      → HasArrived (step env w (reaches_portal 0 0 [] none junk))
  unfolding overwrite
  sent-HasArrived w h (v, old, e) =
      let a = arrival [] none frame in
      subst HasArrived (sym (arrives_at_portal env w frame old e)) (
        _,
        drop (0 + length frame) junk,
        record {
          portal_runs =
              IsRunning-arrived env a w.portal_link 0 junk v.portal_runs (omega arith)
                (omega (arith, h)) refl;
          console_runs = v.console_runs;
          portal_linked = linked-recv_cb env a w.portal_link 0 junk v.portal_linked;
          console_linked = v.console_linked;
          write_q = v.write_q;
          small = v.small;
          writer = v.writer;
        },
        refl,
      )

  arrived-IsTransferred :
      (w : World env.nvs.Store)
      → x.seq < 2 ^ 16
      → length bytes ≤ 64
      → HasArrived w
      → IsTransferred (step env w (portal_works 0))
  unfolding portal_gets
  arrived-IsTransferred w k h (item, rest, v, e) =
      let calls =
        (Portal.on_link_recv env.backups w.portal 0 (hdr_at item.bytes).type item.bytes).1 in
      let sent : calls ≡ tunnel_host_send (some bytes) ∷ link_send ack ∷ [] =
        ap (λ b. (Portal.on_link_recv env.backups w.portal 0 (hdr_at b).type b).1) e
        ∙ (on_link_recv_delivers env.backups w.portal 0 x.seq bytes rest (omega (arith, h)) k).2 in
      let takes = portal_takes env w item [] v.portal_runs in
      let l = record w.portal_link { rx_q = some [] } in
      (
        IsOpen-portal_works env w 0 item [] [] ws (awaiting x left) v,
        subst (λ s. Among (some bytes) s.transferred) (sym takes)
            (subst (λ c. Among (some bytes) (transfers_of c ++ w.transferred)) (sym sent)
              (inl refl)),
        w.to_console,
        ap (λ s. s.to_console) takes
            ∙ ap (λ c. send_all l (frames_of c) ++ w.to_console) sent
            ∙ ap (λ fs. fs ++ w.to_console) (send-linked l ack v.portal_linked),
      )

  transferred-IsComing :
      (w : World env.nvs.Store)
      → IsTransferred w
      → IsComing (step env w (reaches_console 0 0 [] none junk))
  unfolding overwrite
  transferred-IsComing w (v, m, old, e) =
      let a = arrival [] none ack in
      subst IsComing (sym (arrives_at_console env w ack old e)) (
        _,
        drop (0 + length ack) junk,
        record {
          portal_runs = v.portal_runs;
          console_runs =
              IsRunning-arrived env a w.console_link 0 junk v.console_runs (omega arith)
                (omega arith) refl;
          portal_linked = v.portal_linked;
          console_linked = linked-recv_cb env a w.console_link 0 junk v.console_linked;
          write_q = v.write_q;
          small = v.small;
          writer = v.writer;
        },
        m,
        refl,
        refl,
      )

  given_after :
      (q : List (Unit {0}))
      → (t : Unit {0}) × (more : List (Unit {0})) × (env.console.sem.receive
            (env.console.sem.send 1 q tt).1
          ≡ some (t, more))
  given_after [] = (
    tt,
    [],
    ap env.console.sem.receive (send_lem env.console.sem 1 [] tt)
        ∙ env.console.sem.receive_cons tt [],
  )
  given_after (t ∷ q) = (
    t,
    q,
    ap (λ p. env.console.sem.receive p.1) (env.console.sem.send_full 1 (t ∷ q) tt (omega arith))
        ∙ env.console.sem.receive_cons t q,
  )

  coming-IsHeard :
      (w : World env.nvs.Store)
      → x.seq < 2 ^ 16
      → IsComing w
      → IsHeard (step env w (console_works []))
  unfolding console_gets Console.on_link_recv
  coming-IsHeard w k (item, rest, v, m, e, n) =
      let takes = console_takes env w item [] v.console_runs in
      let heard : Console.on_link_recv env.console w.console [] (hdr_at item.bytes).type item.bytes
            item.len
          ≡ record w.console {
            acked_seq = ack_seq_at (ack ++ rest);
            ack_sem = (env.console.sem.send 1 w.console.ack_sem tt).1;
          } =
        ap (λ b. Console.on_link_recv env.console w.console [] (hdr_at b).type b item.len) e
        ∙ ap (λ len. Console.on_link_recv env.console w.console [] link_t_ack (ack ++ rest) len)
            n in
      let (t, more, given) = given_after w.console.ack_sem in
      (
        IsOpen-console_works env w [] item [] [] ws (awaiting x left) v,
        subst (λ s. Among (some bytes) s.transferred) (sym takes) m,
        ap (λ s. s.console.acked_seq) takes
            ∙ ap (λ c. c.acked_seq) heard
            ∙ ack_seq_at-ack_bytes link_t_ack x.seq link_ok rest k,
        t,
        more,
        ap (λ s. env.console.sem.receive s.console.ack_sem) takes
            ∙ ap (λ c. env.console.sem.receive c.ack_sem) heard
            ∙ given,
      )

  heard-IsTaken : (w : World env.nvs.Store) → IsHeard w → IsTaken (step env w (console_writes 0))
  unfolding step write_step
  heard-IsTaken w (v, m, e, t, more, given) = (
    IsOpen-writes env [] [] ws w 0 (awaiting x left) (taken x left) v tt
        (rw (write_step, given) refl),
    m,
    rw (v.writer, write_step, given) e,
  )

  -- From the sent frame to the taken semaphore.
  pub sent-IsTaken :
      (w : World env.nvs.Store) → x.seq < 2 ^ 16 → length bytes ≤ 64 → IsSent w → Can env IsTaken w
  sent-IsTaken w k h v =
      let a = sent-HasArrived w h v in
      let b = arrived-IsTransferred _ k h a in
      let c = transferred-IsComing _ b in
      let d = coming-IsHeard _ k c in
      Can-next env IsTaken w (reaches_portal 0 0 [] none junk) tt (
        Can-next env IsTaken _ (portal_works 0) tt (
          Can-next env IsTaken _ (reaches_console 0 0 [] none junk) tt (
            Can-next env IsTaken _ (console_works []) tt (
              Can-next env IsTaken _ (console_writes 0) tt
                (Can-now env IsTaken _ (heard-IsTaken _ d))))))
