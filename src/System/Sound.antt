-- ===== src/System/Sound.antt =====
-- Both boards and the radio: an invariant of the writes and their ACKs, and the steps that touch it.
use wireless_skyportal_conne.Prelude.{
  ℕ, refl, ap, sym, subst, List, [], ◌∷◌, ◌++◌, Option, none, some, All, All-map, All-append,
}
use wireless_skyportal_conne.Frame.{hdr_at}
use wireless_skyportal_conne.Link.{Link, RxItem}
use wireless_skyportal_conne.Portal
use wireless_skyportal_conne.Console.{set_report, on_mount}
use wireless_skyportal_conne.Console
use wireless_skyportal_conne.Console.Task.{write_step}
use wireless_skyportal_conne.System.World.{
  Env, World, console_gets, portal_gets, step, console_commands, console_writes,
}
use wireless_skyportal_conne.System.Sends.{send_all, transfers_of}
use wireless_skyportal_conne.System.Air.{All-send_all}
use wireless_skyportal_conne.System.Radio.{Waits, Taken, Waits-map}
use wireless_skyportal_conne.System.Up.{Up, Tagged-more}
use wireless_skyportal_conne.System.FromConsole.{FromConsole}
use wireless_skyportal_conne.System.Answers.{Answer, Answer-more}
use wireless_skyportal_conne.System.Numbers.{Numbered, Numbered-more, Heard, Heard-more}
use wireless_skyportal_conne.System.Heard.{Numbered-set_report, Heard-item}
use wireless_skyportal_conne.System.Hand.{IsKept, IsKept-more, IsKept-write_step}

-- The frames, those that wait in the console's side, and its task.
pub record IsSound {S : Type 0} (w : World S) : Type 0 where
  pub frames : All (Numbered w.begun) w.to_portal
  pub link : Waits (Answer w.to_portal w.transferred) w.console_link
  pub kept : IsKept w.commanded w.transferred w.begun w.acked w.console w.writer

module _ {S : Type 0} (w : World S) (v : IsSound w) where
  -- The frames that wait, when more has been sent and transferred.
  pub Waits-more :
      (new : List (List ℕ)) (done : List (Option (List ℕ)))
      → Waits (Answer (new ++ w.to_portal) (done ++ w.transferred)) w.console_link
  Waits-more new done =
      Waits-map (Answer w.to_portal w.transferred)
        (Answer (new ++ w.to_portal) (done ++ w.transferred))
        (Answer-more new w.to_portal done w.transferred) w.console_link v.link

  pub IsKept-done :
      (done : List (Option (List ℕ)))
      → IsKept w.commanded (done ++ w.transferred) w.begun w.acked w.console w.writer
  IsKept-done done =
      IsKept-more w.commanded w.commanded w.transferred done w.console w.console v.kept (λ t h. h)
        refl (Heard-more [] w.begun done w.transferred w.console.acked_seq v.kept.heard)

module _ (env : Env) where
  pub IsSound-console_works :
      (w : World env.nvs.Store) (junk : List ℕ) (l : Link) (o : Option RxItem)
      → IsSound w
      → All (Up w.commanded) w.to_portal
      → Waits (Answer w.to_portal w.transferred) l
      → Taken (Answer w.to_portal w.transferred) o
      → IsSound (elim o [
        | none ↦ record w { console_link = l }
        | some item ↦ console_gets env.console (record w { console_link = l }) junk item
      ])
  unfolding console_gets
  IsSound-console_works w junk l none v up waits taken = record {
    frames = v.frames;
    link = waits;
    kept = v.kept;
  }
  IsSound-console_works w junk l (some item) v up waits taken =
      let (next, heard) =
        Heard-item env.console w.commanded w.to_portal w.transferred w.begun w.console junk item up
          v.frames v.kept.heard taken in
      record {
        frames = v.frames;
        link = waits;
        kept =
            IsKept-more w.commanded w.commanded w.transferred [] w.console
              (Console.on_link_recv env.console w.console junk (hdr_at item.bytes).type item.bytes
                item.len)
              v.kept (λ t h. h) next heard;
      }

  pub IsSound-portal_works :
      (w : World env.nvs.Store) (now : ℕ) (l : Link) (o : Option RxItem)
      → IsSound w
      → IsSound (elim o [
        | none ↦ record w { portal_link = l }
        | some item ↦ portal_gets env.backups (record w { portal_link = l }) now item
      ])
  unfolding portal_gets
  IsSound-portal_works w now l none v = record { frames = v.frames; link = v.link; kept = v.kept }
  IsSound-portal_works w now l (some item) v =
      let r = Portal.on_link_recv env.backups w.portal now (hdr_at item.bytes).type item.bytes in
      let done = transfers_of r.1 in
      record { frames = v.frames; link = Waits-more w v [] done; kept = IsKept-done w v done }

  pub IsSound-console_commands :
      (w : World env.nvs.Store) (junk : List ℕ) (report_id : ℕ) (buffer : List ℕ)
      → IsSound w
      → IsSound (step env w (console_commands junk report_id buffer))
  unfolding step
  IsSound-console_commands w junk report_id buffer v =
      let r = set_report env.console w.console junk report_id buffer in
      let (same, numbered) =
        Numbered-set_report env.console w.begun w.console junk report_id buffer in
      record {
        frames =
            All-append (Numbered w.begun) (send_all w.console_link r.1) w.to_portal
              (All-send_all (Numbered w.begun) w.console_link r.1 numbered) v.frames;
        link = Waits-more w v (send_all w.console_link r.1) [];
        kept =
            IsKept-more w.commanded (buffer ∷ w.commanded) w.transferred [] w.console r.0 v.kept
              (λ t h. Tagged-more w.commanded buffer t.item h) (ap (λ t. t.0) same)
              (subst (Heard w.begun w.transferred) (sym (ap (λ t. t.1) same)) v.kept.heard);
      }

  pub IsSound-writes :
      (w : World env.nvs.Store) (now : ℕ)
      → FromConsole w
      → IsSound w
      → IsSound (step env w (console_writes now))
  unfolding step
  IsSound-writes w now c v =
      let t = write_step env.console w.console w.writer now in
      let (kept, numbered) =
        IsKept-write_step env.console w.commanded w.transferred w.begun w.acked w.console w.writer
          now v.kept c.writer in
      record {
        frames =
            All-append (Numbered (t.begun ++ w.begun)) (send_all w.console_link t.frames)
              w.to_portal
              (All-send_all (Numbered (t.begun ++ w.begun)) w.console_link t.frames numbered)
              (All-map (Numbered w.begun) (Numbered (t.begun ++ w.begun))
                (Numbered-more t.begun w.begun) w.to_portal v.frames);
        link = Waits-more w v (send_all w.console_link t.frames) [];
        kept = kept;
      }
