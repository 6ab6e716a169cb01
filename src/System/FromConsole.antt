-- ===== src/System/FromConsole.antt =====
-- Both boards and the radio: an invariant of what goes to the real portal, and the steps that touch it.
use wireless_skyportal_conne.Prelude.{
  ℕ, sym, subst, List, ◌∷◌, Option, none, some, All, All-map, All-append,
}
use wireless_skyportal_conne.Frame.{hdr_at}
use wireless_skyportal_conne.Link.{Link, RxItem}
use wireless_skyportal_conne.Portal
use wireless_skyportal_conne.Console.{set_report}
use wireless_skyportal_conne.Console.Task.{InHand, InHand-map, write_step}
use wireless_skyportal_conne.System.World.{
  Env, World, console_gets, portal_gets, step, console_commands, console_writes,
}
use wireless_skyportal_conne.System.Sends.{send_all, transfers_of}
use wireless_skyportal_conne.System.Air.{All-send_all}
use wireless_skyportal_conne.System.Radio.{Waits, Taken, Waits-map}
use wireless_skyportal_conne.System.Up.{
  Up, Sent, Tagged, Tagged-more, Up-more, Sent-more, Sent-item,
}
use wireless_skyportal_conne.System.Commands.{
  set_report-Up, write_q-on_link_recv, Tagged-write_step,
}

pub record FromConsole {S : Type 0} (w : World S) : Type 0 where
  pub frames : All (Up w.commanded) w.to_portal
  pub link : Waits (Up w.commanded) w.portal_link
  pub writes : All (Tagged w.commanded) w.console.write_q
  pub writer : InHand (λ t. Tagged w.commanded t.item) w.writer
  pub sent : All (Sent w.commanded w.pressed) w.transferred

module _ (env : Env) where
  pub FromConsole-console_works :
      (w : World env.nvs.Store) (junk : List ℕ) (l : Link) (o : Option RxItem)
      → FromConsole w
      → FromConsole (elim o [
        | none ↦ record w { console_link = l }
        | some item ↦ console_gets env.console (record w { console_link = l }) junk item
      ])
  unfolding console_gets
  FromConsole-console_works w junk l none v = record {
    frames = v.frames;
    link = v.link;
    writes = v.writes;
    writer = v.writer;
    sent = v.sent;
  }
  FromConsole-console_works w junk l (some item) v = record {
    frames = v.frames;
    link = v.link;
    writes =
        subst (All (Tagged w.commanded))
          (sym (
            write_q-on_link_recv env.console w.console junk (hdr_at item.bytes).type item.bytes
              item.len))
          v.writes;
    writer = v.writer;
    sent = v.sent;
  }

  pub FromConsole-portal_works :
      (w : World env.nvs.Store) (now : ℕ) (l : Link) (o : Option RxItem)
      → FromConsole w
      → Waits (Up w.commanded) l
      → Taken (Up w.commanded) o
      → FromConsole (elim o [
        | none ↦ record w { portal_link = l }
        | some item ↦ portal_gets env.backups (record w { portal_link = l }) now item
      ])
  unfolding portal_gets
  FromConsole-portal_works w now l none v waits taken = record {
    frames = v.frames;
    link = waits;
    writes = v.writes;
    writer = v.writer;
    sent = v.sent;
  }
  FromConsole-portal_works w now l (some item) v waits taken = record {
    frames = v.frames;
    link = waits;
    writes = v.writes;
    writer = v.writer;
    sent =
        All-append (Sent w.commanded w.pressed)
          (transfers_of
            (Portal.on_link_recv env.backups w.portal now (hdr_at item.bytes).type item.bytes).1)
          w.transferred (Sent-item env.backups w.commanded w.pressed w.portal now item taken)
          v.sent;
  }

  pub FromConsole-console_commands :
      (w : World env.nvs.Store) (junk : List ℕ) (report_id : ℕ) (buffer : List ℕ)
      → FromConsole w
      → FromConsole (step env w (console_commands junk report_id buffer))
  unfolding step
  FromConsole-console_commands w junk report_id buffer v =
      let more = buffer ∷ w.commanded in
      let frames = (set_report env.console w.console junk report_id buffer).1 in
      let (writes, up) =
        set_report-Up env.console w.commanded w.console junk report_id buffer v.writes in
      record {
        frames =
            All-append (Up more) (send_all w.console_link frames) w.to_portal
              (All-send_all (Up more) w.console_link frames up)
              (All-map (Up w.commanded) (Up more) (Up-more w.commanded buffer) w.to_portal
                v.frames);
        link =
            Waits-map (Up w.commanded) (Up more) (Up-more w.commanded buffer) w.portal_link v.link;
        writes = writes;
        writer =
            InHand-map (λ t. Tagged w.commanded t.item) (λ t. Tagged more t.item)
              (λ t. Tagged-more w.commanded buffer t.item) w.writer v.writer;
        sent =
            All-map (Sent w.commanded w.pressed) (Sent more w.pressed)
              (Sent-more w.commanded w.pressed buffer) w.transferred v.sent;
      }

  pub FromConsole-writes :
      (w : World env.nvs.Store) (now : ℕ)
      → FromConsole w
      → FromConsole (step env w (console_writes now))
  unfolding step
  FromConsole-writes w now v =
      let t = write_step env.console w.console w.writer now in
      let (writes, writer, up) =
        Tagged-write_step env.console w.commanded w.console w.writer now v.writes v.writer in
      record {
        frames =
            All-append (Up w.commanded) (send_all w.console_link t.frames) w.to_portal
              (All-send_all (Up w.commanded) w.console_link t.frames up) v.frames;
        link = v.link;
        writes = writes;
        writer = writer;
        sent = v.sent;
      }
