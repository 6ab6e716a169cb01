-- ===== src/System/FromPortal.antt =====
-- Both boards and the radio: an invariant of what comes from the real portal, and the steps that touch it.
use wireless_skyportal_conne.Prelude.{
  ℕ, ◌≤◌, Bool, true, false, if◌then◌else◌, refl, sym, subst, List, ◌∷◌, Option, none, some, length,
  inl, All, All-map, All-append,
}
use wireless_skyportal_conne.Frame.{hdr_at}
use wireless_skyportal_conne.Link.{Link, RxItem}
use wireless_skyportal_conne.Portal.{Portal, on_portal_in}
use wireless_skyportal_conne.Portal
use wireless_skyportal_conne.System.Tunnel.{on_portal_in_lem}
use wireless_skyportal_conne.System.World.{Env, World, console_gets, portal_gets, portal_reports}
use wireless_skyportal_conne.System.Sends.{send_all, frames_of}
use wireless_skyportal_conne.System.Air.{All-send_all}
use wireless_skyportal_conne.System.Radio.{Waits, Taken, Waits-map}
use wireless_skyportal_conne.System.Shown.{Shown, Shown-more, IsHonest, IsHonest-more}
use wireless_skyportal_conne.System.Down.{Down, Down-more, Down-on_link_recv, report, IsHonest-item}

pub record FromPortal {S : Type 0} (w : World S) : Type 0 where
  pub frames : All (Down w.reported) w.to_console
  pub link : Waits (Down w.reported) w.console_link
  pub console : IsHonest w.commanded w.reported w.console
  pub shown : All (Shown w.commanded w.reported) w.shown

pub All-taken :
    (P : List ℕ → Type 0) (b : Bool) (r : List ℕ) (rs : List (List ℕ))
    → P r
    → All P rs
    → All P (if b then r ∷ rs else rs)
All-taken P true r rs h v = (h, v)
All-taken P false r rs h v = v

module _ (env : Env) where
  pub FromPortal-console_works :
      (w : World env.nvs.Store) (junk : List ℕ) (l : Link) (o : Option RxItem)
      → FromPortal w
      → Waits (Down w.reported) l
      → Taken (Down w.reported) o
      → FromPortal (elim o [
        | none ↦ record w { console_link = l }
        | some item ↦ console_gets env.console (record w { console_link = l }) junk item
      ])
  unfolding console_gets
  FromPortal-console_works w junk l none v waits taken = record {
    frames = v.frames;
    link = waits;
    console = v.console;
    shown = v.shown;
  }
  FromPortal-console_works w junk l (some item) v waits taken = record {
    frames = v.frames;
    link = waits;
    console = IsHonest-item env.console w.commanded w.reported w.console junk item v.console taken;
    shown = v.shown;
  }

  -- Whatever the portal's side does next, if its frames are of those kinds.
  pub FromPortal-portal_works :
      (w : World env.nvs.Store) (l : Link) (now : ℕ) (o : Option RxItem)
      → FromPortal w
      → FromPortal (elim o [
        | none ↦ record w { portal_link = l }
        | some item ↦ portal_gets env.backups (record w { portal_link = l }) now item
      ])
  unfolding portal_gets
  FromPortal-portal_works w l now none v = record {
    frames = v.frames;
    link = v.link;
    console = v.console;
    shown = v.shown;
  }
  FromPortal-portal_works w l now (some item) v =
      let type = (hdr_at item.bytes).type in
      let sent = frames_of (Portal.on_link_recv env.backups w.portal now type item.bytes).1 in
      record {
        frames =
            All-append (Down w.reported) (send_all l sent) w.to_console
              (All-send_all (Down w.reported) l sent
                (Down-on_link_recv w.reported env.backups w.portal now type item.bytes))
              v.frames;
        link = v.link;
        console = v.console;
        shown = v.shown;
      }

  pub FromPortal-portal_reports :
      (w : World env.nvs.Store) (r : List ℕ)
      → FromPortal w
      → 1 ≤ length r
      → length r ≤ 64
      → FromPortal (portal_reports w r)
  unfolding portal_reports
  FromPortal-portal_reports w r v lo hi =
      let sent = frames_of (on_portal_in w.portal r).1 in
      record {
        frames =
            All-append (Down (r ∷ w.reported)) (send_all w.portal_link sent) w.to_console
              (All-send_all (Down (r ∷ w.reported)) w.portal_link sent (
                subst (λ c. All (Down (r ∷ w.reported)) (frames_of c))
                  (sym (on_portal_in_lem w.portal r hi)) (report r (inl refl) lo hi refl, tt)))
              (All-map (Down w.reported) (Down (r ∷ w.reported)) (Down-more w.reported r)
                w.to_console v.frames);
        link =
            Waits-map (Down w.reported) (Down (r ∷ w.reported)) (Down-more w.reported r)
              w.console_link v.link;
        console = IsHonest-more w.commanded w.reported r w.console v.console;
        shown =
            All-map (Shown w.commanded w.reported) (Shown w.commanded (r ∷ w.reported))
              (Shown-more w.commanded w.reported r) w.shown v.shown;
      }
