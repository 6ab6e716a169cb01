-- ===== src/System/Answered.antt =====
-- Both boards and the radio: an invariant of the ACKs that portal-side/src/main.c has sent, and the steps that
-- touch it.
use wireless_skyportal_conne.Prelude.{
  ℕ, refl, List, [], ◌∷◌, ◌++◌, Option, none, some, inl, inr, Among, Among-append_right, All,
  All-map, All-append,
}
use wireless_skyportal_conne.Frame.{hdr_at}
use wireless_skyportal_conne.Link.{Link, RxItem}
use wireless_skyportal_conne.Portal.{Portal}
use wireless_skyportal_conne.Portal
use wireless_skyportal_conne.System.World.{Env, World, console_gets, portal_gets}
use wireless_skyportal_conne.System.Sends.{send_all, frames_of, transfers_of, newest_first}
use wireless_skyportal_conne.System.Air.{All-send_all}
use wireless_skyportal_conne.System.Radio.{Waits, Taken, Waits-map}
use wireless_skyportal_conne.System.Up.{Up}
use wireless_skyportal_conne.Portal.{on_portal_in}
use wireless_skyportal_conne.System.Answers.{
  Answer, Answer-more, Answered-item, InOrder, InOrder-more, InOrder-later,
}

pub record IsAnswered {S : Type 0} (w : World S) : Type 0 where
  pub frames : All (Answer w.to_portal w.transferred) w.to_console
  pub link : Waits (λ f. Among f w.to_portal) w.portal_link
  pub order : All (InOrder w.to_portal w.calls) w.to_console

-- The console's side sends those frames.
pub IsAnswered-sends :
    {S : Type 0} (w : World S) (new : List (List ℕ))
    → IsAnswered w
    → All (Answer (new ++ w.to_portal) w.transferred) w.to_console
      × Waits (λ f. Among f (new ++ w.to_portal)) w.portal_link
      × All (InOrder (new ++ w.to_portal) w.calls) w.to_console
IsAnswered-sends w new v = (
  All-map (Answer w.to_portal w.transferred) (Answer (new ++ w.to_portal) w.transferred)
      (Answer-more new w.to_portal [] w.transferred) w.to_console v.frames,
  Waits-map (λ f. Among f w.to_portal) (λ f. Among f (new ++ w.to_portal))
      (λ f. Among-append_right f new w.to_portal) w.portal_link v.link,
  All-map (InOrder w.to_portal w.calls) (InOrder (new ++ w.to_portal) w.calls)
      (InOrder-more new w.to_portal w.calls) w.to_console v.order,
)

pub All-Among : (xs ys : List (List ℕ)) → All (λ f. Among f (xs ++ ys)) xs
All-Among [] ys = tt
All-Among (x ∷ xs) ys = (
  inl refl,
  All-map (λ f. Among f (xs ++ ys)) (λ f. Among f (x ∷ (xs ++ ys))) (λ f h. inr h) xs
      (All-Among xs ys),
)

module _ (env : Env) where
  pub IsAnswered-console_works :
      (w : World env.nvs.Store) (junk : List ℕ) (l : Link) (o : Option RxItem)
      → IsAnswered w
      → IsAnswered (elim o [
        | none ↦ record w { console_link = l }
        | some item ↦ console_gets env.console (record w { console_link = l }) junk item
      ])
  unfolding console_gets
  IsAnswered-console_works w junk l none v = record {
    frames = v.frames;
    link = v.link;
    order = v.order;
  }
  IsAnswered-console_works w junk l (some item) v = record {
    frames = v.frames;
    link = v.link;
    order = v.order;
  }

  pub IsAnswered-portal_works :
      (w : World env.nvs.Store) (now : ℕ) (l : Link) (o : Option RxItem)
      → IsAnswered w
      → All (Up w.commanded) w.to_portal
      → Waits (λ f. Among f w.to_portal) l
      → Taken (λ f. Among f w.to_portal) o
      → IsAnswered (elim o [
        | none ↦ record w { portal_link = l }
        | some item ↦ portal_gets env.backups (record w { portal_link = l }) now item
      ])
  unfolding portal_gets
  IsAnswered-portal_works w now l none v up waits taken = record {
    frames = v.frames;
    link = waits;
    order = v.order;
  }
  IsAnswered-portal_works w now l (some item) v up waits taken =
      let r = Portal.on_link_recv env.backups w.portal now (hdr_at item.bytes).type item.bytes in
      let done = transfers_of r.1 in
      let answered =
        Answered-item env.backups w.portal now w.to_portal w.commanded w.transferred w.calls item up
          taken in
      let calls = newest_first r.1 w.calls in
      record {
        frames =
            All-append (Answer w.to_portal (done ++ w.transferred)) (send_all l (frames_of r.1))
              w.to_console
              (All-send_all (Answer w.to_portal (done ++ w.transferred)) l (frames_of r.1)
                answered.0)
              (All-map (Answer w.to_portal w.transferred)
                (Answer w.to_portal (done ++ w.transferred))
                (Answer-more [] w.to_portal done w.transferred) w.to_console v.frames);
        link = waits;
        order =
            All-append (InOrder w.to_portal calls) (send_all l (frames_of r.1)) w.to_console
              (All-send_all (InOrder w.to_portal calls) l (frames_of r.1) answered.1)
              (All-map (InOrder w.to_portal w.calls) (InOrder w.to_portal calls)
                (InOrder-later w.to_portal r.1 w.calls) w.to_console v.order);
      }
