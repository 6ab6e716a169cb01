-- ===== src/System/Restores.antt =====
-- What the button of portal-side/src/main.c makes the portal's side transfer.
use wireless_skyportal_conne.Prelude.{
  ℕ, zero, suc, ◌+◌, ◌*◌, ◌≤◌, ◌≡◌, refl, arith, List, some, overwrite, slice, take, Option-cases,
  Bool-cases, inl, inr, All, Among,
}
use wireless_skyportal_conne.Sky.{build_write, sky_max_slots, sky_dump_size}
use wireless_skyportal_conne.Portal.Restore.{IsLowest, first_present-IsLowest}
use wireless_skyportal_conne.Nvs.{NvsApi}
use wireless_skyportal_conne.Portal.{Portal, snooped_at, uid_key}
use wireless_skyportal_conne.Portal.Flash.{first_present, restore_loop, restore_slot, do_restore}
use wireless_skyportal_conne.System.Sends.{transfers_of}
use wireless_skyportal_conne.System.Press.{Press, press_of}
use wireless_skyportal_conne.System.Up.{Sent, of_restore}

Sent-restore_loop :
    (commanded : List (List ℕ)) (pressed : List Press) (press : Press) (n b slot : ℕ)
    (blob : List ℕ)
    → Among press pressed
    → IsLowest press.portal.present slot
    → press.backup (uid_key (snooped_at press.portal slot)) ≡ some blob
    → 1 ≤ b
    → b + n ≤ 64
    → All
        (Sent commanded pressed)
        (transfers_of (restore_loop n b slot (overwrite press.portal.bak 0 blob)))
unfolding restore_loop
Sent-restore_loop commanded pressed press zero b slot blob m v e lo hi = tt
Sent-restore_loop commanded pressed press (suc n) b slot blob m v e lo hi = (
  of_restore press
      (take 19 (build_write slot b (slice (overwrite press.portal.bak 0 blob) (b * 16) 16))) m
      (record {
        slot = slot;
        lowest = v;
        blob = blob;
        read = e;
        block = b;
        not_first = lo;
        in_figure = omega arith;
        command = refl;
      })
      refl,
  Sent-restore_loop commanded pressed press n (suc b) slot blob m v e (omega arith) (omega arith),
)

module _ (nvs : NvsApi) (commanded : List (List ℕ)) (pressed : List Press) (p : Portal)
    (store : nvs.Store) where
  Sent-restore_slot :
      (slot : ℕ)
      → Among (press_of nvs p store) pressed
      → IsLowest p.present slot
      → All (Sent commanded pressed) (transfers_of (restore_slot nvs p store slot).1)
  unfolding restore_slot
  Sent-restore_slot slot m v = elim (Bool-cases (nvs.open_ro store)) [
    | inr e ↦ rw e tt
    | inl e ↦ elim (Option-cases (nvs.get_blob store (uid_key (snooped_at p slot)) sky_dump_size)) [
      | inl f ↦ rw (e, f) tt
      | inr (blob, f) ↦
          rw (e, f)
            (Sent-restore_loop commanded pressed (press_of nvs p store) 63 1 slot blob m v (rw e f)
              (omega arith) (omega arith))
    ]
  ]

  pub Sent-do_restore :
      Among (press_of nvs p store) pressed
      → All (Sent commanded pressed) (transfers_of (do_restore nvs p store).1)
  unfolding do_restore
  Sent-do_restore m = elim (Option-cases (first_present sky_max_slots 0 p.present)) [
    | inl e ↦ rw (do_restore, e) tt
    | inr (slot, e) ↦
        rw (do_restore, e)
          (Sent-restore_slot slot m (
            first_present-IsLowest 16 0 p.present slot (omega arith) (λ s h. absurd (omega arith))
              e))
  ]
