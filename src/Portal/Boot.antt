-- ===== src/Portal/Boot.antt =====
-- The start of the NVS store in `link_init` of portal-side/src/esp_now_link.c, and what it does to the backups
-- of portal-side/src/main.c.
use wireless_skyportal_conne.Prelude.{
  ℕ, ◌≡◌, refl, ◌∙◌, Bool, true, false, List, [], if◌then◌else◌, none, Option-cases, Bool-cases,
  inl, inr,
}
use wireless_skyportal_conne.Sky.{sky_max_slots}
use wireless_skyportal_conne.Nvs.{
  NvsApi, FlashStart, flash_ok, no_free_pages, new_version_found, flash_error,
}
use wireless_skyportal_conne.Portal.{Portal, snooped_at, uid_key}
use wireless_skyportal_conne.Portal.Flash.{do_restore, restore_slot, first_present}

abbrev pub wants_erasure : FlashStart → Bool
wants_erasure flash_ok = false
wants_erasure no_free_pages = true
wants_erasure new_version_found = true
wants_erasure flash_error = false

module _ (nvs : NvsApi) where
  open nvs use {Store, flash_init, flash_erase, get_blob, open_ro}

  unfoldable pub flash_start : Store → Store
  flash_start store =
      let first = flash_init store in
      if wants_erasure first.0 then (flash_init (flash_erase first.1)).1 else first.1

  flash_start-get_blob :
      (store : Store) (k : List ℕ) (n : ℕ)
      → get_blob (flash_start store) k n
        ≡ (if wants_erasure (flash_init store).0 then none else get_blob store k n)
  unfolding flash_start
  flash_start-get_blob store k n = elim (Bool-cases (wants_erasure (flash_init store).0)) [
    | inl e ↦ rw e (
        nvs.get_started (flash_erase (flash_init store).1) k n
        ∙ nvs.get_erased (flash_init store).1 k n)
    | inr e ↦ rw e (nvs.get_started store k n)
  ]

  restore_slot-none :
      (p : Portal) (store : Store) (slot : ℕ)
      → get_blob store (uid_key (snooped_at p slot)) 1024 ≡ none
      → (restore_slot nvs p store slot).1 ≡ []
  unfolding restore_slot
  restore_slot-none p store slot h = elim (Bool-cases (open_ro store)) [
    | inl e ↦ rw (e, restore_slot, h) refl
    | inr e ↦ rw e refl
  ]

  -- After a start of the store that finds no free pages, or a newer version, the button restores nothing,
  -- whatever backups there were and whichever figure is on the portal.
  pub do_restore-flash_start :
      (p : Portal) (store : Store)
      → wants_erasure (flash_init store).0 ≡ true
      → (do_restore nvs p (flash_start store)).1 ≡ []
  unfolding do_restore
  do_restore-flash_start p store h = elim (Option-cases (first_present sky_max_slots 0 p.present)) [
    | inl e ↦ rw (do_restore, e) refl
    | inr (slot, e) ↦
        rw (do_restore, e)
          (restore_slot-none p (flash_start store) slot
            (flash_start-get_blob store (uid_key (snooped_at p slot)) 1024 ∙ rw h refl))
  ]
