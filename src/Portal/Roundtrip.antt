-- ===== src/Portal/Roundtrip.antt =====
-- `backup_task` and then `do_restore` of portal-side/src/main.c: what the store brings back.
use wireless_skyportal_conne.Prelude.{
  ℕ, ◌*◌, ◌<◌, ◌≡◌, arith, ap, ◌∙◌, true, List, ◌∷◌, ◌==◌, if◌then◌else◌, length, slice, some,
}
use wireless_skyportal_conne.Rtos.{QueueApi}
use wireless_skyportal_conne.Nvs.{NvsApi}
use wireless_skyportal_conne.Portal.{Portal, snooped_at, uid_key}
use wireless_skyportal_conne.Portal.Flash.{backup_save, backup_round, do_restore}
use wireless_skyportal_conne.Portal.Restore.{IsLowest, after_calls, do_restore_lem}

module _ (nvs : NvsApi) (api : QueueApi (List ℕ)) where
  saved :
      (p : Portal) (store : nvs.Store) (image : List ℕ) (rest : List (List ℕ))
      → p.bak_q ≡ some (image ∷ rest)
      → nvs.open_rw store ≡ true
      → (backup_round nvs api p store).1 ≡ nvs.save store (uid_key image) image
  unfolding backup_round backup_save
  saved p store image rest e opens = ground (arith, api.receive_cons image rest)

  -- A copy of 1024 bytes that waits first in the backup queue, saved by a round of `backup_task` whose
  -- calls succeed: a restore from that store makes blocks 1 to 63 of the figure in the lowest slot those
  -- of the copy and leaves its block 0, if that figure's first four bytes give the copy's key.
  pub do_restore-backup_round :
      (p p' : Portal) (store : nvs.Store) (slot : ℕ) (image : List ℕ) (rest : List (List ℕ))
      (figure : List ℕ) (c : ℕ)
      → p.bak_q ≡ some (image ∷ rest)
      → nvs.open_rw store ≡ true
      → nvs.saves store (uid_key image) image ≡ true
      → length image ≡ 1024
      → IsLowest p'.present slot
      → uid_key (snooped_at p' slot) ≡ uid_key image
      → length p'.bak ≡ 1024
      → length figure ≡ 1024
      → c < 64
      → slice
          (after_calls slot figure (do_restore nvs p' (backup_round nvs api p store).1).1)
          (c * 16)
          16
        ≡ (if c == 0 then slice figure 0 16 else slice image (c * 16) 16)
  do_restore-backup_round p p' store slot image rest figure c e opens saves li v key lp lf hc =
      ap (λ s. slice (after_calls slot figure (do_restore nvs p' s).1) (c * 16) 16)
        (saved p store image rest e opens)
      ∙ do_restore_lem nvs p' (nvs.save store (uid_key image) image) slot image figure c v
          (nvs.open_saved store (uid_key image) image saves)
          (ap (λ k. nvs.get_blob (nvs.save store (uid_key image) image) k 1024) key
            ∙ nvs.get_saved store (uid_key image) image 1024 saves (omega (arith, li)))
          lp li lf hc
