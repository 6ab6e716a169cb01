-- ===== src/Portal/Flash.antt =====
-- `backup_task` and `do_restore` of portal-side/src/main.c, over the NVS store.
use wireless_skyportal_conne.Prelude.{
  ℕ, zero, suc, ◌-◌, ◌*◌, ◌^◌, bit_and, List, [], ◌∷◌, ◌==◌, if◌then◌else◌, overwrite, slice, take,
  Option, none, some,
}
use wireless_skyportal_conne.Sky.{
  build_write, sky_max_slots, sky_num_blocks, sky_block_size, sky_dump_size,
}
use wireless_skyportal_conne.Rtos.{QueueApi}
use wireless_skyportal_conne.Nvs.{NvsApi}
use wireless_skyportal_conne.Portal.{Portal, Call, tunnel_host_send, snooped_at, uid_key}

-- The lowest slot from `i` on, of the `n` that are left, whose bit is set.
unfoldable pub first_present : ℕ → ℕ → ℕ → Option ℕ
first_present zero i mask = none
first_present (suc n) i mask =
    let rest = first_present n (suc i) mask in if bit_and mask (2 ^ i) == 0 then rest else some i

-- The write commands for block `b` and the `n - 1` after it: the first 19 bytes of each are sent.
unfoldable pub restore_loop : ℕ → ℕ → ℕ → List ℕ → List Call
restore_loop zero b slot bak = []
restore_loop (suc n) b slot bak =
    tunnel_host_send
      (some (take 19 (build_write slot b (slice bak (b * sky_block_size) sky_block_size))))
    ∷ restore_loop n (suc b) slot bak

module _ (nvs : NvsApi) where
  open nvs use {Store, open_rw, open_ro, save, get_blob}

  -- One round of `backup_task`, on an image that it has received.
  unfoldable pub backup_save : List ℕ → Store → Store
  backup_save image store = if open_rw store then save store (uid_key image) image else store

  -- One round of `backup_task`. With nothing in the queue it waits on.
  unfoldable pub backup_round : QueueApi (List ℕ) → Portal → Store → Portal × Store
  backup_round api p store = elim p.bak_q [
    | none ↦ (p, store)
    | some q ↦ elim (api.receive q) [
      | none ↦ (p, store)
      | some (image, rest) ↦ (record p { bak_q = some rest }, backup_save image store)
    ]
  ]

  unfoldable pub restore_slot : Portal → Store → ℕ → Portal × List Call
  restore_slot p store slot =
      if open_ro store
      then elim (get_blob store (uid_key (snooped_at p slot)) sky_dump_size) [
        | none ↦ (p, [])
        | some blob ↦
            let bak = overwrite p.bak 0 blob in
            (record p { bak = bak }, restore_loop (sky_num_blocks - 1) 1 slot bak)
      ]
      else (p, [])

  unfoldable pub do_restore : Portal → Store → Portal × List Call
  do_restore p store = elim (first_present sky_max_slots 0 p.present) [
    | none ↦ (p, [])
    | some slot ↦ restore_slot p store slot
  ]
