-- ===== src/System/Press.antt =====
-- A press of the button of portal-side/src/main.c, and the write commands that it may make the board
-- transfer.
use wireless_skyportal_conne.Prelude.{
  ℕ, ◌*◌, ◌<◌, ◌≤◌, ◌≡◌, List, Option, none, some, if◌then◌else◌, overwrite, slice, take,
}
use wireless_skyportal_conne.Sky.{build_write, sky_dump_size}
use wireless_skyportal_conne.Nvs.{NvsApi}
use wireless_skyportal_conne.Portal.{Portal, snooped_at, uid_key}
use wireless_skyportal_conne.Portal.Restore.{IsLowest}

-- The statics at the press, and the backup that the flash then has under each key, `none` without one or if
-- it cannot be read.
pub record Press : Type 0 where
  pub portal : Portal
  pub backup : List ℕ → Option (List ℕ)

abbrev pub press_of : (nvs : NvsApi) → Portal → nvs.Store → Press
press_of nvs p store = record {
  portal = p;
  backup = λ key. if nvs.open_ro store then nvs.get_blob store key sky_dump_size else none;
}

-- The write command for one of the blocks 1 to 63 of the figure in the lowest occupied slot, with what the
-- backup of that figure, read into the buffer, holds for that block.
pub record IsRestoring (press : Press) (bytes : List ℕ) : Type 0 where
  pub slot : ℕ
  pub lowest : IsLowest press.portal.present slot
  pub blob : List ℕ
  pub read : press.backup (uid_key (snooped_at press.portal slot)) ≡ some blob
  pub block : ℕ
  pub not_first : 1 ≤ block
  pub in_figure : block < 64
  pub command :
      bytes
      ≡ take 19 (build_write slot block (slice (overwrite press.portal.bak 0 blob) (block * 16) 16))
