-- ===== src/Portal/Restore.antt =====
-- Restoring a backup: which commands go out, and what they make of the figure.
use native.Mathlib.Decide.{ℕ_discrete}
use wireless_skyportal_conne.Prelude.{
  ℕ, zero, suc, ◌+◌, ◌*◌, ◌/◌, ◌%◌, ◌^◌, ◌<◌, ◌≤◌, ◌≡◌, refl, arith, ap, subst, ◌∙◌, true,
  Bool-cases, inl, inr, ◌&&◌, List, [], ◌∷◌, length, none, some, if◌then◌else◌, ◌==◌, ltb, leb,
  slice, overwrite, take, drop, length-take, length-drop, length-overwrite, take_all, overwrite_all,
}
use wireless_skyportal_conne.Bits.Fields.{single_test}
use wireless_skyportal_conne.Sky.{byte, build_write}
use wireless_skyportal_conne.Sky.Commands.{take-build_write}
use wireless_skyportal_conne.Nvs.{NvsApi}
use wireless_skyportal_conne.Portal.{
  Portal, Call, link_send, tunnel_host_send, tunnel_host_send_out, snooped_at, uid_key,
}
use wireless_skyportal_conne.Portal.Flash.{first_present, restore_loop, restore_slot, do_restore}
use wireless_skyportal_conne.Portal.Snoop.{block_of_copy}

-- What a write command does to the image of the figure in slot `slot`, as the header describes the
-- command: 'W', the slot with 0x10 added, the block, and its 16 bytes.
abbrev pub written : ℕ → List ℕ → List ℕ → List ℕ
written slot figure command =
    if byte command 0 == 0x57 && byte command 1 == 0x10 + slot
    then overwrite figure (byte command 2 * 16) (slice command 3 16)
    else figure

-- The figure after the transfers among some calls.
abbrev pub after_calls : ℕ → List ℕ → List Call → List ℕ
after_calls slot figure [] = figure
after_calls slot figure (tunnel_host_send (some command) ∷ calls) =
    after_calls slot (written slot figure command) calls
after_calls slot figure (tunnel_host_send none ∷ calls) = after_calls slot figure calls
after_calls slot figure (link_send frame ∷ calls) = after_calls slot figure calls
after_calls slot figure (tunnel_host_send_out bytes ∷ calls) = after_calls slot figure calls

slice_block :
    (bak : List ℕ) (b : ℕ) → length bak ≡ 1024 → b < 64 → length (slice bak (b * 16) 16) ≡ 16
slice_block bak b l h = omega (arith, length-take 16 (drop (b * 16) bak), length-drop (b * 16) bak)

written-build_write :
    (slot b : ℕ) (bytes figure : List ℕ)
    → slot < 16
    → length bytes ≡ 16
    → written slot figure (take 19 (build_write slot b bytes)) ≡ overwrite figure (b * 16) bytes
written-build_write slot b bytes figure hs l =
    let in_nibble : slot % 16 ≡ slot = omega arith in
    rw (take-build_write slot b bytes l, in_nibble) (ground (arith, take_all 16 bytes))

pick_none : {A : Type 0} (b c : ℕ) (x y : A) → y ≡ (if leb b c && ltb c (b + 0) then x else y)
pick_none b c x y = ground arith

pick_next :
    {A : Type 0} (n b c : ℕ) (new x y : A)
    → (b ≡ c → new ≡ x)
    → (if leb (suc b) c && ltb c (suc b + n) then x else if b == c then new else y)
      ≡ (if leb b c && ltb c (b + suc n) then x else y)
pick_next n b c new x y h = elim (ℕ_discrete b c) [
  | yes e ↦ ground (arith, h e)
  | no ne ↦ ground arith
]

block-restore_loop :
    (n b slot : ℕ) (bak figure : List ℕ) (c : ℕ)
    → b + n ≤ 64
    → slot < 16
    → c < 64
    → length bak ≡ 1024
    → length figure ≡ 1024
    → slice (after_calls slot figure (restore_loop n b slot bak)) (c * 16) 16
      ≡ (if leb b c && ltb c (b + n) then slice bak (c * 16) 16 else slice figure (c * 16) 16)
unfolding restore_loop
block-restore_loop zero b slot bak figure c h hs hc lb lf = pick_none b c _ _
block-restore_loop (suc n) b slot bak figure c h hs hc lb lf =
    let bytes = slice bak (b * 16) 16 in
    let size = slice_block bak b lb (omega arith) in
    let figure' = overwrite figure (b * 16) bytes in
    let size' : length figure' ≡ 1024 =
      length-overwrite figure (b * 16) bytes (omega (arith, size)) ∙ lf in
    ap (λ t. slice (after_calls slot t (restore_loop n (suc b) slot bak)) (c * 16) 16)
      (written-build_write slot b bytes figure hs size)
    ∙ (block-restore_loop n (suc b) slot bak figure' c (omega arith) hs hc lb size'
        ∙ ap (λ t. if leb (suc b) c && ltb c (suc b + n) then slice bak (c * 16) 16 else t)
            (block_of_copy figure bytes b c lf size (omega arith))
        ∙ pick_next n b c bytes (slice bak (c * 16) 16) (slice figure (c * 16) 16)
            (λ e. ap (λ t. slice bak (t * 16) 16) e))

-- The figure on the portal that `do_restore` picks: the lowest slot in the mask.
pub record IsLowest (mask slot : ℕ) : Type 0 where
  pub in_range : slot < 16
  pub there : mask / 2 ^ slot % 2 ≡ 1
  pub below : (s : ℕ) → s < slot → mask / 2 ^ s % 2 ≡ 0

first_present_lem :
    (n i mask slot : ℕ)
    → i ≤ slot
    → slot < i + n
    → IsLowest mask slot
    → first_present n i mask ≡ some slot
unfolding first_present
first_present_lem zero i mask slot h k v = absurd (omega arith)
first_present_lem (suc n) i mask slot h k v = rw (single_test i mask) (elim (ℕ_discrete i slot) [
  | yes e ↦ ground (arith, ap (λ t. mask / 2 ^ t % 2) e, v.there)
  | no ne ↦
      ground (arith, v.below i (omega arith), first_present_lem n (suc i) mask slot (omega arith))
])

same_some : (i j : ℕ) → some i ≡ some j → i ≡ j
same_some i j e = cc

-- The slot that `first_present` finds is that one.
pub first_present-IsLowest :
    (n i mask slot : ℕ)
    → i + n ≤ 16
    → ((s : ℕ) → s < i → mask / 2 ^ s % 2 ≡ 0)
    → first_present n i mask ≡ some slot
    → IsLowest mask slot
unfolding first_present
first_present-IsLowest zero i mask slot h below e = cc
first_present-IsLowest (suc n) i mask slot h below e = elim (Bool-cases (mask / 2 ^ i % 2 == 1)) [
  | inr f ↦
      first_present-IsLowest n (suc i) mask slot (omega arith)
        (λ s k. elim (ℕ_discrete s i) [
          | yes g ↦ rw g (ground arith)
          | no ne ↦ below s (omega arith)
        ])
        (rw (single_test i mask, f) at e)
  | inl f ↦
      let same : i ≡ slot = same_some i slot (rw (single_test i mask, f) at e) in
      subst (IsLowest mask) same
        (record { in_range = omega arith; there = ground arith; below = below })
]

module _ (nvs : NvsApi) where
  -- With a backup of 1024 bytes under the key of the figure in the lowest slot, a restore makes blocks
  -- 1 to 63 of that figure those of the backup, and leaves its block 0 as it is.
  pub do_restore_lem :
      (p : Portal) (store : nvs.Store) (slot : ℕ) (bak figure : List ℕ) (c : ℕ)
      → IsLowest p.present slot
      → nvs.open_ro store ≡ true
      → nvs.get_blob store (uid_key (snooped_at p slot)) 1024 ≡ some bak
      → length p.bak ≡ 1024
      → length bak ≡ 1024
      → length figure ≡ 1024
      → c < 64
      → slice (after_calls slot figure (do_restore nvs p store).1) (c * 16) 16
        ≡ (if c == 0 then slice figure 0 16 else slice bak (c * 16) 16)
  unfolding do_restore restore_slot
  do_restore_lem p store slot bak figure c v opens found lp lb lf hc =
      ap (λ t. slice (after_calls slot figure t) (c * 16) 16) calls
      ∙ block-restore_loop 63 1 slot bak figure c (omega arith) v.in_range hc lb lf
      ∙ last
    where
      calls : (do_restore nvs p store).1 ≡ restore_loop 63 1 slot bak
      calls = ground (
        arith,
        first_present_lem 16 0 p.present slot (omega arith) (omega (arith, v.in_range)) v,
        opens,
        found,
        overwrite_all p.bak bak,
      )

      last :
          (if leb 1 c && ltb c 64 then slice bak (c * 16) 16 else slice figure (c * 16) 16)
          ≡ (if c == 0 then slice figure 0 16 else slice bak (c * 16) 16)
      last = elim (ℕ_discrete c 0) [ yes e ↦ rw e refl | no ne ↦ ground arith ]
