-- ===== src/Portal/Status.antt =====
-- What `snoop` makes of a status report: the mask of the slots in use, and the flags.
use wireless_skyportal_conne.Prelude.{
  ℕ, zero, suc, ◌+◌, ◌*◌, ◌/◌, ◌%◌, ◌^◌, ◌<◌, ◌≤◌, ◌≡◌, refl, arith, ap, ◌∙◌, Bool, true, false,
  ◌&&◌, not, List, [], ◌∷◌, ◌==◌, if◌then◌else◌, length, get_or, le→leb,
}
use wireless_skyportal_conne.Bits.Fields.{single_test}
use wireless_skyportal_conne.Sky.Slots.{present_mask-status_slots}
use wireless_skyportal_conne.Sky.{byte, mask_from, present_mask, status_slots, slot_present}
use wireless_skyportal_conne.Portal.{Portal, mask_loop, clear_gone, snoop, snoop_status}

mask_loop-mask_from : (n i slots m : ℕ) → mask_loop n i slots m ≡ mask_from n i slots m
unfolding mask_loop mask_from slot_present
mask_loop-mask_from zero i slots m = refl
mask_loop-mask_from (suc n) i slots m = mask_loop-mask_from n (suc i) slots _

get_or-clear_gone :
    (mask i : ℕ) (bs : List Bool) (j : ℕ)
    → get_or (clear_gone mask i bs) j false ≡ (get_or bs j false && (mask / 2 ^ (i + j) % 2 == 1))
unfolding clear_gone
get_or-clear_gone mask i [] j = refl
get_or-clear_gone mask i (b ∷ bs) zero =
    let e : i + 0 ≡ i = omega arith in rw (e, single_test i mask) (choose b (mask / 2 ^ i % 2 == 1))
  where
    choose : (c d : Bool) → (if not d then false else c) ≡ (c && d)
    choose true true = refl
    choose true false = refl
    choose false true = refl
    choose false false = refl
get_or-clear_gone mask i (b ∷ bs) (suc j) =
    let e : suc i + j ≡ i + suc j = omega arith in rw (get_or-clear_gone mask (suc i) bs j, e)

-- The "present" bit of slot `s` in a status report: bit `2 * (s % 4)` of byte `1 + s / 4`.
abbrev pub present_bit : List ℕ → ℕ → ℕ
present_bit r s = byte r (suc (s / 4)) / 2 ^ (2 * (s % 4)) % 2

-- A status report of bytes sets the bit of each slot in `s_present_mask` to the slot's "present" bit,
-- takes the "backed up" flag from exactly the slots that are not present, and changes no copy.
snoop_status_lem :
    (p : Portal) (r : List ℕ) (s : ℕ)
    → byte r 0 ≡ 0x53
    → 6 ≤ length r
    → byte r 1 < 256
    → byte r 2 < 256
    → byte r 3 < 256
    → byte r 4 < 256
    → s < 16
    → ((snoop p r).present / 2 ^ s % 2 ≡ present_bit r s)
      × (get_or (snoop p r).backed_up s false
          ≡ (get_or p.backed_up s false && (present_bit r s == 1)))
      × ((snoop p r).snooped ≡ p.snooped)
unfolding snoop snoop_status
snoop_status_lem p r s tag l h1 h2 h3 h4 hs =
    rw (tag, le→leb 6 (length r) l)
      (
        ap (λ m. m / 2 ^ s % 2) mask_eq ∙ bit,
        get_or-clear_gone (mask_loop 16 0 (status_slots r) 0) 0 p.backed_up s
            ∙ ap (λ m. get_or p.backed_up s false && (m == 1)) (at_zero ∙ bit),
        refl,
      )
  where
    mask_eq : mask_loop 16 0 (status_slots r) 0 ≡ present_mask (status_slots r)
    mask_eq = unfold present_mask in mask_loop-mask_from 16 0 (status_slots r) 0

    bit : present_mask (status_slots r) / 2 ^ s % 2 ≡ present_bit r s
    bit = present_mask-status_slots r s h1 h2 h3 h4 hs

    at_zero :
        mask_loop 16 0 (status_slots r) 0 / 2 ^ (0 + s) % 2
        ≡ present_mask (status_slots r) / 2 ^ s % 2
    at_zero = let e : 0 + s ≡ s = omega arith in rw (e, mask_eq)
