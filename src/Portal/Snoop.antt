-- ===== src/Portal/Snoop.antt =====
-- What `snoop` keeps: the live copy of each figure, the mask of the slots in use and the flags.
use wireless_skyportal_conne.Prelude.{
  ℕ, zero, suc, replicate, length-replicate, ◌+◌, ◌-◌, ◌*◌, ◌<◌, ◌≤◌, ◌≡◌, refl, arith, ap, sym,
  ◌∙◌, Bool, true, false, ◌&&◌, not, List, [], ◌∷◌, ◌==◌, leb, ltb, if◌then◌else◌, length, get_or,
  set, slice, overwrite, length-set, get_or-set_self, get_or-set_ne, slice-overwrite_self,
  slice-overwrite_left, slice-overwrite_right, length-overwrite, length-drop, length-take, drop,
  ◌⊎◌, inl, inr, Bool-cases, ◌≢◌,
}
use native.Mathlib.Decide.{ℕ_discrete}
use wireless_skyportal_conne.Sky.{byte, sky_cmd_query, sky_cmd_status}
use wireless_skyportal_conne.Portal.{Portal, start, snooped_at, snoop, snoop_query, snoop_status}

-- The statics have the sizes that they are declared with.
pub record HasImages (p : Portal) : Type 0 where
  pub slots : length p.snooped ≡ 16
  pub image : (s : ℕ) → s < 16 → length (snooped_at p s) ≡ 1024

-- Block `b` of the copy of the figure in slot `s`.
abbrev pub block_at : Portal → ℕ → ℕ → List ℕ
block_at p s b = slice (snooped_at p s) (b * 16) 16

-- The reply to a read of block `b` of the figure in slot `s`, as the header describes it: 'Q', the
-- slot with 0x10 added, the block, and 16 bytes.
abbrev pub is_block_reply : List ℕ → ℕ → ℕ → Bool
is_block_reply r s b =
    byte r 0 == sky_cmd_query && byte r 1 == 0x10 + s && byte r 2 == b && leb 19 (length r)

data_length : (r : List ℕ) → 19 ≤ length r → length (slice r 3 16) ≡ 16
data_length r h = omega (arith, length-take 16 (drop 3 r), length-drop 3 r)

apart : (a b : ℕ) → a ≢ b → (a * 16 + 16 ≤ b * 16) ⊎ (b * 16 + 16 ≤ a * 16)
apart a b h = grind arith

-- A copy into block `k` of an image, read at block `b`.
pub block_of_copy :
    (image bytes : List ℕ) (k b : ℕ)
    → length image ≡ 1024
    → length bytes ≡ 16
    → k < 64
    → slice (overwrite image (k * 16) bytes) (b * 16) 16
      ≡ (if k == b then bytes else slice image (b * 16) 16)
block_of_copy image bytes k b h l in_range = elim (ℕ_discrete k b) [
  | yes e ↦ ground (
    arith,
    ap (λ t. slice (overwrite image (k * 16) bytes) (t * 16) 16) (sym e),
    slice-overwrite_self image (k * 16) bytes 16,
  )
  | no ne ↦ elim (apart k b ne) [
    | inl below ↦ ground (arith, slice-overwrite_right image (k * 16) bytes (b * 16) 16)
    | inr above ↦ ground (arith, slice-overwrite_left image (k * 16) bytes (b * 16) 16)
  ]
]

copy_into :
    (p : Portal) (slot k : ℕ) (bytes : List ℕ) (s b : ℕ)
    → HasImages p
    → length bytes ≡ 16
    → slot < 16
    → k < 64
    → slice
        (get_or (set p.snooped slot (overwrite (snooped_at p slot) (k * 16) bytes)) s [])
        (b * 16)
        16
      ≡ (if slot == s && k == b then bytes else block_at p s b)
copy_into p slot k bytes s b v l hs hk = elim (ℕ_discrete slot s) [
  | yes e ↦ ground (
    arith,
    ap (λ t. get_or (set p.snooped slot (overwrite (snooped_at p slot) (k * 16) bytes)) t [])
        (sym e),
    ap (λ t. block_at p t b) e,
    v.slots,
    v.image slot,
    get_or-set_self p.snooped slot (overwrite (snooped_at p slot) (k * 16) bytes) [],
    block_of_copy (snooped_at p slot) bytes k b,
  )
  | no ne ↦
      ground
        (arith, get_or-set_ne p.snooped slot s (overwrite (snooped_at p slot) (k * 16) bytes) [] ne)
]

-- The bounds that the code tests.
abbrev in_bounds : ℕ → ℕ → Bool
in_bounds r1 r2 = leb 0x10 r1 && ltb (r1 - 0x10) 16 && ltb r2 64

abbrev names_block : ℕ → ℕ → ℕ → ℕ → Bool
names_block r1 r2 s b = r1 == 0x10 + s && r2 == b

in_bounds-true :
    (r1 r2 s b : ℕ)
    → in_bounds r1 r2 ≡ true
    → (r1 - 0x10 < 16) × (r2 < 64) × ((r1 - 0x10 == s && r2 == b) ≡ names_block r1 r2 s b)
in_bounds-true r1 r2 s b h = ground arith

in_bounds-false :
    (r1 r2 s b : ℕ) → s < 16 → b < 64 → in_bounds r1 r2 ≡ false → names_block r1 r2 s b ≡ false
in_bounds-false r1 r2 s b hs hb h = ground arith

block-snoop_query :
    (p : Portal) (r : List ℕ) (s b : ℕ)
    → HasImages p
    → 19 ≤ length r
    → s < 16
    → b < 64
    → block_at (snoop_query p r) s b
      ≡ (if byte r 1 == 0x10 + s && byte r 2 == b then slice r 3 16 else block_at p s b)
unfolding snoop_query
block-snoop_query p r s b v l hs hb = elim (Bool-cases (in_bounds (byte r 1) (byte r 2))) [
  | inl g ↦
      let (hs', hb', same) = in_bounds-true (byte r 1) (byte r 2) s b g in
      rw (g, ← same)
        (copy_into p (byte r 1 - 0x10) (byte r 2) (slice r 3 16) s b v (data_length r l) hs' hb')
  | inr g ↦ rw (g, in_bounds-false (byte r 1) (byte r 2) s b hs hb g)
]

same_images : (p : Portal) (r : List ℕ) → (snoop_status p r).snooped ≡ p.snooped
unfolding snoop_status
same_images p r = refl

-- A report changes the copy of a block exactly when it is the reply to a read of that block, and
-- then to the 16 bytes of the reply.
pub block-snoop :
    (p : Portal) (r : List ℕ) (s b : ℕ)
    → HasImages p
    → s < 16
    → b < 64
    → block_at (snoop p r) s b ≡ (if is_block_reply r s b then slice r 3 16 else block_at p s b)
unfolding snoop
block-snoop p r s b v hs hb = ground (arith, block-snoop_query p r s b v, same_images p r)

snoop_query-HasImages :
    (p : Portal) (r : List ℕ) → HasImages p → 19 ≤ length r → HasImages (snoop_query p r)
unfolding snoop_query
snoop_query-HasImages p r v l = elim (Bool-cases (in_bounds (byte r 1) (byte r 2))) [
  | inl g ↦
      let (hs, hb, _) = in_bounds-true (byte r 1) (byte r 2) 0 0 g in
      let slot = byte r 1 - 0x10 in
      let copied = overwrite (snooped_at p slot) (byte r 2 * 16) (slice r 3 16) in
      let size : length copied ≡ 1024 =
        length-overwrite (snooped_at p slot) (byte r 2 * 16) (slice r 3 16)
          (omega (arith, v.image slot hs, data_length r l))
        ∙ v.image slot hs in
      rw g (record {
        slots = length-set p.snooped slot copied ∙ v.slots;
        image = λ s h. elim (ℕ_discrete slot s) [
          | yes e ↦
              ap (λ t. length (get_or (set p.snooped slot copied) t [])) (sym e)
              ∙ ap length (get_or-set_self p.snooped slot copied [] (omega (arith, v.slots)))
              ∙ size
          | no ne ↦ ap length (get_or-set_ne p.snooped slot s copied [] ne) ∙ v.image s h
        ];
      })
  | inr g ↦ rw g v
]

-- `snoop` keeps every copy at its size.
pub snoop-HasImages : (p : Portal) (r : List ℕ) → HasImages p → HasImages (snoop p r)
unfolding snoop snoop_status
snoop-HasImages p r v =
    elim (Bool-cases (byte r 0 == sky_cmd_query && not (byte r 1 == 0x01) && leb 19 (length r))) [
      | inl g ↦ rw g (snoop_query-HasImages p r v (long r g))
      | inr g ↦ rw g (elim (Bool-cases (byte r 0 == sky_cmd_status && leb 6 (length r))) [
        | inl k ↦ rw k (record { slots = v.slots; image = v.image })
        | inr k ↦ rw k v
      ])
    ]
  where
    long :
        (t : List ℕ)
        → (byte t 0 == sky_cmd_query && not (byte t 1 == 0x01) && leb 19 (length t)) ≡ true
        → 19 ≤ length t
    long t g = ground arith

-- The reports of the portal, one after the other.
abbrev pub snoop_all : Portal → List (List ℕ) → Portal
snoop_all p [] = p
snoop_all p (r ∷ rs) = snoop_all (snoop p r) rs

-- The bytes that the last read of block `b` of slot `s` gave, if there was one.
abbrev pub last_read : List (List ℕ) → ℕ → ℕ → List ℕ → List ℕ
last_read [] s b before = before
last_read (r ∷ rs) s b before =
    last_read rs s b (if is_block_reply r s b then slice r 3 16 else before)

-- After any reports the copy of a block is what its last read gave, and what it was before if it was
-- not read: no other report changes it, also not one by which the figure in the slot has gone.
pub block-snoop_all :
    (rs : List (List ℕ)) (p : Portal) (s b : ℕ)
    → HasImages p
    → s < 16
    → b < 64
    → block_at (snoop_all p rs) s b ≡ last_read rs s b (block_at p s b)
block-snoop_all [] p s b v hs hb = refl
block-snoop_all (r ∷ rs) p s b v hs hb =
    block-snoop_all rs (snoop p r) s b (snoop-HasImages p r v) hs hb
    ∙ ap (last_read rs s b) (block-snoop p r s b v hs hb)

get_or-replicate : {A : Type 0} (n i : ℕ) (x d : A) → i < n → get_or (replicate n x) i d ≡ x
get_or-replicate zero i x d h = absurd (omega arith)
get_or-replicate (suc n) zero x d h = refl
get_or-replicate (suc n) (suc i) x d h = get_or-replicate n i x d (omega arith)

-- The statics at start have every copy at its size.
pub start-HasImages : HasImages start
start-HasImages = record {
  slots = length-replicate 16 (replicate {A = ℕ} 1024 0);
  image = λ s h.
      ap length (get_or-replicate 16 s (replicate 1024 0) [] h) ∙ length-replicate {A = ℕ} 1024 0;
}
