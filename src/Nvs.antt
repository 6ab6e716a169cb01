-- ===== src/Nvs.antt =====
-- The non-volatile storage of ESP-IDF as the code uses it, by what its documentation says: blobs by
-- key in one namespace. Whether a call succeeds is the store's to say.
use wireless_skyportal_conne.Prelude.{
  ℕ, ◌≤◌, ◌≡◌, refl, sym, arith, Bool, true, false, Option, none, some, List, [], ◌∷◌, length, leb,
  ◌==◌, ◌&&◌, if◌then◌else◌, ◌≢◌, Bool-cases, inl, inr,
}

-- What `nvs_flash_init` answers: ESP_OK, the two errors that ask for an erasure, or another error.
pub data FlashStart : Type 0 where
  flash_ok : FlashStart
  no_free_pages : FlashStart
  new_version_found : FlashStart
  flash_error : FlashStart

pub record NvsApi : Type 1 where
  pub Store : Type 0
  -- `nvs_flash_init`, and `nvs_flash_erase`.
  pub flash_init : Store → FlashStart × Store
  pub flash_erase : Store → Store
  -- `nvs_open` of the namespace, for writing and for reading only.
  pub open_rw : Store → Bool
  pub open_ro : Store → Bool
  -- `nvs_set_blob` and then `nvs_commit`; `saves` says whether both succeed.
  pub saves : Store → List ℕ → List ℕ → Bool
  pub save : Store → List ℕ → List ℕ → Store
  -- `nvs_get_blob` into a buffer of that size; `none` is an error.
  pub get_blob : Store → List ℕ → ℕ → Option (List ℕ)
  pub get_started :
      (s : Store) (k : List ℕ) (n : ℕ) → get_blob (flash_init s).1 k n ≡ get_blob s k n
  pub get_erased : (s : Store) (k : List ℕ) (n : ℕ) → get_blob (flash_erase s) k n ≡ none
  pub open_saved : (s : Store) (k v : List ℕ) → saves s k v ≡ true → open_ro (save s k v) ≡ true
  pub get_saved :
      (s : Store) (k v : List ℕ) (n : ℕ)
      → saves s k v ≡ true
      → length v ≤ n
      → get_blob (save s k v) k n ≡ some v
  pub get_other :
      (s : Store) (j k v : List ℕ) (n : ℕ) → j ≢ k → get_blob (save s k v) j n ≡ get_blob s j n

-- A store that obeys these, and never fails: an association list. `full_store` differs in that its start
-- finds no free pages.
abbrev same : List ℕ → List ℕ → Bool
same [] [] = true
same [] (y ∷ ys) = false
same (x ∷ xs) [] = false
same (x ∷ xs) (y ∷ ys) = x == y && same xs ys

same_iff : (xs ys : List ℕ) → same xs ys ≡ true → xs ≡ ys
same_iff [] [] h = refl
same_iff [] (y ∷ ys) h = cc
same_iff (x ∷ xs) [] h = cc
same_iff (x ∷ xs) (y ∷ ys) h = ground (arith, same_iff xs ys)

same_refl : (xs : List ℕ) → same xs xs ≡ true
same_refl [] = refl
same_refl (x ∷ xs) = ground (arith, same_refl xs)

abbrev found : List (List ℕ × List ℕ) → List ℕ → ℕ → Option (List ℕ)
found [] k n = none
found ((j, v) ∷ s) k n =
    if same j k then (if leb (length v) n then some v else none) else found s k n

pub found_saved :
    (s : List (List ℕ × List ℕ)) (k v : List ℕ) (n : ℕ)
    → true ≡ true
    → length v ≤ n
    → found ((k, v) ∷ s) k n ≡ some v
found_saved s k v n h l = ground (arith, same_refl k)

pub found_other :
    (s : List (List ℕ × List ℕ)) (j k v : List ℕ) (n : ℕ)
    → j ≢ k
    → found ((k, v) ∷ s) j n ≡ found s j n
found_other s j k v n ne = elim (Bool-cases (same k j)) [
  | inl e ↦ absurd (ne (sym (same_iff k j e)))
  | inr e ↦ rw e
]

abbrev pub assoc_store : NvsApi
assoc_store = record {
  Store = List (List ℕ × List ℕ);
  flash_init = λ s. (flash_ok, s);
  flash_erase = λ s. [];
  open_rw = λ s. true;
  open_ro = λ s. true;
  saves = λ s k v. true;
  save = λ s k v. (k, v) ∷ s;
  get_blob = found;
  get_started = λ s k n. refl;
  get_erased = λ s k n. refl;
  open_saved = λ s k v h. refl;
  get_saved = found_saved;
  get_other = found_other;
}

abbrev pub full_store : NvsApi
full_store = record assoc_store { flash_init = λ s. (no_free_pages, s) }
