-- ===== src/Prelude/Lists.antt =====
-- Arrays of C as lists, measured and indexed by native numbers, and `memcpy` into and out of them.
use Prim.Native.Nat.{ℕ, zero, suc, ◌+◌, ◌-◌, ◌≤◌, ◌<◌, min}
use mathlib.Core.Path.{◌≡◌, refl, ap, sym, ◌∙◌}
use mathlib.Core.Logic.{◌≢◌}
use mathlib.Core.List.{List, [], ◌∷◌, ◌++◌, append-nil}
use native.Mathlib.Omega.{arith}

module _ {ℓ} {A : Type ℓ} where
  abbrev pub length : List A → ℕ
  length [] = 0
  length (x ∷ xs) = suc (length xs)

  abbrev pub get_or : List A → ℕ → A → A
  get_or [] i d = d
  get_or (x ∷ xs) zero d = x
  get_or (x ∷ xs) (suc i) d = get_or xs i d

  -- A write out of bounds changes nothing.
  abbrev pub set : List A → ℕ → A → List A
  set [] i v = []
  set (x ∷ xs) zero v = v ∷ xs
  set (x ∷ xs) (suc i) v = x ∷ set xs i v

  abbrev pub take : ℕ → List A → List A
  take zero xs = []
  take (suc n) [] = []
  take (suc n) (x ∷ xs) = x ∷ take n xs

  abbrev pub drop : ℕ → List A → List A
  drop zero xs = xs
  drop (suc n) [] = []
  drop (suc n) (x ∷ xs) = drop n xs

  abbrev pub replicate : ℕ → A → List A
  replicate zero a = []
  replicate (suc n) a = a ∷ replicate n a

  pub length-append : (xs ys : List A) → length (xs ++ ys) ≡ length xs + length ys
  length-append [] ys = omega arith
  length-append (x ∷ xs) ys = omega (arith, length-append xs ys)

  pub length-set : (xs : List A) (i : ℕ) (v : A) → length (set xs i v) ≡ length xs
  length-set [] i v = refl
  length-set (x ∷ xs) zero v = refl
  length-set (x ∷ xs) (suc i) v = ap suc (length-set xs i v)

  pub length-take : (n : ℕ) (xs : List A) → length (take n xs) ≡ min n (length xs)
  length-take zero xs = omega arith
  length-take (suc n) [] = omega arith
  length-take (suc n) (x ∷ xs) = omega (arith, length-take n xs)

  pub length-drop : (n : ℕ) (xs : List A) → length (drop n xs) ≡ length xs - n
  length-drop zero xs = omega arith
  length-drop (suc n) [] = omega arith
  length-drop (suc n) (x ∷ xs) = omega (arith, length-drop n xs)

  pub length-replicate : (n : ℕ) (a : A) → length (replicate n a) ≡ n
  length-replicate zero a = refl
  length-replicate (suc n) a = ap suc (length-replicate n a)

  pub get_or-set_self :
      (xs : List A) (i : ℕ) (v d : A) → i < length xs → get_or (set xs i v) i d ≡ v
  get_or-set_self [] i v d h = absurd (omega arith)
  get_or-set_self (x ∷ xs) zero v d h = refl
  get_or-set_self (x ∷ xs) (suc i) v d h = get_or-set_self xs i v d (omega arith)

  pub get_or-set_ne :
      (xs : List A) (i j : ℕ) (v d : A) → i ≢ j → get_or (set xs i v) j d ≡ get_or xs j d
  get_or-set_ne [] i j v d h = refl
  get_or-set_ne (x ∷ xs) zero zero v d h = absurd (h refl)
  get_or-set_ne (x ∷ xs) zero (suc j) v d h = refl
  get_or-set_ne (x ∷ xs) (suc i) zero v d h = refl
  get_or-set_ne (x ∷ xs) (suc i) (suc j) v d h = get_or-set_ne xs i j v d (λ e. h (ap suc e))

  pub take_all : (n : ℕ) (xs : List A) → length xs ≤ n → take n xs ≡ xs
  take_all zero [] h = refl
  take_all zero (x ∷ xs) h = absurd (omega arith)
  take_all (suc n) [] h = refl
  take_all (suc n) (x ∷ xs) h = ap (◌∷◌ x) (take_all n xs (omega arith))

  pub drop_all : (n : ℕ) (xs : List A) → length xs ≤ n → drop n xs ≡ []
  drop_all zero [] h = refl
  drop_all zero (x ∷ xs) h = absurd (omega arith)
  drop_all (suc n) [] h = refl
  drop_all (suc n) (x ∷ xs) h = drop_all n xs (omega arith)

  pub take-append_left : (n : ℕ) (xs ys : List A) → n ≤ length xs → take n (xs ++ ys) ≡ take n xs
  take-append_left zero xs ys h = refl
  take-append_left (suc n) [] ys h = absurd (omega arith)
  take-append_left (suc n) (x ∷ xs) ys h = ap (◌∷◌ x) (take-append_left n xs ys (omega arith))

  pub drop-append_right :
      (n : ℕ) (xs ys : List A) → length xs ≤ n → drop n (xs ++ ys) ≡ drop (n - length xs) ys
  drop-append_right n [] ys h = ap (λ k. drop k ys) (omega arith)
  drop-append_right zero (x ∷ xs) ys h = absurd (omega arith)
  drop-append_right (suc n) (x ∷ xs) ys h =
      drop-append_right n xs ys (omega arith) ∙ ap (λ k. drop k ys) (omega arith)

  pub drop-append_left :
      (n : ℕ) (xs ys : List A) → n ≤ length xs → drop n (xs ++ ys) ≡ drop n xs ++ ys
  drop-append_left zero xs ys h = refl
  drop-append_left (suc n) [] ys h = absurd (omega arith)
  drop-append_left (suc n) (x ∷ xs) ys h = drop-append_left n xs ys (omega arith)

  pub take-append-drop : (n : ℕ) (xs : List A) → take n xs ++ drop n xs ≡ xs
  take-append-drop zero xs = refl
  take-append-drop (suc n) [] = refl
  take-append-drop (suc n) (x ∷ xs) = ap (◌∷◌ x) (take-append-drop n xs)

  pub drop-drop : (m n : ℕ) (xs : List A) → drop m (drop n xs) ≡ drop (n + m) xs
  drop-drop m zero xs = ap (λ k. drop k xs) (omega arith)
  drop-drop m (suc n) [] = drop_all m [] (omega arith) ∙ sym (drop_all (suc n + m) [] (omega arith))
  drop-drop m (suc n) (x ∷ xs) =
      let e : suc (n + m) ≡ suc n + m = omega arith in
      drop-drop m n xs ∙ ap (λ k. drop k (x ∷ xs)) e

  pub get_or-append_left :
      (xs ys : List A) (i : ℕ) (d : A) → i < length xs → get_or (xs ++ ys) i d ≡ get_or xs i d
  get_or-append_left [] ys i d h = absurd (omega arith)
  get_or-append_left (x ∷ xs) ys zero d h = refl
  get_or-append_left (x ∷ xs) ys (suc i) d h = get_or-append_left xs ys i d (omega arith)

-- Copies between arrays: `slice` reads, `overwrite` writes.
module _ {ℓ} {A : Type ℓ} where
  -- `n` entries from `xs + off`.
  abbrev pub slice : List A → ℕ → ℕ → List A
  slice xs off n = take n (drop off xs)

  -- `memcpy(xs + off, ys, length ys)`, where that stays inside `xs`.
  unfoldable pub overwrite : List A → ℕ → List A → List A
  overwrite xs off ys = take off xs ++ (ys ++ drop (off + length ys) xs)

  length-slice : (xs : List A) (off n : ℕ) → off + n ≤ length xs → length (slice xs off n) ≡ n
  length-slice xs off n h = omega (arith, length-take n (drop off xs), length-drop off xs)

  pub slice-append_left :
      (xs ys : List A) (a n : ℕ) → a + n ≤ length xs → slice (xs ++ ys) a n ≡ slice xs a n
  slice-append_left xs ys a n h =
      rw (drop-append_left a xs ys (omega arith))
        (take-append_left n (drop a xs) ys (omega (arith, length-drop a xs)))

  pub slice-append_right :
      (xs ys : List A) (a n : ℕ) → length xs ≤ a → slice (xs ++ ys) a n ≡ slice ys (a - length xs) n
  slice-append_right xs ys a n h = ap (take n) (drop-append_right a xs ys h)

  length-take_in : (n : ℕ) (xs : List A) → n ≤ length xs → length (take n xs) ≡ n
  length-take_in n xs h = omega (arith, length-take n xs)

  pub length-overwrite :
      (xs : List A) (off : ℕ) (ys : List A)
      → off + length ys ≤ length xs
      → length (overwrite xs off ys) ≡ length xs
  unfolding overwrite
  length-overwrite xs off ys h = omega (
    arith,
    length-append (take off xs) (ys ++ drop (off + length ys) xs),
    length-append ys (drop (off + length ys) xs),
    length-take off xs,
    length-drop (off + length ys) xs,
  )

  pub slice-overwrite_self :
      (xs : List A) (off : ℕ) (ys : List A) (n : ℕ)
      → off ≤ length xs
      → n ≡ length ys
      → slice (overwrite xs off ys) off n ≡ ys
  unfolding overwrite
  slice-overwrite_self xs off ys n h e =
      slice-append_right (take off xs) (ys ++ drop (off + length ys) xs) off n (omega (arith, l))
      ∙ ap (λ k. slice (ys ++ drop (off + length ys) xs) k n) z
      ∙ take-append_left n ys (drop (off + length ys) xs) (omega arith)
      ∙ take_all n ys (omega arith)
    where
      l : length (take off xs) ≡ off
      l = length-take_in off xs h

      z : off - length (take off xs) ≡ 0
      z = omega (arith, l)

  pub slice-overwrite_left :
      (xs : List A) (off : ℕ) (ys : List A) (a n : ℕ)
      → off ≤ length xs
      → a + n ≤ off
      → slice (overwrite xs off ys) a n ≡ slice xs a n
  unfolding overwrite
  slice-overwrite_left xs off ys a n h k =
      slice-append_left (take off xs) (ys ++ drop (off + length ys) xs) a n (omega (arith, l))
      ∙ sym (slice-append_left (take off xs) (drop off xs) a n (omega (arith, l)))
      ∙ ap (λ t. slice t a n) (take-append-drop off xs)
    where
      l : length (take off xs) ≡ off
      l = length-take_in off xs h

  pub slice-overwrite_right :
      (xs : List A) (off : ℕ) (ys : List A) (a n : ℕ)
      → off + length ys ≤ length xs
      → off + length ys ≤ a
      → slice (overwrite xs off ys) a n ≡ slice xs a n
  unfolding overwrite
  slice-overwrite_right xs off ys a n h k =
      slice-append_right (take off xs) (ys ++ drop (off + length ys) xs) a n (omega (arith, l))
      ∙ slice-append_right ys (drop (off + length ys) xs) (a - length (take off xs)) n
          (omega (arith, l))
      ∙ ap (take n) (drop-drop (a - length (take off xs) - length ys) (off + length ys) xs)
      ∙ ap (λ t. slice xs t n) (omega (arith, l))
    where
      l : length (take off xs) ≡ off
      l = length-take_in off xs (omega arith)

  -- A copy over the whole of an array leaves nothing of it.
  pub overwrite_all : (xs ys : List A) → length xs ≡ length ys → overwrite xs 0 ys ≡ ys
  unfolding overwrite
  overwrite_all xs ys e = ap (◌++◌ ys) (drop_all (0 + length ys) xs (omega arith)) ∙ append-nil ys
