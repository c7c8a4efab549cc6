-- ===== src/Prelude/Sort/Kept.antt =====
-- What sorting does to the part of a list that is kept, and to a list that is sorted already.
use newsintel.Prelude.{
  Bool, List, ◌≡◌, All, false, map, true, ◌∷◌, keep, [], Bool-cases, arith, ◌∙◌, refl, inl, ap, inr,
  sym,
}
use newsintel.Prelude.Sort.{sort_by, IsSorted, insert_by, sort_by-IsSorted, below-All}

-- A list that is sorted stays as it is.
module _ {ℓ} {A : Type ℓ} (le : A → A → Bool) where
  insert_by-below : (x : A) (xs : List A) → All (λ y. le x y ≡ true) xs → insert_by le x xs ≡ x ∷ xs
  insert_by-below x [] h = refl
  insert_by-below x (y ∷ ys) h = rw h.0 refl

  pub sort_by-sorted : (xs : List A) → IsSorted le xs → sort_by le xs ≡ xs
  sort_by-sorted [] h = refl
  sort_by-sorted (x ∷ xs) h = rw (sort_by-sorted xs h.1) (insert_by-below x xs h.0)

  All-keep {κ} : (P : A → Type κ) (p : A → Bool) (xs : List A) → All P xs → All P (keep p xs)
  All-keep P p [] h = tt
  All-keep P p (x ∷ xs) h = elim (Bool-cases (p x)) [
    | inl t ↦ rw t (h.0, All-keep P p xs h.1)
    | inr n ↦ rw n (All-keep P p xs h.1)
  ]

  module _ (total : (a b : A) → le a b ≡ false → le b a ≡ true)
      (trans : (a b c : A) → le a b ≡ true → le b c ≡ true → le a c ≡ true) (p : A → Bool) where
    keep-insert_by-in :
        (x : A) (xs : List A)
        → IsSorted le xs
        → p x ≡ true
        → keep p (insert_by le x xs) ≡ insert_by le x (keep p xs)
    keep-insert_by-in x [] h px = rw px refl
    keep-insert_by-in x (y ∷ ys) h px = elim (Bool-cases (le x y)) [
      | inl e ↦
          rw (e, px)
            (sym (
              insert_by-below x (keep p (y ∷ ys)) (
                All-keep (λ z. le x z ≡ true) p (y ∷ ys)
                  (e, below-All le total trans x y ys e h.0))))
      | inr e ↦ elim (Bool-cases (p y)) [
        | inl t ↦ rw (e, t, e, keep-insert_by-in x ys h.1 px) refl
        | inr n ↦ rw (e, n) (keep-insert_by-in x ys h.1 px)
      ]
    ]

    keep-insert_by-out :
        (x : A) (xs : List A) → p x ≡ false → keep p (insert_by le x xs) ≡ keep p xs
    keep-insert_by-out x [] px = rw px refl
    keep-insert_by-out x (y ∷ ys) px = ground (arith, keep-insert_by-out x ys px)

    -- Keeping a part of a sorted list sorts the part.
    pub keep-sort_by : (xs : List A) → keep p (sort_by le xs) ≡ sort_by le (keep p xs)
    keep-sort_by [] = refl
    keep-sort_by (x ∷ xs) = elim (Bool-cases (p x)) [
      | inl t ↦ rw t (
          keep-insert_by-in x (sort_by le xs) (sort_by-IsSorted le total trans xs) t
          ∙ ap (insert_by le x) (keep-sort_by xs))
      | inr n ↦ rw n (keep-insert_by-out x (sort_by le xs) n ∙ keep-sort_by xs)
    ]

-- A function that respects the order may be applied before or after the sort.
module _ {ℓ} {A : Type ℓ} (le : A → A → Bool) (f : A → A)
    (same : (a b : A) → le (f a) (f b) ≡ le a b) where
  map-insert_by : (x : A) (xs : List A) → map f (insert_by le x xs) ≡ insert_by le (f x) (map f xs)
  map-insert_by x [] = refl
  map-insert_by x (y ∷ ys) = elim (Bool-cases (le x y)) [
    | inl t ↦ rw (same x y, t) refl
    | inr n ↦ rw (same x y, n) (ap (λ zs. f y ∷ zs) (map-insert_by x ys))
  ]

  pub map-sort_by : (xs : List A) → map f (sort_by le xs) ≡ sort_by le (map f xs)
  map-sort_by [] = refl
  map-sort_by (x ∷ xs) = map-insert_by x (sort_by le xs) ∙ ap (insert_by le (f x)) (map-sort_by xs)
