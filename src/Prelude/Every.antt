-- ===== src/Prelude/Every.antt =====
-- Lemmas on predicates that hold of every element of a list.
use newsintel.Prelude.{
  Bool, List, ◌≡◌, All, find, true, ◌∷◌, some, none, update_where, [], Bool-cases, any, arith, inl,
  false, inr, refl, subst,
}

module _ {ℓ κ} {A : Type ℓ} (P : A → Type κ) where
  pub All-update_where :
      (p : A → Bool) (f : A → A) (xs : List A)
      → ((x : A) → p x ≡ true → P x → P (f x))
      → All P xs
      → All P (update_where p f xs)
  All-update_where p f [] keeps h = tt
  All-update_where p f (x ∷ xs) keeps h =
      (ground (arith, keeps x), All-update_where p f xs keeps h.1)

module _ {ℓ κ κ'} {A : Type ℓ} (P : A → Type κ) (Q : A → Type κ') where
  pub All-map : ((x : A) → P x → Q x) → (xs : List A) → All P xs → All Q xs
  All-map f [] h = tt
  All-map f (x ∷ xs) h = (f x h.0, All-map f xs h.1)

module _ {ℓ κ} {A : Type ℓ} (P : A → Type κ) where
  pub All-find :
      (p : A → Bool) (xs : List A) (x : A) → find p xs ≡ some x → All P xs → P x × (p x ≡ true)
  All-find p [] x e h = cc
  All-find p (y ∷ ys) x e h = elim (Bool-cases (p y)) [
    | inl t ↦ let same : y ≡ x = ground arith in (subst P same h.0, ground arith)
    | inr f ↦ All-find p ys x (ground arith) h.1
  ]

pub any-find-none : {A : Type 0} (p : A → Bool) (xs : List A) → find p xs ≡ none → any p xs ≡ false
any-find-none p [] e = refl
any-find-none p (x ∷ xs) e = ground (arith, any-find-none p xs)
