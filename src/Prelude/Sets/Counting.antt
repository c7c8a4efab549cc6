-- ===== src/Prelude/Sets/Counting.antt =====
-- Intersections and unions have the same size whichever set comes first.
use newsintel.Prelude.Tests.{if◌then◌else◌, Bool-cases}
use newsintel.Prelude.Lists.{length, keep}
use Prim.Native.Nat.{◌+◌}
use mathlib.Core.Path.{◌≡◌, refl}
use mathlib.Core.Logic.{inl, inr}
use mathlib.Core.Bool.{Bool, true, false, not}
use mathlib.Core.List.{List, [], ◌∷◌, ◌++◌}
use native.Mathlib.Omega.{arith}
use newsintel.Prelude.Sets.{Eq, contains, inter, union, Distinct}

module _ {ℓ} {A : Type ℓ} ⦃e : Eq A⦄ where
  beq_refl : (a : A) → e.beq a a ≡ true
  beq_refl a = (e.beq_iff a a).1 refl

  beq_sym : (a b : A) → e.beq a b ≡ e.beq b a
  beq_sym a b = ground (arith, e.beq_iff a b, e.beq_iff b a)

  keep_nil : (xs : List A) → length (keep (contains []) xs) ≡ 0
  keep_nil [] = refl
  keep_nil (x ∷ xs) = keep_nil xs

  -- Adding an element that is new to the right set adds one exactly if the left set holds it.
  inter-cons_right :
      (x : A) (l r : List A)
      → contains l x ≡ false
      → Distinct r
      → length (inter r (x ∷ l)) ≡ length (inter r l) + (if contains r x then 1 else 0)
  inter-cons_right x l [] new d = omega arith
  inter-cons_right x l (y ∷ r) new d = elim (Bool-cases (e.beq y x)) [
    | inl h ↦
        let p : y ≡ x = (e.beq_iff y x).0 h in
        let left : contains l y ≡ false = rw p new in
        let right : contains r x ≡ false = rw (← p) d.0 in
        ground (arith, inter-cons_right x l r new d.1, beq_sym x y)
    | inr h ↦ ground (arith, inter-cons_right x l r new d.1, beq_sym x y)
  ]

  pub length-inter_comm :
      (l r : List A) → Distinct l → Distinct r → length (inter l r) ≡ length (inter r l)
  length-inter_comm [] r dl dr = omega (arith, keep_nil r)
  length-inter_comm (x ∷ l) r dl dr =
      ground (arith, inter-cons_right x l r dl.0 dr, length-inter_comm l r dl.1 dr)

  keep_split :
      (p : A → Bool) (xs : List A)
      → length (keep p xs) + length (keep (λ x. not (p x)) xs) ≡ length xs
  keep_split p [] = omega arith
  keep_split p (x ∷ xs) = ground (arith, keep_split p xs)

  length-append' : (xs ys : List A) → length (xs ++ ys) ≡ length xs + length ys
  length-append' [] ys = omega arith
  length-append' (x ∷ xs) ys = omega (arith, length-append' xs ys)

  pub length-union_comm :
      (l r : List A) → Distinct l → Distinct r → length (union l r) ≡ length (union r l)
  length-union_comm l r dl dr = omega (
    arith,
    length-append' l (keep (λ x. not (contains l x)) r),
    length-append' r (keep (λ x. not (contains r x)) l),
    keep_split (contains l) r,
    keep_split (contains r) l,
    length-inter_comm l r dl dr,
  )
