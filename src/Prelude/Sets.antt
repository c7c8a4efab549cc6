-- ===== src/Prelude/Sets.antt =====
-- A frozenset as a list, over a type with a Boolean equality.
pub mod Counting
use Prim.Native.Nat.{ℕ, ◌≤◌}
use mathlib.Core.Path.{◌≡◌}
use mathlib.Core.Logic.{◌↔◌}
use mathlib.Core.Bool.{Bool, true, false, not, ◌||◌, ◌&&◌}
use mathlib.Core.List.{List, [], ◌∷◌, ◌++◌}
use native.Mathlib.Omega.{arith}
use newsintel.Prelude.Tests.{◌==◌, ==_iff, if◌then◌else◌}
use newsintel.Prelude.Lists.{length, keep, length-keep-le}

pub record Eq {ℓ} (A : Type ℓ) : Type ℓ where
  pub beq : A → A → Bool
  pub beq_iff : (a b : A) → (beq a b ≡ true) ↔ (a ≡ b)

abbrev pub beq_list : List ℕ → List ℕ → Bool
beq_list [] [] = true
beq_list (x ∷ xs) (y ∷ ys) = (x == y) && beq_list xs ys
beq_list _ _ = false

pub beq_list_iff : (a b : List ℕ) → (beq_list a b ≡ true) ↔ (a ≡ b)
beq_list_iff [] [] = ground arith
beq_list_iff [] (y ∷ ys) = ground arith
beq_list_iff (x ∷ xs) [] = ground arith
beq_list_iff (x ∷ xs) (y ∷ ys) = ground (arith, beq_list_iff xs ys)

instance abbrev pub nat_eq : Eq ℕ
nat_eq = record { beq = ◌==◌; beq_iff = ==_iff }

instance abbrev pub word_eq : Eq (List ℕ)
word_eq = record { beq = beq_list; beq_iff = beq_list_iff }

module _ {ℓ} {A : Type ℓ} ⦃e : Eq A⦄ where
  abbrev pub contains : List A → A → Bool
  contains [] a = false
  contains (x ∷ xs) a = e.beq a x || contains xs a

  -- `left & right`
  abbrev pub inter : List A → List A → List A
  inter left right = keep (contains right) left

  -- `left | right`
  abbrev pub union : List A → List A → List A
  union left right = left ++ keep (λ x. not (contains left x)) right

  -- `frozenset(xs)`: each element once.
  abbrev pub dedupe : List A → List A
  dedupe [] = []
  dedupe (x ∷ xs) = let rest = dedupe xs in if contains rest x then rest else x ∷ rest

  -- A list that stands for a set: no element twice.
  abbrev pub Distinct : List A → Type 0
  Distinct [] = Unit
  Distinct (x ∷ xs) = (contains xs x ≡ false) × Distinct xs

  pub length-inter-le : (left right : List A) → length (inter left right) ≤ length left
  length-inter-le left right = length-keep-le (contains right) left
