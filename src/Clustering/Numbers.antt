-- ===== src/Clustering/Numbers.antt =====
-- The floating-point numbers that backend/app/clustering/engine.py and events/engine.py compute
-- with, as an interface: a type, the operations that the code uses, and the facts about correctly
-- rounded arithmetic on finite doubles that the proofs need.
use newsintel.Prelude.{ℕ, ◌≤◌, ◌<◌, ◌≡◌, Bool, true, false, if◌then◌else◌}

pub record Floats : Type 1 where
  pub F : Type 0
  -- The literal n / 100, such as 0.35.
  pub hundredths : ℕ → F
  pub add : F → F → F
  pub sub : F → F → F
  pub mul : F → F → F
  pub div : F → F → F
  -- `a / b` of two ints.
  pub int_div : ℕ → ℕ → F
  -- `math.log` of an int, and of a float.
  pub log : F → F
  -- `a <= b`
  pub le : F → F → Bool

abbrev pub zero_float : (fl : Floats) → fl.F
zero_float fl = fl.hundredths 0

abbrev pub one_float : (fl : Floats) → fl.F
one_float fl = fl.hundredths 100

-- `max(a, b)` and `min(a, b)`, which keep the first of two equal arguments.
abbrev pub max_float : (fl : Floats) → fl.F → fl.F → fl.F
max_float fl a b = if fl.le b a then a else b

abbrev pub min_float : (fl : Floats) → fl.F → fl.F → fl.F
min_float fl a b = if fl.le a b then a else b

-- The order on finite doubles.
pub record IsOrdered (fl : Floats) : Type 0 where
  pub le_refl : (a : fl.F) → fl.le a a ≡ true
  pub le_total : (a b : fl.F) → fl.le a b ≡ false → fl.le b a ≡ true
  pub le_trans : (a b c : fl.F) → fl.le a b ≡ true → fl.le b c ≡ true → fl.le a c ≡ true

-- Rounding to nearest keeps the order, so the operations are monotone, and it leaves exact results
-- alone. The last two fields are the sums of the weights of the two rules, which come out as 1.0.
pub record IsRounded (fl : Floats) : Type 0 where
  pub ordered : IsOrdered fl
  pub zero_le_one : fl.le (fl.hundredths 0) (fl.hundredths 100) ≡ true
  pub hundredths_nonneg : (n : ℕ) → fl.le (fl.hundredths 0) (fl.hundredths n) ≡ true
  pub add_mono :
      (a b c d : fl.F)
      → fl.le a b ≡ true
      → fl.le c d ≡ true
      → fl.le (fl.add a c) (fl.add b d) ≡ true
  pub add_nonneg :
      (a b : fl.F)
      → fl.le (fl.hundredths 0) a ≡ true
      → fl.le (fl.hundredths 0) b ≡ true
      → fl.le (fl.hundredths 0) (fl.add a b) ≡ true
  -- A product with a factor in [0, 1] lies between 0 and the other factor.
  pub mul_unit :
      (a b : fl.F)
      → fl.le (fl.hundredths 0) a ≡ true
      → fl.le (fl.hundredths 0) b ≡ true
      → fl.le b (fl.hundredths 100) ≡ true
      → fl.le (fl.mul a b) a ≡ true
  pub mul_nonneg :
      (a b : fl.F)
      → fl.le (fl.hundredths 0) a ≡ true
      → fl.le (fl.hundredths 0) b ≡ true
      → fl.le (fl.hundredths 0) (fl.mul a b) ≡ true
  pub sub_le : (a b : fl.F) → fl.le (fl.hundredths 0) b ≡ true → fl.le (fl.sub a b) a ≡ true
  pub div_nonneg :
      (a b : fl.F)
      → fl.le (fl.hundredths 0) a ≡ true
      → fl.le (fl.hundredths 0) b ≡ true
      → fl.le (fl.hundredths 0) (fl.div a b) ≡ true
  pub int_div_nonneg : (a b : ℕ) → fl.le (fl.hundredths 0) (fl.int_div a b) ≡ true
  pub int_div_le_one : (a b : ℕ) → 0 < b → a ≤ b → fl.le (fl.int_div a b) (fl.hundredths 100) ≡ true
  pub wording_weight_nonneg :
      fl.le (fl.hundredths 0) (fl.sub (fl.hundredths 100) (fl.hundredths 15)) ≡ true
  pub headline_weights :
      fl.le
        (fl.add (fl.add (fl.hundredths 50) (fl.hundredths 35)) (fl.hundredths 15))
        (fl.hundredths 100)
      ≡ true
  pub wording_weights :
      fl.le
        (fl.add (fl.sub (fl.hundredths 100) (fl.hundredths 15)) (fl.hundredths 15))
        (fl.hundredths 100)
      ≡ true
