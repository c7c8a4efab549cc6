-- ===== src/Clustering/Fixed.antt =====
-- Fixed-point numbers of four decimals as one model of the interface `Floats`: it shows that the
-- facts of `IsRounded` can hold together. The logarithm is left as the identity.
use newsintel.Prelude.{ℕ, ◌+◌, ◌-◌, ◌*◌, ◌/◌, ◌≤◌, ◌<◌, ◌≡◌, refl, true, arith, leb}
use newsintel.Clustering.Numbers.{Floats, IsRounded}

abbrev pub fixed : Floats
fixed = record {
  F = ℕ;
  hundredths = λ n. n * 100;
  add = λ a b. a + b;
  sub = λ a b. a - b;
  mul = λ a b. a * b / 10_000;
  div = λ a b. a * 10_000 / b;
  int_div = λ a b. a * 10_000 / b;
  log = λ a. a;
  le = leb;
}

mul_unit_lem : (a b : ℕ) → b ≤ 10_000 → a * b / 10_000 ≤ a
mul_unit_lem a b h = grind arith

div_unit_lem : (a b : ℕ) → 0 < b → a ≤ b → a * 10_000 / b ≤ 10_000
div_unit_lem a b p h = grind arith

le→leb : (a b : ℕ) → a ≤ b → leb a b ≡ true
le→leb a b h = ground arith

leb→le : (a b : ℕ) → leb a b ≡ true → a ≤ b
leb→le a b h = ground arith

pub fixed-IsRounded : IsRounded fixed
fixed-IsRounded = record {
  ordered = record {
    le_refl = λ a. ground arith;
    le_total = λ a b h. ground arith;
    le_trans = λ a b c h k. ground arith;
  };
  zero_le_one = refl;
  hundredths_nonneg = λ n. le→leb _ _ (omega arith);
  add_mono = λ a b c d h k. ground arith;
  add_nonneg = λ a b h k. le→leb _ _ (omega arith);
  mul_unit = λ a b h k l. le→leb _ _ (mul_unit_lem a b (leb→le _ _ l));
  mul_nonneg = λ a b h k. le→leb _ _ (omega arith);
  sub_le = λ a b h. le→leb _ _ (omega arith);
  div_nonneg = λ a b h k. le→leb _ _ (omega arith);
  int_div_nonneg = λ a b. le→leb _ _ (omega arith);
  int_div_le_one = λ a b p h. le→leb _ _ (div_unit_lem a b p h);
  wording_weight_nonneg = refl;
  headline_weights = refl;
  wording_weights = refl;
}
