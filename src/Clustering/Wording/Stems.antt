-- ===== src/Clustering/Wording/Stems.antt =====
-- How far a word is cut by its stem (backend/app/clustering/engine.py).
use newsintel.Prelude.{
  ℕ, zero, suc, ◌+◌, ◌-◌, ◌≤◌, ◌≡◌, true, [], ◌∷◌, ◌++◌, arith, length, take, min,
}
use newsintel.Clustering.Features.{Word}
use newsintel.Clustering.Wording.{
  cut, ends_with, strip_plural, undouble, strip_suffix, strip_e, stem,
}

length-take : (n : ℕ) (w : Word) → length (take n w) ≡ min n (length w)
length-take zero w = omega arith
length-take (suc n) [] = omega arith
length-take (suc n) (c ∷ w) = omega (arith, length-take n w)

length-cut : (n : ℕ) (w : Word) → length (cut n w) ≡ length w - n
length-cut n w = omega (arith, length-take (length w - n) w)

length-append_one : (w : Word) (c : ℕ) → length (w ++ c ∷ []) ≡ length w + 1
length-append_one [] c = omega arith
length-append_one (d ∷ w) c = omega (arith, length-append_one w c)

ends_with-le : (w suffix : Word) → ends_with w suffix ≡ true → length suffix ≤ length w
ends_with-le w suffix h = ground arith

strip_plural_bounds :
    (w : Word) → 3 ≤ length w → (2 ≤ length (strip_plural w)) × (length (strip_plural w) ≤ length w)
unfolding strip_plural
strip_plural_bounds w h =
    ground (arith, length-cut 3 w, length-cut 2 w, length-cut 1 w, length-append_one (cut 3 w) b'y')

undouble_bounds :
    (w : Word) → (min 3 (length w) ≤ length (undouble w)) × (length (undouble w) ≤ length w)
unfolding undouble
undouble_bounds w = ground (arith, length-cut 1 w)

strip_suffix_bounds :
    (w : Word) → (min 3 (length w) ≤ length (strip_suffix w)) × (length (strip_suffix w) ≤ length w)
unfolding strip_suffix
strip_suffix_bounds w =
    ground
      (arith, length-cut 3 w, length-cut 2 w, undouble_bounds (cut 3 w), undouble_bounds (cut 2 w))

strip_e_bounds :
    (w : Word) → (min 3 (length w) ≤ length (strip_e w)) × (length (strip_e w) ≤ length w)
unfolding strip_e
strip_e_bounds w = ground (arith, length-cut 1 w)

-- A stem is never longer than its word, and of a word that counts as a term (three characters or
-- more) at least two characters are left, so no term becomes empty.
pub stem_bounds : (w : Word) → 3 ≤ length w → (2 ≤ length (stem w)) × (length (stem w) ≤ length w)
unfolding stem
stem_bounds w h = omega (
  arith,
  strip_plural_bounds w h,
  strip_suffix_bounds (strip_plural w),
  strip_e_bounds (strip_suffix (strip_plural w)),
)
