-- ===== src/Entities/Finishing/Chosen.antt =====
-- What the articles of a batch have in common with the rows they were read from
-- (backend/app/entities/authority.py).
use newsintel.Entities.Runs.{last_of}
use newsintel.Prelude.Sort.{sort_by, any-sort_by, length-sort_by}
use newsintel.Prelude.Sets.{dedupe, nat_eq, contains}
use newsintel.Entities.Store.{ArticleEntity, Run}
use newsintel.Prelude.{
  ℕ, refl, ◌≡◌, ◌∙◌, arith, Bool, List, any, true, find, take, map, ◌==◌, length, ◌&&◌, suc, ◌∷◌,
  keep, leb, not, some, zero, [], sym, ◌≤◌, ◌<◌, update_where, Bool-cases, inl, inr, false, ap, ◌⊎◌,
}

pub any-take {ℓ} :
    {A : Type ℓ} (p : A → Bool) (n : ℕ) (xs : List A) → any p (take n xs) ≡ true → any p xs ≡ true
any-take p zero xs h = cc
any-take p (suc n) [] h = cc
any-take p (suc n) (x ∷ xs) h = ground (arith, any-take p n xs)

any-dedupe : (p : ℕ → Bool) (xs : List ℕ) → any p (dedupe xs) ≡ true → any p xs ≡ true
any-dedupe p [] h = cc
any-dedupe p (x ∷ xs) h = ground (arith, any-dedupe p xs)

any-map-keep {ℓ} :
    {A : Type ℓ} (p : A → Bool) (g : A → ℕ) (q : ℕ → Bool) (xs : List A)
    → any q (map g (keep p xs)) ≡ true
    → any (λ x. p x && q (g x)) xs ≡ true
any-map-keep p g q [] h = cc
any-map-keep p g q (x ∷ xs) h = ground (arith, any-map-keep p g q xs)

-- Every article of the sorted ids of the chosen rows is that of a chosen row.
pub any-articles :
    (p : ArticleEntity → Bool) (q : ℕ → Bool) (rows : List ArticleEntity)
    → any q (sort_by leb (dedupe (map (λ (r : ArticleEntity). r.article_id) (keep p rows)))) ≡ true
    → any (λ r. p r && q r.article_id) rows ≡ true
any-articles p q rows h =
    any-map-keep p (λ (r : ArticleEntity). r.article_id) q rows
      (any-dedupe q (map (λ (r : ArticleEntity). r.article_id) (keep p rows)) (
        sym (any-sort_by leb q (dedupe (map (λ (r : ArticleEntity). r.article_id) (keep p rows))))
        ∙ h))

pub any-last_of :
    (article : ℕ) (articles : List ℕ)
    → any (λ a. a == last_of article articles) (article ∷ articles) ≡ true
any-last_of article [] = ground arith
any-last_of article (next ∷ articles) = ground (arith, any-last_of next articles)

length-keep_mono {ℓ} :
    {A : Type ℓ} (p q : A → Bool) (xs : List A)
    → ((x : A) → p x ≡ true → q x ≡ true)
    → length (keep p xs) ≤ length (keep q xs)
length-keep_mono p q [] imp = omega arith
length-keep_mono p q (x ∷ xs) imp = ground (arith, imp x, length-keep_mono p q xs imp)

pub length-keep-less {ℓ} :
    {A : Type ℓ} (p q : A → Bool) (xs : List A)
    → ((x : A) → p x ≡ true → q x ≡ true)
    → any (λ x. q x && not (p x)) xs ≡ true
    → length (keep p xs) < length (keep q xs)
length-keep-less p q [] imp h = cc
length-keep-less p q (x ∷ xs) imp h =
    ground (arith, imp x, length-keep-less p q xs imp, length-keep_mono p q xs imp)

pub find-put :
    (run : Run) (id : ℕ) (runs : List Run) (old : Run)
    → run.id ≡ id
    → find (λ r. r.id == id) runs ≡ some old
    → find (λ r. r.id == id) (update_where (λ r. r.id == run.id) (λ r. run) runs) ≡ some run
find-put run id [] old same h = cc
find-put run id (r ∷ runs) old same h = elim (Bool-cases (r.id == id)) [
  | inl t ↦
      let here : (r.id == run.id) ≡ true = ground arith in
      let own : (run.id == id) ≡ true = ground arith in rw (here, own) refl
  | inr n ↦
      let elsewhere : (r.id == run.id) ≡ false = ground arith in
      let rest : find (λ r. r.id == id) runs ≡ some old = ground arith in
      rw (elsewhere, n) (find-put run id runs old same rest)
]

contains-empty : (ys : List ℕ) (x : ℕ) → length ys ≡ 0 → contains ys x ≡ false
contains-empty [] x h = refl
contains-empty (y ∷ ys) x h = ground arith

length-dedupe-zero : (xs : List ℕ) → length (dedupe xs) ≡ 0 → length xs ≡ 0
length-dedupe-zero [] h = refl
length-dedupe-zero (x ∷ xs) h = ground (arith, contains-empty (dedupe xs) x)

length-map {ℓ} : {A : Type ℓ} (g : A → ℕ) (xs : List A) → length (map g xs) ≡ length xs
length-map g [] = refl
length-map g (x ∷ xs) = ap suc (length-map g xs)

pub no_articles :
    (p : ArticleEntity → Bool) (rows : List ArticleEntity)
    → sort_by leb (dedupe (map (λ (r : ArticleEntity). r.article_id) (keep p rows))) ≡ []
    → length (keep p rows) ≡ 0
no_articles p rows h =
    let articles = map (λ (r : ArticleEntity). r.article_id) (keep p rows) in
    sym (length-map (λ (r : ArticleEntity). r.article_id) (keep p rows))
    ∙ length-dedupe-zero articles (sym (length-sort_by leb (dedupe articles)) ∙ ap length h)

pub List-cases {ℓ} :
    {A : Type ℓ} (xs : List A) → (xs ≡ []) ⊎ ((x : A) × (ys : List A) × (xs ≡ x ∷ ys))
List-cases [] = inl refl
List-cases (x ∷ xs) = inr (x, xs, refl)
