-- ===== src/Entities/Finishing/Moved.antt =====
-- A batch of a merge run leaves fewer rows of the variant (backend/app/entities/authority.py).
use newsintel.Entities.Mentions.{combine_rows}
use newsintel.Entities.Finishing.Chosen.{any-articles}
use newsintel.Prelude.Sort.{sort_by, any-sort_by}
use newsintel.Entities.Runs.{
  merge_current, in_group, merge_article, kept_row, merge_past, id_before, move_articles,
  pending_articles, move_article, apply_to, part_seen,
}
use newsintel.Entities.Store.{ArticleEntity, Store, RunKind}
use newsintel.Prelude.{
  ℕ, ◌≡◌, ◌≤◌, ◌<◌, arith, List, Bool, length, ◌==◌, keep, false, update_where, any, ◌∷◌, ◌&&◌, [],
  not, true, ◌||◌, Bool-cases, inl, inr, ◌∙◌, take, suc, ap, refl, map, length-keep-le,
}

abbrev pub is_of : ℕ → ArticleEntity → Bool
is_of variant row = row.entity_id == variant

-- The rows that a merge run has still to move.
abbrev pub left : ℕ → List ArticleEntity → ℕ
left variant rows = length (keep (is_of variant) rows)

-- Rows that are dropped or replaced by rows of another entity are no longer the variant's.
module _ (variant : ℕ) (p q : ArticleEntity → Bool) (f : ArticleEntity → ArticleEntity)
    (away : (r : ArticleEntity) → is_of variant (f r) ≡ false) where
  left-update_keep :
      (rows : List ArticleEntity)
      → left variant (update_where p f (keep q rows)) ≤ left variant rows
  left-update_keep [] = omega arith
  left-update_keep (r ∷ rows) = ground (arith, left-update_keep rows, away r)

  left-update_keep_less :
      (rows : List ArticleEntity)
      → any (λ r. is_of variant r && (not (q r) || p r)) rows ≡ true
      → left variant (update_where p f (keep q rows)) < left variant rows
  left-update_keep_less [] h = cc
  left-update_keep_less (r ∷ rows) h =
      ground (arith, left-update_keep rows, left-update_keep_less rows, away r)

module _ (variant : ℕ) (p : ArticleEntity → Bool) (f : ArticleEntity → ArticleEntity)
    (away : (r : ArticleEntity) → is_of variant (f r) ≡ false) where
  left-update :
      (rows : List ArticleEntity) → left variant (update_where p f rows) ≤ left variant rows
  left-update [] = omega arith
  left-update (r ∷ rows) = ground (arith, left-update rows, away r)

  left-update_less :
      (rows : List ArticleEntity)
      → any (λ r. is_of variant r && p r) rows ≡ true
      → left variant (update_where p f rows) < left variant rows
  left-update_less [] h = cc
  left-update_less (r ∷ rows) h = ground (arith, left-update rows, left-update_less rows, away r)

any-either {ℓ} :
    {A : Type ℓ} (p s t : A → Bool) (xs : List A)
    → ((x : A) → p x ≡ true → (s x || t x) ≡ true)
    → any p xs ≡ true
    → (any s xs || any t xs) ≡ true
any-either p s t [] imp h = cc
any-either p s t (x ∷ xs) imp h = ground (arith, imp x, any-either p s t xs imp)

any-untouched {ℓ} :
    {A : Type ℓ} (g p : A → Bool) (f : A → A) (xs : List A)
    → ((x : A) → g x ≡ true → p x ≡ false)
    → any g xs ≡ true
    → any g (update_where p f xs) ≡ true
any-untouched g p f [] imp h = cc
any-untouched g p f (x ∷ xs) imp h = ground (arith, imp x, any-untouched g p f xs imp)

any-map_bool {ℓ} :
    {A : Type ℓ} (p q : A → Bool) (xs : List A)
    → ((x : A) → p x ≡ true → q x ≡ true)
    → any p xs ≡ true
    → any q xs ≡ true
any-map_bool p q [] imp h = cc
any-map_bool p q (x ∷ xs) imp h = ground (arith, imp x, any-map_bool p q xs imp)

any-keep_all {ℓ} :
    {A : Type ℓ} (p : A → Bool) (xs : List A) → any p xs ≡ true → any p (keep p xs) ≡ true
any-keep_all p [] h = cc
any-keep_all p (x ∷ xs) h = ground (arith, any-keep_all p xs)

module _ (article variant root : ℕ) (ne : (root == variant) ≡ false) where
  merge_current-le :
      (group rows : List ArticleEntity)
      → left variant (merge_current article variant root group rows) ≤ left variant rows
  merge_current-le [] rows = omega arith
  merge_current-le (row ∷ group) rows =
      let kept = kept_row root row group in
      left-update_keep variant (λ r. r.id == kept.id)
        (λ r. not (in_group article variant root r && r.is_current) || r.id == kept.id) _ (λ r. ne)
        rows

  merge_current-less :
      (group rows : List ArticleEntity)
      → any (λ r. is_of variant r && (in_group article variant root r && r.is_current)) rows ≡ true
      → any (λ r. in_group article variant root r && r.is_current) group ≡ true
      → left variant (merge_current article variant root group rows) < left variant rows
  merge_current-less [] rows h g = cc
  merge_current-less (row ∷ group) rows h g =
      let kept = kept_row root row group in
      left-update_keep_less variant (λ r. r.id == kept.id)
        (λ r. not (in_group article variant root r && r.is_current) || r.id == kept.id) _ (λ r. ne)
        rows (any-map_bool _ _ rows (λ r k. ground arith) h)

  merge_article-le :
      (rows : List ArticleEntity)
      → left variant (merge_article article variant root rows) ≤ left variant rows
  unfolding merge_article
  merge_article-le rows =
      let first =
        left-update variant (λ r. in_group article variant root r && not r.is_current)
          (merge_past variant root) (λ r. ne) rows in
      let second =
        merge_current-le
          (sort_by id_before (keep (λ r. in_group article variant root r && r.is_current) rows))
          (update_where (λ r. in_group article variant root r && not r.is_current)
            (merge_past variant root) rows) in
      omega arith

  merge_article-less :
      (rows : List ArticleEntity)
      → any (λ r. is_of variant r && r.article_id == article) rows ≡ true
      → left variant (merge_article article variant root rows) < left variant rows
  unfolding merge_article
  merge_article-less rows h =
      let past = λ (r : ArticleEntity). in_group article variant root r && not r.is_current in
      let now = λ (r : ArticleEntity). in_group article variant root r && r.is_current in
      let group = sort_by id_before (keep now rows) in
      let rows' = update_where past (merge_past variant root) rows in
      let either =
        any-either _ (λ r. is_of variant r && past r) (λ r. is_of variant r && now r) rows
          (λ r k. ground arith) h in
      elim (Bool-cases (any (λ r. is_of variant r && past r) rows)) [
        | inl t ↦
            let first = left-update_less variant past (merge_past variant root) (λ r. ne) rows t in
            let second = merge_current-le group rows' in omega arith
        | inr n ↦
            let held : any (λ r. is_of variant r && now r) rows ≡ true = ground arith in
            let first = left-update variant past (merge_past variant root) (λ r. ne) rows in
            let stays =
              any-untouched (λ r. is_of variant r && now r) past (merge_past variant root) rows
                (λ r k. ground arith) held in
            let some_group =
              any-sort_by id_before now (keep now rows)
              ∙ any-keep_all now rows (any-map_bool _ now rows (λ r k. ground arith) held) in
            let second = merge_current-less group rows' stays some_group in omega arith
      ]

move_articles-le :
    (variant root : ℕ) (articles : List ℕ) (st : Store)
    → (root == variant) ≡ false
    → left variant (move_articles RunKind.merge variant root articles st).rows
      ≤ left variant st.rows
unfolding move_articles
move_articles-le variant root [] st ne = omega arith
move_articles-le variant root (article ∷ articles) st ne =
    let first = merge_article-le article variant root ne st.rows in
    let rest =
      move_articles-le variant root articles (move_article RunKind.merge variant root article st)
        ne in
    omega arith

-- The rows of the variant get fewer, if there are any.
pub move_articles-less :
    (variant root batch article : ℕ) (articles : List ℕ) (st : Store)
    → (root == variant) ≡ false
    → pending_articles RunKind.merge variant root st.rows ≡ article ∷ articles
    → left variant
        (move_articles RunKind.merge variant root (take (suc batch) (article ∷ articles)) st).rows
      < left variant st.rows
unfolding move_articles pending_articles
move_articles-less variant root batch article articles st ne h =
    let some_row =
      any-articles (is_of variant) (λ a. a == article) st.rows
        (ap (any (λ a. a == article)) h ∙ ground arith) in
    let first = merge_article-less article variant root ne st.rows some_row in
    let rest =
      move_articles-le variant root (take batch articles)
        (move_article RunKind.merge variant root article st) ne in
    omega arith

length-update_where {ℓ} :
    {A : Type ℓ} (p : A → Bool) (f : A → A) (xs : List A) → length (update_where p f xs) ≡ length xs
length-update_where p f [] = refl
length-update_where p f (x ∷ xs) = ap suc (length-update_where p f xs)

merge_current-length :
    (article variant root : ℕ) (group rows : List ArticleEntity)
    → length (merge_current article variant root group rows) ≤ length rows
merge_current-length article variant root [] rows = omega arith
merge_current-length article variant root (row ∷ group) rows =
    let kept = kept_row root row group in
    let stays = λ (r : ArticleEntity).
      not (in_group article variant root r && r.is_current) || r.id == kept.id in
    let same =
      length-update_where (λ (r : ArticleEntity). r.id == kept.id)
        (λ r. apply_to kept root (combine_rows root (map (part_seen variant) (row ∷ group))))
        (keep stays rows) in
    let fewer = length-keep-le stays rows in omega arith

merge_article-length :
    (article variant root : ℕ) (rows : List ArticleEntity)
    → length (merge_article article variant root rows) ≤ length rows
unfolding merge_article
merge_article-length article variant root rows =
    let past = λ (r : ArticleEntity). in_group article variant root r && not r.is_current in
    let same = length-update_where past (merge_past variant root) rows in
    let rest =
      merge_current-length article variant root
        (sort_by id_before (keep (λ r. in_group article variant root r && r.is_current) rows))
        (update_where past (merge_past variant root) rows) in
    omega arith

pub move_articles-length :
    (variant root : ℕ) (articles : List ℕ) (st : Store)
    → length (move_articles RunKind.merge variant root articles st).rows ≤ length st.rows
unfolding move_articles
move_articles-length variant root [] st = omega arith
move_articles-length variant root (article ∷ articles) st =
    let first = merge_article-length article variant root st.rows in
    let rest =
      move_articles-length variant root articles
        (move_article RunKind.merge variant root article st) in
    omega arith
