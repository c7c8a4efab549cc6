-- ===== src/Entities/Finishing/Reindexed.antt =====
-- The second phase of a run: every batch leaves fewer rows after the cursor
-- (backend/app/entities/authority.py).
use newsintel.Entities.Finishing.Chosen.{any-articles, any-take, any-last_of, length-keep-less}
use newsintel.Prelude.Sets.{dedupe, nat_eq}
use newsintel.Prelude.Sort.{sort_by}
use newsintel.Entities.Runs.{is_after, last_of}
use newsintel.Entities.Store.{ArticleEntity}
use newsintel.Prelude.{
  ℕ, refl, ◌≡◌, ◌∙◌, ◌<◌, arith, Option, Bool, List, ◌==◌, length, true, ◌&&◌, any, take, keep,
  some, not, ◌∷◌, none, [], leb, map, Bool-cases, inl, ap, inr,
}

abbrev pub is_next : ℕ → Option ℕ → ArticleEntity → Bool
is_next root after row = row.entity_id == root && (row.is_current && is_after after row.article_id)

-- The root's current rows after the cursor.
abbrev pub ahead : ℕ → Option ℕ → List ArticleEntity → ℕ
ahead root after rows = length (keep (is_next root after) rows)

is_after_trans :
    (after : Option ℕ) (z article : ℕ)
    → is_after after z ≡ true
    → is_after (some z) article ≡ true
    → is_after after article ≡ true
is_after_trans none z article h k = refl
is_after_trans (some last) z article h k = ground arith

is_next-last :
    (root : ℕ) (after : Option ℕ) (z : ℕ) (r : ArticleEntity)
    → (is_next root after r && r.article_id == z) ≡ true
    → (is_next root after r && not (is_next root (some z) r)) ≡ true
is_next-last root after z r h = ground arith

is_after-at :
    (after : Option ℕ) (article z : ℕ)
    → (article == z) ≡ true
    → is_after after article ≡ true
    → is_after after z ≡ true
is_after-at none article z e h = refl
is_after-at (some last) article z e h = ground arith

any-is_after :
    (root : ℕ) (after : Option ℕ) (z : ℕ) (rows : List ArticleEntity)
    → any (λ r. is_next root after r && r.article_id == z) rows ≡ true
    → is_after after z ≡ true
any-is_after root after z [] h = cc
any-is_after root after z (r ∷ rows) h =
    elim (Bool-cases (is_next root after r && r.article_id == z)) [
      | inl t ↦ is_after-at after r.article_id z (ground arith) (ground arith)
      | inr n ↦ any-is_after root after z rows (ground arith)
    ]

next_back :
    (root : ℕ) (after : Option ℕ) (z : ℕ) (r : ArticleEntity)
    → is_after after z ≡ true
    → is_next root (some z) r ≡ true
    → is_next root after r ≡ true
next_back root after z r later h =
    let back = is_after_trans after z r.article_id later in ground (arith, back)

any-imp {ℓ} :
    {A : Type ℓ} (p q : A → Bool) (xs : List A)
    → ((x : A) → p x ≡ true → q x ≡ true)
    → any p xs ≡ true
    → any q xs ≡ true
any-imp p q [] imp h = cc
any-imp p q (x ∷ xs) imp h = ground (arith, imp x, any-imp p q xs imp)

-- The cursor moves past at least one of them.
pub ahead-less :
    (root : ℕ) (after : Option ℕ) (batch article : ℕ) (articles : List ℕ)
    (rows : List ArticleEntity)
    → take batch (
        sort_by leb
          (dedupe (map (λ (r : ArticleEntity). r.article_id) (keep (is_next root after) rows))))
      ≡ article ∷ articles
    → ahead root (some (last_of article articles)) rows < ahead root after rows
ahead-less root after batch article articles rows h =
    let z = last_of article articles in
    let found =
      any-articles (is_next root after) (λ a. a == z) rows
        (any-take (λ a. a == z) batch _
          (ap (any (λ a. a == z)) h ∙ any-last_of article articles)) in
    let later = any-is_after root after z rows found in
    length-keep-less (is_next root (some z)) (is_next root after) rows
      (λ r k. next_back root after z r later k) (any-imp _ _ rows (is_next-last root after z) found)
