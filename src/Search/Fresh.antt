-- ===== src/Search/Fresh.antt =====
-- What holds of the deliveries after any requests, claims and outcomes
-- (backend/app/search/service.py and indexing.py).
use newsintel.Prelude.Every.{All-update_where}
use newsintel.Jobs.Leasing.{record_failure, claim, release, Failure, claimable, is_succeeded}
use newsintel.Search.Deliveries.{
  SearchDelivery, Index, Outcome, settle, at_delivery, claimed_delivery, acknowledged, revision_of,
  freed, failed_delivery,
}
use newsintel.Prelude.{
  ℕ, refl, ◌≡◌, arith, Bool, All, ◌==◌, true, leb, Bool-cases, ◌&&◌, subst, eq_opt, not, sym, inl,
  some, inr, ◌||◌,
}

-- No revision is indexed that was not asked for, none is asked for beyond the article's latest one,
-- and a delivery that has succeeded has indexed the one it was asked for.
abbrev pub is_fresh : ℕ → SearchDelivery → Bool
is_fresh latest d =
    leb d.indexed_revision d.requested_revision
    && (leb d.requested_revision latest
        && (not (is_succeeded d.row.status) || d.indexed_revision == d.requested_revision))

abbrev pub IsFresh : Index → Type 0
IsFresh st = All (λ d. is_fresh (revision_of st.states d.article_id) d ≡ true) st.deliveries

settle_fresh :
    (max_attempts revision now latest : ℕ) (outcome : Outcome) (d : SearchDelivery)
    → (d.requested_revision == revision) ≡ true
    → is_fresh latest d ≡ true
    → is_fresh latest (settle max_attempts revision outcome now d) ≡ true
unfolding record_failure
settle_fresh max_attempts revision now latest Outcome.success d e h = ground arith
settle_fresh max_attempts revision now latest Outcome.duplicate d e h = ground arith
settle_fresh max_attempts revision now latest (Outcome.transient error) d e h = ground arith
settle_fresh max_attempts revision now latest (Outcome.permanent error) d e h = ground arith

settle-article :
    (max_attempts revision now : ℕ) (outcome : Outcome) (d : SearchDelivery)
    → (settle max_attempts revision outcome now d).article_id ≡ d.article_id
settle-article max_attempts revision now Outcome.success d = refl
settle-article max_attempts revision now Outcome.duplicate d = refl
settle-article max_attempts revision now (Outcome.transient error) d = refl
settle-article max_attempts revision now (Outcome.permanent error) d = refl

-- What one delivery's change has to keep.
abbrev pub Keeps : (SearchDelivery → SearchDelivery) → Type 0
Keeps f =
    (latest : ℕ) (d : SearchDelivery)
    → is_fresh latest d ≡ true
    → (is_fresh latest (f d) ≡ true) × ((f d).article_id ≡ d.article_id)

pub at_delivery-IsFresh :
    (id : ℕ) (f : SearchDelivery → SearchDelivery) (st : Index)
    → Keeps f
    → IsFresh st
    → IsFresh (at_delivery id f st)
at_delivery-IsFresh id f st keeps h =
    All-update_where (λ d. is_fresh (revision_of st.states d.article_id) d ≡ true) (λ d. d.id == id)
      f st.deliveries
      (λ d t k.
        let (fresh, same) = keeps (revision_of st.states d.article_id) d k in
        subst (λ a. is_fresh (revision_of st.states a) (f d) ≡ true) (sym same) fresh)
      h

pub claimed_delivery-Keeps : (token now lease : ℕ) → Keeps (claimed_delivery token now lease)
unfolding claim
claimed_delivery-Keeps token now lease latest d h = elim (Bool-cases (claimable d.row now)) [
  | inl t ↦ rw t (ground arith, refl)
  | inr n ↦ rw n (h, refl)
]

freed_fresh :
    (latest : ℕ) (d : SearchDelivery) → is_fresh latest d ≡ true → is_fresh latest (freed d) ≡ true
unfolding release
freed_fresh latest d h = h

pub acknowledged-Keeps :
    (max_attempts token revision : ℕ) (outcome : Outcome) (now : ℕ)
    → Keeps (acknowledged max_attempts token revision outcome now)
acknowledged-Keeps max_attempts token revision outcome now latest d h =
    elim (Bool-cases (eq_opt d.row.claim_token (some token))) [
      | inr n ↦ rw n (h, refl)
      | inl t ↦ elim (Bool-cases (d.requested_revision == revision)) [
        | inr n ↦ rw (t, n) (freed_fresh latest d h, refl)
        | inl e ↦
            rw (t, e)
              (
                settle_fresh max_attempts revision now latest outcome (freed d) e
                    (freed_fresh latest d h),
                settle-article max_attempts revision now outcome (freed d),
              )
      ]
    ]

pub failed_delivery-Keeps :
    (max_attempts token : ℕ) (failure : Failure) (now : ℕ)
    → Keeps (failed_delivery max_attempts token failure now)
unfolding record_failure
failed_delivery-Keeps max_attempts token failure now latest d h =
    elim (Bool-cases (eq_opt d.row.claim_token (some token))) [
      | inl t ↦ rw t (ground arith, refl)
      | inr n ↦ rw n (h, refl)
    ]
