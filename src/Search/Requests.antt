-- ===== src/Search/Requests.antt =====
-- A request for an article's next revision keeps the deliveries sound
-- (backend/app/search/service.py).
use newsintel.Prelude.Every.{All-map, All-update_where}
use newsintel.Search.Fresh.{is_fresh, IsFresh}
use newsintel.Search.Deliveries.{
  SearchDelivery, Index, request_targets, request_indexing, ArticleSearchState, revision_of,
  SearchIndexTarget, find_state, request_target, raise_revision, requeued, is_live, is_delivery,
  revision_in, new_delivery,
}
use newsintel.Prelude.{
  ℕ, refl, ◌≡◌, ◌∙◌, ◌≤◌, arith, List, Option, update_where, true, ◌∷◌, ◌==◌, Bool-cases, [], keep,
  if◌then◌else◌, inl, any, ◌&&◌, subst, is_some, inr, some, ap, ◌+◌, sym, none, both_branches,
}

raised :
    (n article : ℕ) (states : List ArticleSearchState) (a : ℕ)
    → revision_of
        (update_where
          (λ x. x.article_id == article)
          (λ x. record x { requested_revision = n })
          states)
        a
      ≡ (if a == article && is_some (find_state states article) then n else revision_of states a)
raised n article [] a = ground arith
raised n article (s ∷ states) a = ground (arith, raised n article states a)

raise-other :
    (o : Option ArticleSearchState) (article : ℕ) (states : List ArticleSearchState) (a : ℕ)
    → find_state states article ≡ o
    → revision_of states a ≤ revision_of (raise_revision o article states) a
raise-other none article states a h = elim (Bool-cases (article == a)) [
  | inl t ↦
      let same : find_state states a ≡ none =
        subst (λ b. find_state states b ≡ none) (ground arith) h in
      rw (t, same) (omega arith)
  | inr n ↦ rw n (omega arith)
]
raise-other (some s) article states a h =
    let after = raised (s.requested_revision + 1) article states a in
    elim (Bool-cases (a == article)) [
      | inl t ↦
          let same : find_state states a ≡ some s =
            subst (λ b. find_state states b ≡ some s) (ground arith) h in
          let was : revision_of states a ≡ s.requested_revision = ap revision_in same in
          ground (arith, h, after, was)
      | inr n ↦ ground (arith, after)
    ]

requeued_fresh :
    (revision now : ℕ) (d : SearchDelivery)
    → is_fresh revision d ≡ true
    → is_fresh revision (requeued revision now d) ≡ true
requeued_fresh revision now d h = ground arith

later_fresh :
    (latest latest' : ℕ) (d : SearchDelivery)
    → latest ≤ latest'
    → is_fresh latest d ≡ true
    → is_fresh latest' d ≡ true
later_fresh latest latest' d le h = ground arith

request_target-IsFresh :
    (article revision now target : ℕ) (st : Index)
    → revision_of st.states article ≡ revision
    → IsFresh st
    → IsFresh (request_target article revision now target st)
request_target-IsFresh article revision now target st same h =
    elim (Bool-cases (any (is_delivery article target) st.deliveries)) [
      | inl t ↦ rw t (
          All-update_where (λ d. is_fresh (revision_of st.states d.article_id) d ≡ true)
            (is_delivery article target) (requeued revision now) st.deliveries
            (λ d p k.
              let own : revision_of st.states d.article_id ≡ revision =
                ap (revision_of st.states) (ground arith) ∙ same in
              let k' = subst (λ n. is_fresh n d ≡ true) own k in
              subst (λ n. is_fresh n (requeued revision now d) ≡ true) (sym own)
                (requeued_fresh revision now d k'))
            h)
      | inr n ↦ rw n (ground (arith, same), h)
    ]

request_targets-IsFresh :
    (article revision now : ℕ) (targets : List SearchIndexTarget) (st : Index)
    → revision_of st.states article ≡ revision
    → IsFresh st
    → IsFresh (request_targets article revision now targets st)
unfolding request_targets
request_targets-IsFresh article revision now [] st same h = h
request_targets-IsFresh article revision now (target ∷ targets) st same h =
    let moved = request_target article revision now target.id st in
    let kept =
      both_branches (λ (x : Index). revision_of x.states article)
        (any (is_delivery article target.id) st.deliveries)
        (record st {
          deliveries =
              update_where (is_delivery article target.id) (requeued revision now) st.deliveries;
        })
        (record st {
          deliveries = new_delivery st.next_id article target.id revision now ∷ st.deliveries;
          next_id = st.next_id + 1;
        })
        revision same same in
    request_targets-IsFresh article revision now targets moved kept
      (request_target-IsFresh article revision now target.id st same h)

pub request_indexing-IsFresh :
    (article now : ℕ) (st : Index) → IsFresh st → IsFresh (request_indexing article now st).1
unfolding request_indexing
request_indexing-IsFresh article now st h =
    let states = raise_revision (find_state st.states article) article st.states in
    request_targets-IsFresh article (revision_of states article) now (keep is_live st.targets)
      (record st { states = states }) refl
      (All-map (λ d. is_fresh (revision_of st.states d.article_id) d ≡ true)
        (λ d. is_fresh (revision_of states d.article_id) d ≡ true)
        (λ d k.
          later_fresh _ _ d
            (raise-other (find_state st.states article) article st.states d.article_id refl) k)
        st.deliveries h)
