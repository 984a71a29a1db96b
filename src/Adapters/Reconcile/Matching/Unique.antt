-- ===== src/Adapters/Reconcile/Matching/Unique.antt =====
-- The outcome of the lost-ack match against the candidates that the venue lists.
use quant_execution_engine.Prelude.{
  ◌≡◌, ◌↔◌, refl, false, List, [], ◌∷◌, none, some, String, arith, keep,
}
use quant_execution_engine.Db.Models.{OrderRow}
use quant_execution_engine.Adapters.Reconcile.Matching.{
  Shown, outcome_of, ambiguous, ambiguous_of, is_candidate, fuzzy_match,
}

-- Any count of two or more is ambiguous.
outcome_cases :
    {A : Type 0} (items : List A)
    → (outcome_of items).item ≡ none
    → (ambiguous (outcome_of items) ≡ false) ↔ (items ≡ [])
unfolding outcome_of ambiguous ambiguous_of
outcome_cases [] h = (λ q. refl, λ q. refl)
outcome_cases (x ∷ []) h = cc
outcome_cases (x ∷ y ∷ rest) h = (λ q. ground (arith, q), λ q. cc)

unique_of :
    {A : Type 0} (items : List A) (item : A)
    → (outcome_of items).item ≡ some item
    → items ≡ item ∷ []
unfolding outcome_of
unique_of [] item h = cc
unique_of (x ∷ []) item h = ground (arith, h)
unique_of (x ∷ y ∷ rest) item h = cc

module _ {A : Type 0} (shown : A → Shown) (row : OrderRow) (items : List A)
    (claimed : List String) where
  -- A match that leaves the row without a venue order is unambiguous exactly if there is no
  -- candidate.
  pub unmatched_cases :
      (fuzzy_match shown row items claimed).item ≡ none
      → (ambiguous (fuzzy_match shown row items claimed) ≡ false)
        ↔ (keep (is_candidate shown row claimed) items ≡ [])
  unfolding fuzzy_match
  unmatched_cases h = outcome_cases (keep (is_candidate shown row claimed) items) h

  -- The match takes a venue order only where it is the one candidate.
  pub matched_alone :
      (item : A)
      → (fuzzy_match shown row items claimed).item ≡ some item
      → keep (is_candidate shown row claimed) items ≡ item ∷ []
  unfolding fuzzy_match
  matched_alone item h = unique_of (keep (is_candidate shown row claimed) items) item h
