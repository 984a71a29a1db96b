-- ===== src/Adapters/Liberator/Planning/Matches.antt =====
-- The lost-ack match of adapters/liberator/reconciler.py, and what is planned after it.
use quant_execution_engine.Prelude.{◌≡◌, List, [], ◌∷◌, some, String, keep}
use quant_execution_engine.Db.Models.{OrderRow}
use quant_execution_engine.Adapters.Reconcile.Matching.{is_candidate}
use quant_execution_engine.Adapters.Reconcile.Matching.Unique.{matched_alone}
use quant_execution_engine.Adapters.Liberator.Mapping.{VenueOrderItem}
use quant_execution_engine.Adapters.Liberator.Planning.{shown, fuzzy_match}

-- The lost-ack match takes a venue order only where it is the one candidate among those listed.
pub match_is_unique :
    (row : OrderRow) (items : List VenueOrderItem) (claimed : List String) (item : VenueOrderItem)
    → (fuzzy_match row items claimed).item ≡ some item
    → keep (is_candidate shown row claimed) items ≡ item ∷ []
unfolding fuzzy_match
match_is_unique row items claimed item h = matched_alone shown row items claimed item h
