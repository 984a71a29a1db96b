-- ===== src/Adapters/Reconcile/Matching.antt =====
-- `fuzzy_match` of adapters/liberator/reconciler.py and its twin in adapters/streaming_pro: the
-- match of a row that has lost its ack with the orders that the venue lists.
pub mod Unique
use quant_execution_engine.Prelude.{
  ℕ, ◌+◌, Bool, true, false, ◌&&◌, ◌||◌, not, List, [], ◌∷◌, Option, none, some, String, same_text,
  any, length, ltb, leb, ◌==◌, keep, is_empty, if◌then◌else◌,
}
use quant_execution_engine.Prelude.Decimal.{Decimal, is_positive, same_value}
use quant_execution_engine.Contracts.Enums.{Side, same_side, pending_new, same_state}
use quant_execution_engine.Db.Models.{OrderRow}

-- What the match reads of an order at a venue, its side decoded.
pub record Shown : Type 0 where
  pub order_no : String
  pub symbol : String
  pub side : Option Side
  pub volume : ℕ
  pub price : Option Decimal
  pub entry_time : Option ℕ

pub record MatchOutcome (A : Type 0) : Type 0 where
  pub item : Option A
  pub candidate_count : ℕ

ambiguous_of : {A : Type 0} → Option A → ℕ → Bool
ambiguous_of none count = ltb 1 count
ambiguous_of (some _) count = false

unfoldable pub ambiguous : {A : Type 0} → MatchOutcome A → Bool
unfolding ambiguous_of
ambiguous m = ambiguous_of m.item m.candidate_count

-- `_has_price`, of both sides, and the prices differ.
abbrev other_price : Option Decimal → Option Decimal → Bool
other_price (some p) (some q) = is_positive p && is_positive q && not (same_value p q)
other_price _ _ = false

abbrev is_side : Option Side → Side → Bool
is_side none side = false
is_side (some s) side = same_side s side

-- `abs(entry_time - created_at) <= 5 s`
abbrev in_window : Option ℕ → ℕ → Bool
in_window none created = false
in_window (some entry) created = leb entry (created + 5000) && leb created (entry + 5000)

outcome_of : {A : Type 0} → List A → MatchOutcome A
outcome_of [] = record { item = none; candidate_count = 0 }
outcome_of (item ∷ []) = record { item = some item; candidate_count = 1 }
outcome_of (x ∷ y ∷ rest) = record { item = none; candidate_count = length (x ∷ y ∷ rest) }

-- The venue order of a row, whether the match was ambiguous, and the numbers claimed after it.
pub record Found (A : Type 0) : Type 0 where
  pub item : Option A
  pub is_ambiguous : Bool
  pub claimed : List String

module _ {A : Type 0} (shown : A → Shown) where
  unfoldable pub is_candidate : OrderRow → List String → A → Bool
  is_candidate row claimed item =
      not (any (same_text (shown item).order_no) claimed)
      && same_text (shown item).symbol row.symbol
      && (shown item).volume == row.quantity
      && is_side (shown item).side row.side
      && not (other_price (shown item).price row.price)
      && in_window (shown item).entry_time row.created_at

  unfoldable pub fuzzy_match : OrderRow → List A → List String → MatchOutcome A
  unfolding outcome_of
  fuzzy_match row items claimed = outcome_of (keep (is_candidate row claimed) items)

  -- `index.get(handle)`: the last item under its number.
  latest : Option A → A → Option A
  latest none item = some item
  latest (some later) item = some later

  by_number : String → List A → Option A
  unfolding latest
  by_number handle [] = none
  by_number handle (item ∷ rest) =
      let later = by_number handle rest in
      if same_text (shown item).order_no handle then latest later item else later

  unfoldable pub listed : Option String → List A → Option A
  unfolding by_number
  listed none items = none
  listed (some handle) items = if is_empty handle then none else by_number handle items

  claim : Option A → List String → List String
  claim none claimed = claimed
  claim (some item) claimed = (shown item).order_no ∷ claimed

  matched_by : MatchOutcome A → List String → Found A
  unfolding claim
  matched_by m claimed = record {
    item = m.item;
    is_ambiguous = ambiguous m;
    claimed = claim m.item claimed;
  }

  find_listed : OrderRow → List A → List String → ℕ → Bool → Option A → Found A
  unfolding matched_by
  find_listed row items claimed now require_stuck (some item) = record {
    item = some item;
    is_ambiguous = false;
    claimed = claimed;
  }
  find_listed row items claimed now require_stuck none =
      if same_state row.status pending_new && (ltb (row.created_at + 5000) now || not require_stuck)
      then matched_by (fuzzy_match row items claimed) claimed
      else record { item = none; is_ambiguous = false; claimed = claimed }

  unfoldable pub find_item : OrderRow → List A → List String → ℕ → Bool → Found A
  unfolding find_listed
  find_item row items claimed now require_stuck =
      find_listed row items claimed now require_stuck (listed row.broker_order_id items)
