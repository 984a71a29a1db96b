-- ===== src/Adapters/Sim.antt =====
-- adapters/sim.py: the deterministic venue.
pub mod Plan
use Prim.Native.String.{◌++◌ as append_text, slice}
use quant_execution_engine.Prelude.{
  ℕ, zero, suc, ◌+◌, Bool, true, false, ◌&&◌, not, List, [], ◌∷◌, Option, none, some, String, ltb,
  ◌==◌, all, if◌then◌else◌,
}
use quant_execution_engine.Prelude.Decimal.{Decimal}
use quant_execution_engine.Contracts.Enums.{
  OrderType, limit, stop_limit, stop, Tif, fok, ioc, same_tif,
}
use quant_execution_engine.Contracts.Orders.{NormalizedOrder, SimFills, absent, invalid, plan}
use quant_execution_engine.Contracts.Errors.{Result, ok, err, assertion_failed, ◌>>=◌}
use quant_execution_engine.Events.Models.{sim_fill}
use quant_execution_engine.Adapters.Base.{FillReport, PlaceAck}

abbrev pub sum : List ℕ → ℕ
sum [] = 0
sum (q ∷ rest) = q + sum rest

-- `_fill_plan`: the quantities, or the reason of a rejection.
pub data FillPlan : Type 0 where
  quantities : List ℕ → FillPlan
  refused : String → FillPlan

abbrev is_one : ℕ → List ℕ → Bool
is_one n (q ∷ []) = q == n
is_one n _ = false

fok_check : NormalizedOrder → List ℕ → FillPlan
fok_check o fills =
    if same_tif o.tif fok && not (is_one o.quantity fills)
    then refused "FOK requires a single full fill"
    else quantities fills

plan_of : NormalizedOrder → SimFills → FillPlan
unfolding fok_check
plan_of o absent = fok_check o (o.quantity ∷ [])
plan_of o invalid = refused "invalid sim_fills: must be a list of positive integers"
plan_of o (plan fills) =
    if not (all (ltb 0) fills)
    then refused "invalid sim_fills: must be a list of positive integers"
    else if ltb o.quantity (sum fills)
    then refused "invalid sim_fills: sum exceeds order quantity"
    else fok_check o fills

plan_unless : NormalizedOrder → Option String → FillPlan
unfolding plan_of
plan_unless o (some reason) = refused reason
plan_unless o none = plan_of o o.sim_fills

unfoldable pub fill_plan : NormalizedOrder → FillPlan
unfolding plan_unless
fill_plan o = plan_unless o o.sim_reject

abbrev or_price : Option Decimal → Decimal → Decimal
or_price none d = d
or_price (some p) d = p

abbrev or_assertion : Option Decimal → Result Decimal
or_assertion none = err assertion_failed
or_assertion (some p) = ok p

reference_for : OrderType → NormalizedOrder → Decimal → Result Decimal
reference_for limit o default = or_assertion o.price
reference_for stop_limit o default = or_assertion o.price
reference_for stop o default = or_assertion o.stop_price
reference_for _ o default = ok (or_price o.price (or_price o.stop_price default))

-- `_reference_price`
unfoldable pub reference_price : NormalizedOrder → Decimal → Result Decimal
unfolding reference_for
reference_price o default = reference_for o.order_type o default

-- The first eight characters of an id; an id that was validated is ASCII.
abbrev prefix_of : String → String
prefix_of cid = slice cid 0 8

-- `enumerate(plan, start=i)`
reports : String → Decimal → ℕ → ℕ → List ℕ → List FillReport
reports prefix price now i [] = []
reports prefix price now i (q ∷ rest) =
    record { broker_fill_id = sim_fill prefix i; price = price; quantity = q; exec_ts = now }
    ∷ reports prefix price now (suc i) rest

rejection : String → PlaceAck
rejection reason = record {
  rejected = true;
  reject_reason = some reason;
  broker_order_id = none;
  fills = [];
  remainder_cancelled = false;
}

acceptance : NormalizedOrder → List ℕ → ℕ → Decimal → PlaceAck
unfolding reports
acceptance o fills now price = record {
  rejected = false;
  reject_reason = none;
  broker_order_id = some (append_text "SIM-" (prefix_of o.client_order_id));
  fills = reports (prefix_of o.client_order_id) price now 1 fills;
  remainder_cancelled = same_tif o.tif ioc && ltb (sum fills) o.quantity;
}

or_reference : Option Decimal → Result Decimal → Result Decimal
or_reference none reference = reference
or_reference (some price) reference = ok price

place_plan : Decimal → Option Decimal → ℕ → NormalizedOrder → FillPlan → Result PlaceAck
unfolding rejection acceptance reference_price or_reference
place_plan default quoted now o (refused reason) = ok (rejection reason)
place_plan default quoted now o (quantities fills) = do
  price ← or_reference quoted (reference_price o default)
  ok (acceptance o fills now price)

-- `place`, with the answer of the injected price source, `none` where there is none.
unfoldable pub place : Decimal → Option Decimal → ℕ → NormalizedOrder → Result PlaceAck
unfolding fill_plan place_plan
place default quoted now o = place_plan default quoted now o (fill_plan o)
