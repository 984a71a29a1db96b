-- ===== src/Adapters/Liberator/Adapter.antt =====
-- adapters/liberator/adapter.py: placing and cancelling at the venue, and the reads of its orders.
pub mod Accepted
use quant_execution_engine.Prelude.{
  ℕ, Bool, true, false, ◌&&◌, List, [], ◌∷◌, Option, none, some, String, same_text, ltb, map, ℤ,
  if◌then◌else◌,
}
use quant_execution_engine.Contracts.Enums.{Market}
use quant_execution_engine.Contracts.Errors.{Error, Result, ok, err}
use quant_execution_engine.Contracts.Orders.{NormalizedOrder}
use quant_execution_engine.Adapters.Base.{PlaceAck}
use quant_execution_engine.Adapters.RateLimit.{TokenBucket, Turn, acquire}
use quant_execution_engine.Adapters.Reconcile.Planning.{VenueOrderState, resting}
use quant_execution_engine.Adapters.Liberator.Mapping.{VenueOrderItem, classify_venue_state}
use quant_execution_engine.Adapters.Liberator.Payloads.{
  PlacePayload, to_place_payload, Ids, venue_item_to_normalized,
}
use quant_execution_engine.Adapters.Liberator.Models.{
  LiberatorEnvelope, is_ok, reject_reason, order_no,
}

-- The dictionary and the set as functions of the client order id.
pub record LiberatorAdapter : Type 0 where
  pub limiter : TokenBucket
  pub order_nos : String → Option (String × Market)
  pub awaiting : String → Bool

-- `str` of an int and of an exception.
pub record Texts : Type 0 where
  pub of_int : ℤ → String
  pub of_error : Error → String

-- `table[key] = value`
abbrev put {ℓ} : {A : Type ℓ} → String → A → (String → A) → String → A
put key value table k = if same_text key k then value else table k

abbrev rejected_ack : String → PlaceAck
rejected_ack reason = record {
  rejected = true;
  reject_reason = some reason;
  broker_order_id = none;
  fills = [];
  remainder_cancelled = false;
}

abbrev pub accepted_ack : Option String → PlaceAck
accepted_ack number = record {
  rejected = false;
  reject_reason = none;
  broker_order_id = number;
  fills = [];
  remainder_cancelled = false;
}

-- What an accepted order leaves: its number, or that it waits for one.
numbered : NormalizedOrder → Option String → LiberatorAdapter → LiberatorAdapter
numbered o none a = record a { awaiting = put o.client_order_id true a.awaiting }
numbered o (some number) a = record a {
  order_nos = put o.client_order_id (some (number, o.market)) a.order_nos;
  awaiting = put o.client_order_id false a.awaiting;
}

placed :
    Texts
    → NormalizedOrder
    → LiberatorAdapter
    → Result LiberatorEnvelope
    → Result PlaceAck × LiberatorAdapter
unfolding numbered
placed texts o a (err e) = (err e, a)
placed texts o a (ok envelope) =
    if is_ok envelope
    then (ok (accepted_ack (order_no envelope)), numbered o (order_no envelope) a)
    else (ok (rejected_ack (reject_reason texts.of_int envelope)), a)

sent :
    Texts
    → NormalizedOrder
    → Turn
    → (PlacePayload → Result LiberatorEnvelope)
    → LiberatorAdapter
    → Result PlacePayload
    → Result PlaceAck × LiberatorAdapter
unfolding placed
sent texts o turn post a (err e) = (ok (rejected_ack (texts.of_error e)), a)
sent texts o turn post a (ok payload) =
    placed texts o (record a { limiter = (acquire a.limiter turn).0 }) (post payload)

-- `place`, where `post` is the transport; it raises on a transport error.
unfoldable pub place :
    Texts
    → NormalizedOrder
    → Turn
    → (PlacePayload → Result LiberatorEnvelope)
    → LiberatorAdapter
    → Result PlaceAck × LiberatorAdapter
unfolding sent
place texts o turn post a = sent texts o turn post a (to_place_payload o)

-- Why a cancel was not done.
pub data Refusal : Type 0 where
  awaiting_number no_mapping : Refusal
  transport_failed : Error → Refusal
  venue_refused : String → Refusal

-- `CancelAck`
pub data CancelAck : Type 0 where
  cancelled : CancelAck
  refused : Refusal → CancelAck

unfoldable pub cancel_answer : Texts → Result LiberatorEnvelope → CancelAck
cancel_answer texts (err e) = refused (transport_failed e)
cancel_answer texts (ok envelope) =
    if is_ok envelope
    then cancelled
    else refused (venue_refused (reject_reason texts.of_int envelope))

abbrev or_resolved : Option (String × Market) → Option (String × Market) → Option (String × Market)
or_resolved none other = other
or_resolved (some found) other = some found

cancel_at :
    Texts
    → (String → Market → Result LiberatorEnvelope)
    → Bool
    → Option (String × Market)
    → CancelAck
cancel_at texts post waits none = if waits then refused awaiting_number else refused no_mapping
cancel_at texts post waits (some (number, market)) = cancel_answer texts (post number market)

-- `cancel`, where `resolve` is what the injected resolver finds, and `post` sends a number to the
-- cancel path of a market.
unfoldable pub cancel :
    Texts
    → String
    → Option (String × Market)
    → (String → Market → Result LiberatorEnvelope)
    → LiberatorAdapter
    → CancelAck
unfolding cancel_at
cancel texts cid resolve post a =
    cancel_at texts post (a.awaiting cid) (or_resolved (a.order_nos cid) resolve)

is_open : VenueOrderState → ℕ → Bool
is_open resting balance = ltb 0 balance
is_open _ balance = false

-- The orders that can be read, in the venue's order.
abbrev and_readable : Option NormalizedOrder → List NormalizedOrder → List NormalizedOrder
and_readable none rest = rest
and_readable (some o) rest = o ∷ rest

-- `get_open_orders`, of what the venue lists
unfoldable pub open_orders : Ids → String → List VenueOrderItem → List NormalizedOrder
unfolding is_open
open_orders ids account [] = []
open_orders ids account (item ∷ rest) =
    let others = open_orders ids account rest in
    if is_open (classify_venue_state item) item.balance
    then and_readable (venue_item_to_normalized ids item account) others
    else others
