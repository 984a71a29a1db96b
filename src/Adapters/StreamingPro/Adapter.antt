-- ===== src/Adapters/StreamingPro/Adapter.antt =====
-- adapters/streaming_pro/adapter.py: placing and cancelling over the bridge, and the reads of its
-- orders.
pub mod Placed
use quant_execution_engine.Prelude.{
  ℕ, Bool, true, false, ◌&&◌, not, List, [], ◌∷◌, ◌++◌, map, find, Option, none, some, String,
  same_text, is_empty, ltb, if◌then◌else◌,
}
use quant_execution_engine.Contracts.Enums.{Market, set, tfex}
use quant_execution_engine.Contracts.Errors.{Error, Result, ok, err, ◌>>=◌}
use quant_execution_engine.Contracts.Orders.{NormalizedOrder}
use quant_execution_engine.Adapters.Base.{PlaceAck}
use quant_execution_engine.Adapters.RateLimit.{TokenBucket, Turn, acquire}
use quant_execution_engine.Adapters.Reconcile.Planning.{VenueOrderState, resting}
use quant_execution_engine.Adapters.Views.{VenueOrderView}
use quant_execution_engine.Adapters.StreamingPro.Mapping.{VenueOrderRow, classify_venue_state}
use quant_execution_engine.Adapters.StreamingPro.Payloads.{
  PlacePayload, to_place_payload, CancelPayload, to_cancel_payload, Ids, venue_row_to_normalized,
  venue_row_to_view,
}

-- models.py: one response of the bridge; `detail` is its text.
pub record BridgePlace : Type 0 where
  pub is_ok : Bool
  pub order_no : Option String
  pub status : Option String
  pub reason : Option String
  pub detail : Option String

abbrev or_part : Option String → String → String
or_part none other = other
or_part (some s) other = if is_empty s then other else s

unfoldable pub reject_reason : BridgePlace → String
reject_reason p =
    or_part p.reason (or_part p.detail (or_part p.status "streaming_pro rejected the request"))

-- `OrderRef`: the venue's number, the market, the account and the symbol.
pub record OrderRef : Type 0 where
  pub order_no : String
  pub market : Market
  pub account : String
  pub symbol : String

pub record StreamingProAdapter : Type 0 where
  pub limiter : TokenBucket
  pub refs : String → Option OrderRef

abbrev put {ℓ} : {A : Type ℓ} → String → A → (String → A) → String → A
put key value table k = if same_text key k then value else table k

abbrev pub rejected_ack : String → PlaceAck
rejected_ack reason = record {
  rejected = true;
  reject_reason = some reason;
  broker_order_id = none;
  fills = [];
  remainder_cancelled = false;
}

answered :
    NormalizedOrder
    → BridgePlace
    → Bool
    → Option String
    → StreamingProAdapter
    → PlaceAck × StreamingProAdapter
answered o p true (some number) a = (
  record {
    rejected = false;
    reject_reason = none;
    broker_order_id = some number;
    fills = [];
    remainder_cancelled = false;
  },
  record a {
    refs =
        put o.client_order_id
          (some (record {
            order_no = number;
            market = o.market;
            account = o.account;
            symbol = o.symbol;
          }))
          a.refs;
  },
)
answered o p _ _ a = (rejected_ack (reject_reason p), a)

placed :
    NormalizedOrder
    → StreamingProAdapter
    → Result BridgePlace
    → Result PlaceAck × StreamingProAdapter
unfolding answered
placed o a (err e) = (err e, a)
placed o a (ok p) = let (ack, a') = answered o p p.is_ok p.order_no a in (ok ack, a')

sent :
    (Error → String)
    → NormalizedOrder
    → Turn
    → (PlacePayload → Result BridgePlace)
    → StreamingProAdapter
    → Result PlacePayload
    → Result PlaceAck × StreamingProAdapter
unfolding placed
sent text_of o turn post a (err e) = (ok (rejected_ack (text_of e)), a)
sent text_of o turn post a (ok payload) =
    placed o (record a { limiter = (acquire a.limiter turn).0 }) (post payload)

-- `place`, where `post` is the transport, and `text_of` the text of an exception.
unfoldable pub place :
    (Error → String)
    → NormalizedOrder
    → Turn
    → (PlacePayload → Result BridgePlace)
    → StreamingProAdapter
    → Result PlaceAck × StreamingProAdapter
unfolding sent
place text_of o turn post a = sent text_of o turn post a (to_place_payload o)

-- Why a cancel was not done.
pub data Refusal : Type 0 where
  no_mapping no_outside_number : Refusal
  transport_failed : Error → Refusal
  venue_refused : String → Refusal

pub data CancelAck : Type 0 where
  cancelled : CancelAck
  refused : Refusal → CancelAck

-- `row.ext_order_no or row.order_no_fis or None`
abbrev first_number : String → String → Option String
first_number s t = if not (is_empty s) then some s else if not (is_empty t) then some t else none

abbrev number_in : Option VenueOrderRow → Option String
number_in none = none
number_in (some row) = first_number row.ext_order_no row.order_no_fis

-- `_lookup_ext_order_no`, of what the venue lists; a read that fails finds none.
unfoldable pub lookup_ext_order_no : Result (List VenueOrderRow) → String → Option String
lookup_ext_order_no (err e) order_no = none
lookup_ext_order_no (ok rows) order_no = number_in (find (λ r. same_text r.order_no order_no) rows)

unfoldable pub cancel_answer : Result BridgePlace → CancelAck
cancel_answer (err e) = refused (transport_failed e)
cancel_answer (ok p) = if p.is_ok then cancelled else refused (venue_refused (reject_reason p))

with_number : (CancelPayload → Result BridgePlace) → OrderRef → Option String → CancelAck
unfolding cancel_answer
with_number post ref none = refused no_outside_number
with_number post ref (some ext) =
    cancel_answer
      (post (to_cancel_payload ref.order_no ref.market ref.account (some ref.symbol) (some ext)))

by_front :
    (CancelPayload → Result BridgePlace)
    → (String → Market → Result (List VenueOrderRow))
    → OrderRef
    → Market
    → CancelAck
unfolding with_number
by_front post fetch ref set =
    with_number post ref (lookup_ext_order_no (fetch ref.account set) ref.order_no)
by_front post fetch ref tfex =
    cancel_answer (post (to_cancel_payload ref.order_no tfex ref.account (some ref.symbol) none))

abbrev or_resolved : Option OrderRef → Option OrderRef → Option OrderRef
or_resolved none other = other
or_resolved (some found) other = some found

cancel_at :
    (CancelPayload → Result BridgePlace)
    → (String → Market → Result (List VenueOrderRow))
    → Option OrderRef
    → CancelAck
unfolding by_front
cancel_at post fetch none = refused no_mapping
cancel_at post fetch (some ref) = by_front post fetch ref ref.market

-- `cancel`, where `resolve` is what the injected resolver finds, and `fetch` reads the venue's rows.
unfoldable pub cancel :
    String
    → Option OrderRef
    → (CancelPayload → Result BridgePlace)
    → (String → Market → Result (List VenueOrderRow))
    → StreamingProAdapter
    → CancelAck
unfolding cancel_at
cancel cid resolve post fetch a = cancel_at post fetch (or_resolved (a.refs cid) resolve)

is_open : VenueOrderState → ℕ → Bool
is_open resting balance = ltb 0 balance
is_open _ balance = false

abbrev and_readable : Option NormalizedOrder → List NormalizedOrder → List NormalizedOrder
and_readable none rest = rest
and_readable (some o) rest = o ∷ rest

open_rows : Ids → String → Market → List VenueOrderRow → List NormalizedOrder
unfolding is_open
open_rows ids account front [] = []
open_rows ids account front (row ∷ rest) =
    let others = open_rows ids account front rest in
    if is_open (classify_venue_state row) row.balance
    then and_readable (venue_row_to_normalized ids account front row) others
    else others

-- `get_open_orders` and `get_venue_orders`: the SET front, and then the TFEX front.
unfoldable pub open_orders :
    Ids → String → (String → Market → Result (List VenueOrderRow)) → Result (List NormalizedOrder)
unfolding open_rows
open_orders ids account fetch = do
  on_set ← fetch account set
  on_tfex ← fetch account tfex
  ok (open_rows ids account set on_set ++ open_rows ids account tfex on_tfex)

unfoldable pub venue_orders :
    String → (String → Market → Result (List VenueOrderRow)) → Result (List VenueOrderView)
venue_orders account fetch = do
  on_set ← fetch account set
  on_tfex ← fetch account tfex
  ok (
      map (λ row. venue_row_to_view row set) on_set
      ++ map (λ row. venue_row_to_view row tfex) on_tfex)
