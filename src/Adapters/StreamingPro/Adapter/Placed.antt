-- ===== src/Adapters/StreamingPro/Adapter/Placed.antt =====
-- What becomes of an order that the bridge has answered, in adapters/streaming_pro/adapter.py.
use quant_execution_engine.Prelude.{
  ◌≡◌, refl, ap, Bool, true, false, List, [], Option, none, some, String, same_text_refl,
  if◌then◌else◌,
}
use quant_execution_engine.Contracts.Enums.{Market, set, tfex}
use quant_execution_engine.Contracts.Errors.{Error, Result, ok}
use quant_execution_engine.Contracts.Orders.{NormalizedOrder}
use quant_execution_engine.Adapters.Base.{PlaceAck}
use quant_execution_engine.Adapters.RateLimit.{Turn, acquire}
use quant_execution_engine.Adapters.StreamingPro.Mapping.{VenueOrderRow}
use quant_execution_engine.Adapters.StreamingPro.Payloads.{
  PlacePayload, to_place_payload, CancelPayload, to_cancel_payload,
}
use quant_execution_engine.Adapters.StreamingPro.Adapter.{
  BridgePlace, reject_reason, StreamingProAdapter, OrderRef, rejected_ack, answered, placed, sent,
  place, CancelAck, refused, no_mapping, no_outside_number, lookup_ext_order_no, cancel_answer,
  with_number, by_front, cancel_at, or_resolved, cancel,
}

-- The number of a response that stands for a placed order.
abbrev pub held : BridgePlace → Option String
held p = if p.is_ok then p.order_no else none

abbrev pub acked : BridgePlace → Option String → PlaceAck
acked p none = rejected_ack (reject_reason p)
acked p (some number) = record {
  rejected = false;
  reject_reason = none;
  broker_order_id = some number;
  fills = [];
  remainder_cancelled = false;
}

-- The cancel of an order of the SET front, by the outside number that the front lists for it, and of
-- one of the TFEX front.
abbrev pub cancelled_on :
    Market
    → NormalizedOrder
    → String
    → (CancelPayload → Result BridgePlace)
    → (String → Market → Result (List VenueOrderRow))
    → CancelAck
cancelled_on set o number post fetch = elim (lookup_ext_order_no (fetch o.account set) number) [
  | none ↦ refused no_outside_number
  | some outside ↦
      cancel_answer (post (to_cancel_payload number set o.account (some o.symbol) (some outside)))
]
cancelled_on tfex o number post fetch =
    cancel_answer (post (to_cancel_payload number tfex o.account (some o.symbol) none))

module _ (o : NormalizedOrder) (post : CancelPayload → Result BridgePlace)
    (fetch : String → Market → Result (List VenueOrderRow)) where
  on_set :
      (number : String) (outside : Option String)
      → let ref : OrderRef = record {
        order_no = number;
        market = set;
        account = o.account;
        symbol = o.symbol;
      } in
        with_number post ref outside ≡ elim outside [
          | none ↦ refused no_outside_number
          | some ext ↦
              cancel_answer
                (post (to_cancel_payload number set o.account (some o.symbol) (some ext)))
        ]
  unfolding with_number
  on_set number none = refl
  on_set number (some ext) = refl

  on_front :
      (m : Market) (number : String)
      → let ref : OrderRef = record {
        order_no = number;
        market = m;
        account = o.account;
        symbol = o.symbol;
      } in
        by_front post fetch ref m ≡ cancelled_on m o number post fetch
  unfolding by_front
  on_front set number = on_set number (lookup_ext_order_no (fetch o.account set) number)
  on_front tfex number = refl

  answered_lem :
      (p : BridgePlace) (a : StreamingProAdapter) (is_ok : Bool) (number : Option String)
      → a.refs o.client_order_id ≡ none
      → let (ack, a') = answered o p is_ok number a in
        let given = if is_ok then number else none in
        (ack ≡ acked p given)
        × (cancel_at post fetch (or_resolved (a'.refs o.client_order_id) none) ≡ elim given [
          | none ↦ refused no_mapping
          | some n ↦ cancelled_on o.market o n post fetch
        ])
  unfolding answered cancel_at
  answered_lem p a true none unknown = (refl, rw (unknown) refl)
  answered_lem p a true (some n) unknown =
      (refl, rw (same_text_refl o.client_order_id) (on_front o.market n))
  answered_lem p a false number unknown = (refl, rw (unknown) refl)

-- Of the responses of the bridge to an order that can be sent and that the adapter does not know, one
-- that is ok and names a number is acknowledged as accepted with that number, and every
-- other one, so also an ok one without a number, as rejected. A cancel of the order afterwards, with no
-- resolver, is refused as that of an unknown order in the second case; in the first it is sent with
-- that number and the order's account and symbol to the order's front, for SET under the outside
-- number that the front lists, and is refused where it lists none.
pub placed_then_cancelled :
    (text_of : Error → String) (o : NormalizedOrder) (turn : Turn)
    (post : PlacePayload → Result BridgePlace) (post_cancel : CancelPayload → Result BridgePlace)
    (fetch : String → Market → Result (List VenueOrderRow)) (a : StreamingProAdapter)
    (payload : PlacePayload) (p : BridgePlace)
    → to_place_payload o ≡ ok payload
    → post payload ≡ ok p
    → a.refs o.client_order_id ≡ none
    → let (outcome, a') = place text_of o turn post a in
      (outcome ≡ ok (acked p (held p)))
      × (cancel o.client_order_id none post_cancel fetch a' ≡ elim (held p) [
        | none ↦ refused no_mapping
        | some number ↦ cancelled_on o.market o number post_cancel fetch
      ])
unfolding place sent placed cancel
placed_then_cancelled text_of o turn post post_cancel fetch a payload p mapped sent_ok unknown =
    let (ack, cancelled) =
      answered_lem o post_cancel fetch p (record a { limiter = (acquire a.limiter turn).0 }) p.is_ok
        p.order_no unknown in
    rw (mapped, sent_ok) (ap ok ack, cancelled)
