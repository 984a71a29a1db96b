-- ===== src/Tests/Placing.antt =====
-- Orders placed over a bridge that accepts them.
use quant_execution_engine.Prelude.{◌≡◌, refl, true, false, none, some, [], pos}
use quant_execution_engine.Prelude.Decimal.{whole}
use quant_execution_engine.Contracts.Enums.{Side, OrderType, Tif}
use quant_execution_engine.Contracts.Errors.{ok}
use quant_execution_engine.Adapters.RateLimit.{Turn, new_bucket}
use quant_execution_engine.Adapters.Liberator.Models.{LiberatorEnvelope, is_ok, order_no}
use quant_execution_engine.Adapters.Liberator.Adapter.{
  LiberatorAdapter, Texts, accepted_ack, place, cancel, cancel_answer, refused, awaiting_number,
}
use quant_execution_engine.Adapters.Liberator.Adapter.Accepted.{accepted_is_cancellable}
use quant_execution_engine.Adapters.StreamingPro.Payloads.{
  PlacePayload, set_order, to_place_payload, to_set_payload, wire_price,
}
use quant_execution_engine.Adapters.StreamingPro.Adapter.{
  BridgePlace, StreamingProAdapter, place as place_on_bridge, cancel as cancel_on_bridge,
  refused as refused_on_bridge, no_mapping,
}
use quant_execution_engine.Adapters.StreamingPro.Adapter.Placed.{
  held, acked, cancelled_on, placed_then_cancelled,
}
use quant_execution_engine.Tests.Examples.{order}
use quant_execution_engine.Tests.Wiring.{sent, can_send}

abbrev texts : Texts
texts = record { of_int = λ z. "1"; of_error = λ e. "error" }

abbrev turn : Turn
turn = record { started = 0; woken = λ deficit. deficit }

abbrev envelope : LiberatorEnvelope
envelope = record {
  success = true;
  message = none;
  data_of = some (record { error_code = some (pos 0); err_msg = none; order_no = some "7" });
  detail = none;
}

abbrev adapter : LiberatorAdapter
adapter = record { limiter = new_bucket 5000 0; order_nos = λ cid. none; awaiting = λ cid. false }

accepted : is_ok envelope ≡ true
unfolding is_ok
accepted = refl

accepted_is_cancellable_example :
    let (outcome, a) = place texts order turn (λ p. ok envelope) adapter in
    (outcome ≡ ok (accepted_ack (order_no envelope)))
    × (cancel texts "order-1" none (λ number market. ok envelope) a ≡ elim (order_no envelope) [
      | none ↦ refused awaiting_number
      | some number ↦ cancel_answer texts (ok envelope)
    ])
accepted_is_cancellable_example =
    accepted_is_cancellable texts order turn (λ p. ok envelope) (λ number market. ok envelope)
      adapter sent envelope can_send refl accepted refl

-- The bridge has placed the order, and names its number.
abbrev placed_on_bridge : BridgePlace
placed_on_bridge = record {
  is_ok = true;
  order_no = some "9";
  status = some "Accepted";
  reason = none;
  detail = none;
}

abbrev bridge_adapter : StreamingProAdapter
bridge_adapter = record { limiter = new_bucket 5000 0; refs = λ cid. none }

abbrev bridge_payload : PlacePayload
bridge_payload = set_order (record {
  symbol = "PTT";
  side = Side.buy;
  volume = 100;
  account = "acc";
  price_type = OrderType.limit;
  validity = Tif.day;
  price = some (whole 35);
})

can_send_on_bridge : to_place_payload order ≡ ok bridge_payload
unfolding to_place_payload to_set_payload wire_price
can_send_on_bridge = refl

placed_then_cancelled_example :
    let (outcome, a) =
      place_on_bridge (λ e. "error") order turn (λ p. ok placed_on_bridge) bridge_adapter in
    (outcome ≡ ok (acked placed_on_bridge (held placed_on_bridge)))
    × (cancel_on_bridge "order-1" none (λ p. ok placed_on_bridge) (λ account market. ok []) a
        ≡ elim (held placed_on_bridge) [
          | none ↦ refused_on_bridge no_mapping
          | some number ↦
              cancelled_on order.market order number
                (λ p. ok placed_on_bridge)
                (λ account market. ok [])
        ])
placed_then_cancelled_example =
    placed_then_cancelled (λ e. "error") order turn (λ p. ok placed_on_bridge)
      (λ p. ok placed_on_bridge) (λ account market. ok []) bridge_adapter bridge_payload
      placed_on_bridge can_send_on_bridge refl refl
