-- ===== src/Adapters/Liberator/Adapter/Accepted.antt =====
-- What becomes of an order that the venue has accepted, in adapters/liberator/adapter.py.
use quant_execution_engine.Prelude.{◌≡◌, refl, true, Option, none, some, String, same_text_refl}
use quant_execution_engine.Contracts.Enums.{Market}
use quant_execution_engine.Contracts.Errors.{Result, ok}
use quant_execution_engine.Contracts.Orders.{NormalizedOrder}
use quant_execution_engine.Adapters.RateLimit.{Turn, acquire}
use quant_execution_engine.Adapters.Liberator.Payloads.{PlacePayload, to_place_payload}
use quant_execution_engine.Adapters.Liberator.Models.{LiberatorEnvelope, is_ok, order_no}
use quant_execution_engine.Adapters.Liberator.Adapter.{
  LiberatorAdapter, Texts, accepted_ack, numbered, placed, sent, place, refused, awaiting_number,
  cancel_answer, cancel_at, or_resolved, cancel,
}

cancel_numbered :
    (texts : Texts) (o : NormalizedOrder) (post : String → Market → Result LiberatorEnvelope)
    (a : LiberatorAdapter) (number : Option String)
    → a.order_nos o.client_order_id ≡ none
    → let a' = numbered o number a in
      cancel_at texts post
        (a'.awaiting o.client_order_id)
        (or_resolved (a'.order_nos o.client_order_id) none)
      ≡ elim number [
        | none ↦ refused awaiting_number
        | some n ↦ cancel_answer texts (post n o.market)
      ]
unfolding cancel_at numbered
cancel_numbered texts o post a none unknown = rw (unknown, same_text_refl o.client_order_id)
cancel_numbered texts o post a (some n) unknown = rw (same_text_refl o.client_order_id)

-- An order that the venue has accepted is acknowledged, with the venue's number or without one, and
-- is neither rejected nor raised. A cancel of it afterwards is sent with that number, to the order's
-- market; if there was none, and the adapter held none before and resolves none, it is refused with
-- the reason that the order waits for its number.
pub accepted_is_cancellable :
    (texts : Texts) (o : NormalizedOrder) (turn : Turn)
    (post : PlacePayload → Result LiberatorEnvelope)
    (post_cancel : String → Market → Result LiberatorEnvelope) (a : LiberatorAdapter)
    (payload : PlacePayload) (envelope : LiberatorEnvelope)
    → to_place_payload o ≡ ok payload
    → post payload ≡ ok envelope
    → is_ok envelope ≡ true
    → a.order_nos o.client_order_id ≡ none
    → let (outcome, a') = place texts o turn post a in
      (outcome ≡ ok (accepted_ack (order_no envelope)))
      × (cancel texts o.client_order_id none post_cancel a' ≡ elim (order_no envelope) [
        | none ↦ refused awaiting_number
        | some number ↦ cancel_answer texts (post_cancel number o.market)
      ])
unfolding place sent placed cancel
accepted_is_cancellable texts o turn post post_cancel a payload envelope mapped answered accepted
      unknown =
    rw (mapped, answered, accepted)
      (
        refl,
        cancel_numbered texts o post_cancel (record a { limiter = (acquire a.limiter turn).0 })
            (order_no envelope) unknown,
      )
