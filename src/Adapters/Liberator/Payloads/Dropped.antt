-- ===== src/Adapters/Liberator/Payloads/Dropped.antt =====
-- The venue rows that adapters/liberator/mapping.py reads as no order.
use quant_execution_engine.Prelude.{
  ◌≡◌, refl, subst, Bool, true, false, Option, none, some, String, arith,
}
use quant_execution_engine.Prelude.Decimal.{Decimal, is_positive, whole}
use quant_execution_engine.Contracts.Enums.{Market, Side, OrderType, PositionEffect}
use quant_execution_engine.Contracts.Errors.{Result, ok, err, adapter_failed}
use quant_execution_engine.Contracts.Orders.{NormalizedOrder, validate}
use quant_execution_engine.Contracts.Orders.Valid.{is_price, validate-IsValid}
use quant_execution_engine.Adapters.Liberator.Mapping.{VenueOrderItem, from_venue_side}
use quant_execution_engine.Adapters.Liberator.Payloads.{
  tfex_price_type, venue_price_type, PlacePayload, tfex_order, to_tfex_payload, to_place_payload,
  by_market, Ids, read_type, read_as, read_order, read_from, valid_or_none,
  venue_item_to_normalized,
}
use quant_execution_engine.Adapters.Liberator.Payloads.ReadBack.{echo, tfex_request}

returns_itself :
    (is_uuid4 : String → Bool) (o x : NormalizedOrder)
    → validate is_uuid4 o ≡ ok x
    → validate is_uuid4 o ≡ ok o
unfolding validate
returns_itself is_uuid4 o x h = ground (arith, h)

module _ (ids : Ids) where
  refused_lem :
      (o : NormalizedOrder) (z : Decimal)
      → o.price ≡ some z
      → is_positive z ≡ false
      → valid_or_none ids (validate ids.is_uuid4 o) ≡ none
  unfolding valid_or_none
  refused_lem o z price below = from (validate ids.is_uuid4 o) refl
    where
      from : (r : Result NormalizedOrder) → validate ids.is_uuid4 o ≡ r → valid_or_none ids r ≡ none
      from (ok x) h =
          let v = validate-IsValid ids.is_uuid4 o (returns_itself ids.is_uuid4 o x h) in
          let positive = subst (λ p. is_price p ≡ true) price v.price in cc
      from (err e) h = refl

  below_dropped :
      (item : VenueOrderItem) (account : String) (z : Decimal) (side : Option Side)
      (t : Option OrderType)
      → item.price ≡ some z
      → is_positive z ≡ false
      → read_from ids item account side t ≡ none
  unfolding read_from read_order
  below_dropped item account z (some s) (some t) price below =
      refused_lem (read_order ids item account s (read_as t item.iceberg_vol)) z price below
  below_dropped item account z (some s) none price below = refl
  below_dropped item account z none t price below = refl

  sent_zero :
      (o : NormalizedOrder) (p : PlacePayload) (e : Option PositionEffect) (word : Option String)
      → o.price ≡ none
      → o.position_effect ≡ e
      → tfex_price_type o.order_type ≡ word
      → to_tfex_payload o ≡ ok p
      → (listed : String → String) (item : VenueOrderItem)
      → (echo listed p item).price ≡ some (whole 0)
  unfolding to_tfex_payload venue_price_type
  sent_zero o p none word price effect w h listed item =
      let failed : to_tfex_payload o ≡ err adapter_failed = rw effect in cc
  sent_zero o p (some e) none price effect w h listed item =
      let failed : to_tfex_payload o ≡ err adapter_failed = rw (effect, w) in cc
  sent_zero o p (some e) (some word) price effect w h listed item =
      let request = tfex_order (tfex_request o e (whole 0) word) in
      let made : to_tfex_payload o ≡ ok request = rw (effect, w, price) in
      let same : request ≡ p = cc in
      subst (λ p. (echo listed p item).price ≡ some (whole 0)) same refl

-- A TFEX order without a price, as a market or a stop order may be, is sent with the price 0, and
-- every venue row that carries the fields of its request, whatever word it has for the side, is read as
-- no order at all.
pub unpriced_dropped :
    (listed : String → String) (ids : Ids) (o : NormalizedOrder) (p : PlacePayload)
    (item : VenueOrderItem) (account : String)
    → o.market ≡ Market.tfex
    → o.price ≡ none
    → to_place_payload o ≡ ok p
    → ((echo listed p item).price ≡ some (whole 0))
      × (venue_item_to_normalized ids (echo listed p item) account ≡ none)
unfolding to_place_payload venue_item_to_normalized
unpriced_dropped listed ids o p item account m price h =
    let sent : to_tfex_payload o ≡ ok p = subst (λ m. by_market m o ≡ ok p) m h in
    let zero_sent =
      sent_zero ids o p o.position_effect (tfex_price_type o.order_type) price refl refl sent listed
        item in
    (
      zero_sent,
      below_dropped ids (echo listed p item) account (whole 0)
          (from_venue_side (echo listed p item).side) (read_type (echo listed p item)) zero_sent
          refl,
    )
