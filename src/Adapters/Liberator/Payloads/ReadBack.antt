-- ===== src/Adapters/Liberator/Payloads/ReadBack.antt =====
-- What adapters/liberator/mapping.py writes for an order against what it reads of the venue's row.
use quant_execution_engine.Prelude.{
  scale, zero, suc, ◌+◌, ◌*◌, ◌/◌, ◌^◌, ◌<◌, pos, negsuc, ℤ, ltb_ℤ, sub_ℕ, lt→ltb, ℕ, ◌≡◌, refl,
  sym, ◌∙◌, subst, Bool, true, false, ◌||◌, not, Option, none, some, String, arith, if◌then◌else◌,
  token, strip, is_space, upper_code,
}
use quant_execution_engine.Prelude.Decimal.{Decimal, is_positive, whole, same_value, ltb_dec}
use quant_execution_engine.Contracts.Enums.{Market, Side, OrderType, PositionEffect}
use quant_execution_engine.Contracts.Errors.{ok, err, adapter_failed}
use quant_execution_engine.Contracts.Orders.{NormalizedOrder, is_some, is_stop, validate}
use quant_execution_engine.Contracts.Orders.Valid.{IsValid, is_price, is_effect, validate-IsValid}
use quant_execution_engine.Adapters.Liberator.Mapping.{VenueOrderItem, from_venue_side}
use quant_execution_engine.Adapters.Liberator.Payloads.{
  set_price_type, tfex_price_type, venue_price_type, venue_validity, venue_side, venue_position,
  is_two_places, quantized, with_sign, SetOrderRequest, TfexOrderRequest, PlacePayload, set_order,
  tfex_order, or_zero, price_or_zero, to_set_payload, to_tfex_payload, to_place_payload, by_market,
  set_wire_price, stop_only, read_type, read_tif, read_position, read_market, Ids,
  venue_item_to_normalized,
}
use quant_execution_engine.Adapters.Liberator.Payloads.Words.{
  tif_back, position_back, no_position, set_type_back, tfex_type_back, as_read,
}
use quant_execution_engine.Adapters.Liberator.Payloads.Rows.{Carries, read_view, read_lem}

-- The words for a side in the rows of the venue, which differ from those of a request
-- (adapters/liberator/models.py): B and S.
pub record ListsSides (listed : String → String) : Type 0 where
  pub buy_set : listed "Buy" ≡ "B"
  pub buy_tfex : listed "Long" ≡ "B"
  pub sell_set : listed "Sell" ≡ "S"
  pub sell_tfex : listed "Short" ≡ "S"

side_listed :
    (listed : String → String) (s : Side) (m : Market)
    → ListsSides listed
    → from_venue_side (listed (venue_side s m)) ≡ some s
unfolding from_venue_side venue_side token strip is_space upper_code
side_listed listed Side.buy Market.set l = rw (l.buy_set) refl
side_listed listed Side.buy Market.tfex l = rw (l.buy_tfex) refl
side_listed listed Side.sell Market.set l = rw (l.sell_set) refl
side_listed listed Side.sell Market.tfex l = rw (l.sell_tfex) refl

-- A venue row, whatever its counters and its state, that carries the fields of a request: its side in
-- the word that the venue lists for it, the other words as `_READ_PRICE_TYPES`, `_READ_VALIDITY` and
-- `_READ_POSITIONS` have them, which are those of a request in any case.
abbrev pub echo : (String → String) → PlacePayload → VenueOrderItem → VenueOrderItem
echo listed (set_order r) item = record item {
  account_no = r.account_no;
  symbol = r.symbol;
  side = listed r.side;
  position = none;
  price_type = r.price_type;
  iceberg_vol = r.iceberg_vol;
  volume = r.volume;
  price = some r.price;
  validity_type = r.validity_type;
}
echo listed (tfex_order r) item = record item {
  account_no = r.account_no;
  symbol = r.symbol;
  side = listed r.side;
  position = some r.position;
  price_type = r.price_type;
  iceberg_vol = r.iceberg_vol;
  volume = r.volume;
  price = some r.price;
  validity_type = r.validity_type;
  stop_price = some r.stop_price;
}

abbrev pub sent_price : PlacePayload → Decimal
sent_price (set_order r) = r.price
sent_price (tfex_order r) = r.price

-- A stop order is sent with its stop price, and no other is read back with one.
stop_back :
    (t : OrderType) (p : Option Decimal)
    → (is_some p || not (is_stop t)) ≡ true
    → stop_only (as_read t) (some (if is_stop t then price_or_zero p else whole 0))
      ≡ stop_only (as_read t) p
stop_back t none h = ground arith
stop_back t (some d) h = ground arith

no_stop :
    (t : OrderType) (word : String) (p q : Option Decimal)
    → set_price_type t ≡ some word
    → stop_only (as_read t) p ≡ stop_only (as_read t) q
no_stop t word p q h = ground arith

effect_none : (e : Option PositionEffect) → is_effect Market.set e ≡ true → e ≡ none
effect_none none h = refl
effect_none (some e) h = cc

abbrev set_request : NormalizedOrder → Decimal → String → SetOrderRequest
set_request o price word = record {
  account_no = o.account;
  iceberg_vol = or_zero o.display_qty;
  volume = o.quantity;
  symbol = o.symbol;
  side = venue_side o.side Market.set;
  price = price;
  price_type = word;
  validity_type = venue_validity o.tif;
}

abbrev pub tfex_request : NormalizedOrder → PositionEffect → Decimal → String → TfexOrderRequest
tfex_request o e price word = record {
  account_no = o.account;
  iceberg_vol = or_zero o.display_qty;
  volume = o.quantity;
  symbol = o.symbol;
  side = venue_side o.side Market.tfex;
  position = venue_position e;
  price = price;
  price_type = word;
  validity_type = venue_validity o.tif;
  stop_symbol = o.symbol;
  stop_price = if is_stop o.order_type then price_or_zero o.stop_price else whole 0;
}

module _ (listed : String → String) (lists : ListsSides listed) (ids : Ids) (o : NormalizedOrder)
    (item : VenueOrderItem) where
  set-Carries :
      IsValid ids.is_uuid4 o
      → o.market ≡ Market.set
      → (word : String) → set_price_type o.order_type ≡ some word
      → (price : Decimal)
      → Carries o price (echo listed (set_order (set_request o price word)) item)
  unfolding read_type read_tif read_position read_market
  set-Carries v m word h price =
      let e =
        effect_none o.position_effect
          (subst (λ m. is_effect m o.position_effect ≡ true) m v.effect) in
      record {
        account = refl;
        symbol = refl;
        volume = refl;
        side = side_listed listed o.side Market.set lists;
        order_type = set_type_back o.order_type word h;
        display = refl;
        tif = tif_back o.tif;
        effect = no_position.0 ∙ sym e;
        market = rw (no_position.1, m);
        price_sent = refl;
        stop_sent = no_stop o.order_type word item.stop_price o.stop_price h;
      }

  tfex-Carries :
      IsValid ids.is_uuid4 o
      → o.market ≡ Market.tfex
      → (e : PositionEffect) → o.position_effect ≡ some e
      → (word : String) → tfex_price_type o.order_type ≡ some word
      → (price : Decimal)
      → Carries o price (echo listed (tfex_order (tfex_request o e price word)) item)
  unfolding read_type read_tif read_position read_market
  tfex-Carries v m e he word h price = record {
    account = refl;
    symbol = refl;
    volume = refl;
    side = side_listed listed o.side Market.tfex lists;
    order_type = tfex_type_back o.order_type word h;
    display = refl;
    tif = tif_back o.tif;
    effect = (position_back e).0 ∙ sym he;
    market = rw ((position_back e).1, m);
    price_sent = refl;
    stop_sent = stop_back o.order_type o.stop_price v.stopped;
  }

equal_not_ltb : (a b : ℕ) → a ≡ b → not (ltb_ℤ (pos a) (pos b)) ≡ true
equal_not_ltb a b h = ground (arith, h)

some_of_product : (q m n : ℕ) → q * m ≡ n * 100 → 0 < n → 0 < q
some_of_product zero m n h positive = omega (arith, h, positive)
some_of_product (suc q) m n h positive = omega arith

whole_lem : (n m : ℕ) → sub_ℕ (n * m) (0 * m) ≡ pos (n * m)
whole_lem n m = ground arith

quantized_of :
    (z : ℤ) (p : ℕ)
    → let d : Decimal = record { coeff = z; places = p } in
      is_two_places d ≡ true
      → is_positive d ≡ true
      → (is_positive (quantized d) ≡ true) × (same_value (quantized d) d ≡ true)
unfolding is_two_places quantized with_sign same_value ltb_dec scale
quantized_of (negsuc n) p two positive = ground arith
quantized_of (pos n) p two positive =
    let q = (n + 0) * 100 / 10 ^ p in
    let exact : q * 10 ^ p ≡ n * 100 = ground (arith, two) in
    let some_left : 0 < n = ground (arith, positive) in
    (
      lt→ltb _ _ (omega (arith, some_of_product q (10 ^ p) n exact some_left)),
      ground (arith, exact),
    )

quantized_lem :
    (d : Decimal)
    → is_two_places d ≡ true
    → is_positive d ≡ true
    → (is_positive (quantized d) ≡ true) × (same_value (quantized d) d ≡ true)
quantized_lem d two positive = quantized_of d.coeff d.places two positive

same_value_refl : (d : Decimal) → same_value d d ≡ true
unfolding same_value ltb_dec
same_value_refl d = ground arith

abbrev IsReadBack :
    (String → String)
    → Ids
    → NormalizedOrder
    → Decimal
    → VenueOrderItem
    → String
    → PlacePayload
    → Type 0
IsReadBack listed ids o d item account p =
    (venue_item_to_normalized ids (echo listed p item) account
      ≡ some (read_view ids o (sent_price p) item))
    × (same_value (sent_price p) d ≡ true)

module _ (listed : String → String) (lists : ListsSides listed) (ids : Ids) (o : NormalizedOrder)
    (d : Decimal) (item : VenueOrderItem) (account : String) (v : IsValid ids.is_uuid4 o)
    (hashed : ids.is_uuid4 (ids.synthetic item.order_no) ≡ true) (price : o.price ≡ some d) where
  positive : is_positive d ≡ true
  positive = subst (λ p. is_price p ≡ true) price v.price

  set_back :
      (p : PlacePayload) (two : Bool) (word : Option String)
      → o.market ≡ Market.set
      → is_two_places d ≡ two
      → set_price_type o.order_type ≡ word
      → to_set_payload o ≡ ok p
      → IsReadBack listed ids o d item account p
  unfolding to_set_payload set_wire_price venue_price_type
  set_back p false word m e w h =
      let failed : to_set_payload o ≡ err adapter_failed = rw (price, e) in cc
  set_back p true none m e w h =
      let failed : to_set_payload o ≡ err adapter_failed = rw (price, e, w) in cc
  set_back p true (some word) m e w h =
      let request = set_order (set_request o (quantized d) word) in
      let made : to_set_payload o ≡ ok request = rw (price, e, w) in
      let same : request ≡ p = cc in
      let (above, equal) = quantized_lem d e positive in
      subst (IsReadBack listed ids o d item account) same (
        read_lem ids o (quantized d) (echo listed request item) account v hashed above
            (set-Carries listed lists ids o item v m word w (quantized d)),
        equal,
      )

  tfex_back :
      (p : PlacePayload) (effect : Option PositionEffect) (word : Option String)
      → o.market ≡ Market.tfex
      → o.position_effect ≡ effect
      → tfex_price_type o.order_type ≡ word
      → to_tfex_payload o ≡ ok p
      → IsReadBack listed ids o d item account p
  unfolding to_tfex_payload venue_price_type
  tfex_back p none word m e w h = let failed : to_tfex_payload o ≡ err adapter_failed = rw e in cc
  tfex_back p (some effect) none m e w h =
      let failed : to_tfex_payload o ≡ err adapter_failed = rw (e, w) in cc
  tfex_back p (some effect) (some word) m e w h =
      let request = tfex_order (tfex_request o effect d word) in
      let made : to_tfex_payload o ≡ ok request = rw (e, w, price) in
      let same : request ≡ p = cc in
      subst (IsReadBack listed ids o d item account) same (
        read_lem ids o d (echo listed request item) account v hashed positive
            (tfex-Carries listed lists ids o item v m effect e word w d),
        same_value_refl d,
      )

  back :
      (p : PlacePayload) (m : Market)
      → o.market ≡ m
      → to_place_payload o ≡ ok p
      → IsReadBack listed ids o d item account p
  unfolding to_place_payload
  back p Market.set m h =
      set_back p (is_two_places d) (set_price_type o.order_type) m refl refl
        (subst (λ m. by_market m o ≡ ok p) m h)
  back p Market.tfex m h =
      tfex_back p o.position_effect (tfex_price_type o.order_type) m refl refl
        (subst (λ m. by_market m o ≡ ok p) m h)

-- An order that passes validation, that has a price and that can be sent is read back from any
-- venue row that carries the fields of the request, with `B` or `S` for its side: with its account,
-- market, symbol, side, quantity, displayed quantity, time in force and position effect, as its own
-- type, but a stop limit as a stop, with its stop price where it is a stop order, with a price of the
-- same value, and under the hash of the venue's number, which is taken to be a UUID of version 4.
pub placed_reads_back :
    (listed : String → String) (ids : Ids) (o : NormalizedOrder) (d : Decimal) (p : PlacePayload)
    (item : VenueOrderItem) (account : String)
    → ListsSides listed
    → validate ids.is_uuid4 o ≡ ok o
    → ids.is_uuid4 (ids.synthetic item.order_no) ≡ true
    → o.price ≡ some d
    → to_place_payload o ≡ ok p
    → (venue_item_to_normalized ids (echo listed p item) account
        ≡ some (read_view ids o (sent_price p) item))
      × (same_value (sent_price p) d ≡ true)
placed_reads_back listed ids o d p item account lists valid hashed price sent =
    back listed lists ids o d item account (validate-IsValid ids.is_uuid4 o valid) hashed price p
      o.market refl sent
