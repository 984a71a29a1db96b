-- ===== src/Contracts/Enums.antt =====
-- contracts/enums.py: the frozen enums and the one mapping of the internal order state onto the
-- public status.
use quant_execution_engine.Prelude.{ℕ, Bool, true, false, ltb, if◌then◌else◌}

pub data Broker : Type 0 where
  sim liberator streaming_pro : Broker

pub data Market : Type 0 where
  set tfex : Market

pub data Side : Type 0 where
  buy sell : Side

pub data OrderType : Type 0 where
  market limit stop stop_limit iceberg mtl ato atc : OrderType

pub data Tif : Type 0 where
  day ioc fok gtc : Tif

pub data PositionEffect : Type 0 where
  open_position close_position : PositionEffect

pub data Stage : Type 0 where
  sim paper micro_live live : Stage

pub data OrderState : Type 0 where
  pending_new new partially_filled filled pending_cancel pending_replace : OrderState
  cancelled rejected expired : OrderState

pub data PublicOrderStatus : Type 0 where
  new partially_filled filled cancelled rejected expired : PublicOrderStatus

pub data HandleResolution : Type 0 where
  confirmed pending unknown : HandleResolution

-- Python's `is` on the members of an enum.
abbrev pub same_broker : Broker → Broker → Bool
same_broker Broker.sim Broker.sim = true
same_broker Broker.liberator Broker.liberator = true
same_broker Broker.streaming_pro Broker.streaming_pro = true
same_broker _ _ = false

abbrev pub same_market : Market → Market → Bool
same_market Market.set Market.set = true
same_market Market.tfex Market.tfex = true
same_market _ _ = false

abbrev pub same_side : Side → Side → Bool
same_side Side.buy Side.buy = true
same_side Side.sell Side.sell = true
same_side _ _ = false

abbrev pub same_type : OrderType → OrderType → Bool
same_type OrderType.market OrderType.market = true
same_type OrderType.limit OrderType.limit = true
same_type OrderType.stop OrderType.stop = true
same_type OrderType.stop_limit OrderType.stop_limit = true
same_type OrderType.iceberg OrderType.iceberg = true
same_type OrderType.mtl OrderType.mtl = true
same_type OrderType.ato OrderType.ato = true
same_type OrderType.atc OrderType.atc = true
same_type _ _ = false

abbrev pub same_tif : Tif → Tif → Bool
same_tif Tif.day Tif.day = true
same_tif Tif.ioc Tif.ioc = true
same_tif Tif.fok Tif.fok = true
same_tif Tif.gtc Tif.gtc = true
same_tif _ _ = false

abbrev pub same_effect : PositionEffect → PositionEffect → Bool
same_effect PositionEffect.open_position PositionEffect.open_position = true
same_effect PositionEffect.close_position PositionEffect.close_position = true
same_effect _ _ = false

abbrev pub same_state : OrderState → OrderState → Bool
same_state OrderState.pending_new OrderState.pending_new = true
same_state OrderState.new OrderState.new = true
same_state OrderState.partially_filled OrderState.partially_filled = true
same_state OrderState.filled OrderState.filled = true
same_state OrderState.pending_cancel OrderState.pending_cancel = true
same_state OrderState.pending_replace OrderState.pending_replace = true
same_state OrderState.cancelled OrderState.cancelled = true
same_state OrderState.rejected OrderState.rejected = true
same_state OrderState.expired OrderState.expired = true
same_state _ _ = false

unfoldable pub to_public_status : OrderState → ℕ → PublicOrderStatus
to_public_status OrderState.pending_new filled_qty = PublicOrderStatus.new
to_public_status OrderState.pending_cancel filled_qty =
    if ltb 0 filled_qty then PublicOrderStatus.partially_filled else PublicOrderStatus.new
to_public_status OrderState.pending_replace filled_qty =
    if ltb 0 filled_qty then PublicOrderStatus.partially_filled else PublicOrderStatus.new
to_public_status OrderState.new filled_qty = PublicOrderStatus.new
to_public_status OrderState.partially_filled filled_qty = PublicOrderStatus.partially_filled
to_public_status OrderState.filled filled_qty = PublicOrderStatus.filled
to_public_status OrderState.cancelled filled_qty = PublicOrderStatus.cancelled
to_public_status OrderState.rejected filled_qty = PublicOrderStatus.rejected
to_public_status OrderState.expired filled_qty = PublicOrderStatus.expired
