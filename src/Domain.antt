-- ===== src/Domain.antt =====
-- src/domain.rs: orders and what stands beside them in the order book. Account ids and symbols are
-- byte strings, and a `Uuid` is its 128-bit number.
use asteria.Base.{ℕ, Bool, true, false, List, Bytes}

abbrev pub AccountId : Type 0
AccountId = Bytes

abbrev pub Symbol : Type 0
Symbol = Bytes

abbrev pub Uuid : Type 0
Uuid = ℕ

pub data Side : Type 0 where
  buy sell : Side

abbrev pub opposite : Side → Side
opposite buy = sell
opposite sell = buy

abbrev pub same_side : Side → Side → Bool
same_side buy buy = true
same_side sell sell = true
same_side _ _ = false

pub data OrderKind : Type 0 where
  limit market : OrderKind

pub data TimeInForce : Type 0 where
  gtc ioc fok : TimeInForce

pub data OrderStatus : Type 0 where
  open_ partially_filled filled cancelled : OrderStatus

-- `OrderStatus::Open | OrderStatus::PartiallyFilled`
abbrev pub is_active : OrderStatus → Bool
is_active OrderStatus.open_ = true
is_active OrderStatus.partially_filled = true
is_active OrderStatus.filled = false
is_active OrderStatus.cancelled = false

pub record Order (D : Type 0) : Type 0 where
  pub id : Uuid
  pub account_id : AccountId
  pub client_order_id : Bytes
  pub symbol : Symbol
  pub side : Side
  pub kind : OrderKind
  pub quantity : D
  pub remaining : D
  pub limit_price : D
  pub leverage : ℕ
  pub time_in_force : TimeInForce
  pub reduce_only : Bool
  pub reserved_margin : D
  pub sequence : ℕ
  pub status : OrderStatus

pub record MarketConfig (D : Type 0) : Type 0 where
  pub symbol : Symbol
  pub tick_size : D
  pub quantity_step : D
  pub min_quantity : D
  pub max_leverage : ℕ
  pub maintenance_margin_ratio : D
  pub maker_fee_rate : D
  pub taker_fee_rate : D
  pub market_slippage_limit : D
  pub liquidation_penalty_rate : D

pub record PriceLevel (D : Type 0) : Type 0 where
  pub price : D
  pub quantity : D
  pub order_count : ℕ

pub record BookSnapshot (D : Type 0) : Type 0 where
  pub symbol : Symbol
  pub sequence : ℕ
  pub bids : List (PriceLevel D)
  pub asks : List (PriceLevel D)

pub record Trade (D : Type 0) : Type 0 where
  pub id : Uuid
  pub symbol : Symbol
  pub price : D
  pub quantity : D
  pub maker_order_id : Uuid
  pub taker_order_id : Uuid
  pub maker_account_id : AccountId
  pub taker_account_id : AccountId
  pub taker_side : Side
  pub maker_fee : D
  pub taker_fee : D
  pub sequence : ℕ

pub record OracleObservation (D : Type 0) : Type 0 where
  pub source : Bytes
  pub price : D
  pub weight : ℕ

pub record OracleSnapshot (D : Type 0) : Type 0 where
  pub symbol : Symbol
  pub price : D
  pub observations : List (OracleObservation D)
  pub sequence : ℕ

pub record SocializedLoss (D : Type 0) : Type 0 where
  pub account_id : AccountId
  pub amount : D

-- src/error.rs: the errors that the order book returns.
pub data ExchangeError : Type 0 where
  order_not_found : Uuid → ExchangeError
  order_ownership : Uuid → ExchangeError
  invalid_order internal : ExchangeError
