-- ===== src/PrivateMarket/Types.antt =====
-- src/private_market.rs: the participants of a batch, their allocations and fills, and the errors.
use asteria.Base.{ℕ, Bool, List, Option, Bytes}
use asteria.Auction.Types.{OrderId, AllocationStatus, AuctionError}
use asteria.Decimal.{Decimal}
use asteria.Domain.{AccountId, Side, OrderKind, TimeInForce}

-- An `i128`, by sign.
pub data ℤ : Type 0 where
  pos : ℕ → ℤ
  negsuc : ℕ → ℤ

-- What the adapter uses of `rust_decimal::Decimal` beside its arithmetic. A value is here its
-- representation, the mantissa divided by ten to the scale.
pub record FixedDecimal (D : Type 0) : Type 0 where
  pub decimal : Decimal D
  pub one : D
  pub from : ℕ → D
  pub mantissa : D → ℤ
  pub scale : D → ℕ

abbrev pub CiphertextId : Type 0
CiphertextId = Bytes

pub data ParticipantVisibility : Type 0 where
  public : ParticipantVisibility
  private : CiphertextId → ParticipantVisibility

pub record BatchParticipant (D : Type 0) : Type 0 where
  pub visibility : ParticipantVisibility
  pub account_id : AccountId
  pub order_id : OrderId
  pub side : Side
  pub kind : OrderKind
  pub time_in_force : TimeInForce
  pub quantity : D
  pub limit_price : Option D
  pub leverage : ℕ
  pub reduce_only : Bool

pub record BatchContext (D : Type 0) : Type 0 where
  pub chain_id : Bytes
  pub height : ℕ
  pub threshold_beacon : Bytes
  pub reference_price : D

pub record ParticipantAllocation (D : Type 0) : Type 0 where
  pub participant : BatchParticipant D
  pub executed_lots : ℕ
  pub executed_quantity : D
  pub status : AllocationStatus

pub record BatchFill (D : Type 0) : Type 0 where
  pub buy_order_id : OrderId
  pub sell_order_id : OrderId
  pub buy_account_id : AccountId
  pub sell_account_id : AccountId
  pub price_ticks : ℕ
  pub price : D
  pub quantity_lots : ℕ
  pub quantity : D

pub record PrivateBatchOutcome (D : Type 0) : Type 0 where
  pub allocation_commitment : Bytes
  pub clearing_price_ticks : Option ℕ
  pub clearing_price : Option D
  pub matched_lots : ℕ
  pub matched_quantity : D
  pub imbalance_lots : ℕ
  pub allocations : List (ParticipantAllocation D)
  pub fills : List (BatchFill D)

-- The names of fields that errors carry.
pub data Field : Type 0 where
  price quantity minimum_quantity : Field

-- The reasons of `InvalidParticipant`.
pub data Reason : Type 0 where
  empty_account_id leverage_outside_bounds quantity_below_minimum : Reason
  limit_requires_price market_with_limit_price : Reason
  only_ioc_or_fok duplicate_id : Reason

pub data PrivateMarketError (D : Type 0) : Type 0 where
  invalid_chain_id zero_height invalid_market_id : PrivateMarketError D
  invalid_threshold_beacon : PrivateMarketError D
  non_positive_step : Field → PrivateMarketError D
  invalid_slippage_limit : PrivateMarketError D
  negative_value : Field → PrivateMarketError D
  not_step_aligned : Field → D → D → PrivateMarketError D
  unit_overflow : Field → PrivateMarketError D
  decimal_overflow : Field → PrivateMarketError D
  duplicate_ciphertext_id : PrivateMarketError D
  invalid_participant : OrderId → Reason → PrivateMarketError D
  auction : AuctionError → PrivateMarketError D
  missing_allocation : OrderId → PrivateMarketError D
  unknown_allocation : OrderId → PrivateMarketError D
  fok_not_atomic : OrderId → PrivateMarketError D
  allocation_conservation fill_conservation : PrivateMarketError D
  arithmetic_overflow : PrivateMarketError D
  -- A panic of `expect`.
  panicked : PrivateMarketError D
