-- ===== src/PrivateMarket/Orders.antt =====
-- src/private_market.rs: the orders that participants enter into the auction.
use asteria.Base.{
  ℕ, ◌/◌, ◌%◌, Bool, true, false, Option, some, none, ◌==◌, ltb, if◌then◌else◌, checked_add,
  checked_mul, u128_bound, length,
}
use asteria.Base.Result.{Result, ok, err, ◌>>=◌, ◌>>◌, ok_or, fail_if}
use asteria.Decimal.{ltb_dec}
use asteria.Auction.Types.{AuctionOrder}
use asteria.Auction.Types as Auction
use asteria.Domain.{Side, buy, sell, limit, market, gtc, ioc, fok, MarketConfig}
use asteria.PrivateMarket.Types.{
  FixedDecimal, BatchParticipant, public, private, price, quantity, minimum_quantity,
  PrivateMarketError, non_positive_step, invalid_slippage_limit, invalid_participant,
  arithmetic_overflow, empty_account_id, leverage_outside_bounds, quantity_below_minimum,
  limit_requires_price, market_with_limit_price, only_ioc_or_fok,
}
use asteria.PrivateMarket.Units.{
  gcd, power_of_ten, to_u64, to_u128, validate_step, price_to_ticks, quantity_to_lots,
}

-- `side == DomainSide::Sell`
abbrev pub is_sell : Side → Bool
is_sell buy = false
is_sell sell = true

abbrev pub auction_side : Side → Auction.Side
auction_side buy = Auction.Side.buy
auction_side sell = Auction.Side.sell

-- The division of `scale_price_ticks`, upward or downward.
unfoldable pub divide : {D : Type 0} → Bool → ℕ → ℕ → Result (PrivateMarketError D) ℕ
divide round_up product denominator =
    if round_up
    then if product % denominator == 0
      then ok (product / denominator)
      else ok_or (checked_add u128_bound (product / denominator) 1) arithmetic_overflow
    else ok (product / denominator)

-- The cancelled fraction of `scale_price_ticks`, from the reference, a numerator and a denominator.
unfoldable pub scale_fraction : {D : Type 0} → ℕ → ℕ → ℕ → Bool → Result (PrivateMarketError D) ℕ
unfolding divide gcd
scale_fraction reference numerator denominator round_up =
    let factor_cancellation = gcd numerator denominator in
    let reference_cancellation = gcd reference (denominator / factor_cancellation) in
    do
      product ←
          ok_or
            (checked_mul u128_bound (reference / reference_cancellation)
              (numerator / factor_cancellation))
            arithmetic_overflow
      scaled ← divide round_up product (denominator / factor_cancellation / reference_cancellation)
      ok_or (to_u64 scaled) arithmetic_overflow

module _ {D : Type 0} ⦃fixed : FixedDecimal D⦄ where
  unfoldable pub scale_price_ticks : ℕ → D → Bool → Result (PrivateMarketError D) ℕ
  unfolding scale_fraction power_of_ten
  scale_price_ticks reference_price factor round_up = do
    numerator ← ok_or (to_u128 (fixed.mantissa factor)) arithmetic_overflow
    denominator ← power_of_ten (fixed.scale factor)
    scale_fraction reference_price numerator denominator round_up

  unfoldable pub slippage_factor : D → Side → Option D
  slippage_factor slippage_limit buy = fixed.decimal.checked_add fixed.one slippage_limit
  slippage_factor slippage_limit sell = fixed.decimal.checked_sub fixed.one slippage_limit

  unfoldable pub market_protection_price : ℕ → D → Side → Result (PrivateMarketError D) ℕ
  unfolding scale_price_ticks slippage_factor
  market_protection_price reference_price slippage_limit side = do
    factor ← ok_or (slippage_factor slippage_limit side) arithmetic_overflow
    scale_price_ticks reference_price factor (is_sell side)

  unfoldable pub validate_market_steps : MarketConfig D → Result (PrivateMarketError D) (Unit {0})
  unfolding validate_step quantity_to_lots
  validate_market_steps config = do
    validate_step config.tick_size price
    validate_step config.quantity_step quantity
    fail_if
        (if ltb_dec ⦃decimal = fixed.decimal⦄ config.market_slippage_limit fixed.decimal.zero
          then true
          else ltb_dec ⦃decimal = fixed.decimal⦄ fixed.one config.market_slippage_limit)
        invalid_slippage_limit
    minimum_lots ← quantity_to_lots config.min_quantity config
    fail_if (minimum_lots == 0) (non_positive_step minimum_quantity)

  unfoldable pub auction_kind :
      MarketConfig D → ℕ → BatchParticipant D → Result (PrivateMarketError D) Auction.OrderKind
  unfolding price_to_ticks market_protection_price
  auction_kind config reference_price participant = elim participant.kind [
    | limit ↦ elim participant.limit_price [
      | some value ↦ do ticks ← price_to_ticks value config; ok (Auction.OrderKind.limit ticks)
      | none ↦ err (invalid_participant participant.order_id limit_requires_price)
    ]
    | market ↦ elim participant.limit_price [
      | none ↦ do
        ticks ←
            market_protection_price reference_price config.market_slippage_limit participant.side
        ok (Auction.OrderKind.market ticks)
      | some _ ↦ err (invalid_participant participant.order_id market_with_limit_price)
    ]
  ]

  unfoldable pub auction_time_in_force :
      BatchParticipant D → Result (PrivateMarketError D) Auction.TimeInForce
  auction_time_in_force participant = elim participant.time_in_force [
    | ioc ↦ ok Auction.TimeInForce.ioc
    | fok ↦ ok Auction.TimeInForce.fok
    | gtc ↦ elim participant.visibility [
      | public ↦ ok Auction.TimeInForce.ioc
      | private _ ↦ err (invalid_participant participant.order_id only_ioc_or_fok)
    ]
  ]

  unfoldable pub to_auction_order :
      MarketConfig D → ℕ → BatchParticipant D → Result (PrivateMarketError D) AuctionOrder
  unfolding quantity_to_lots auction_kind auction_time_in_force
  to_auction_order config reference_price participant = do
    fail_if (length participant.account_id == 0)
        (invalid_participant participant.order_id empty_account_id)
    fail_if
        (if participant.leverage == 0 then true else ltb config.max_leverage participant.leverage)
        (invalid_participant participant.order_id leverage_outside_bounds)
    lots ← quantity_to_lots participant.quantity config
    minimum ← quantity_to_lots config.min_quantity config
    fail_if (ltb lots minimum) (invalid_participant participant.order_id quantity_below_minimum)
    kind ← auction_kind config reference_price participant
    time_in_force ← auction_time_in_force participant
    ok (record {
      id = participant.order_id;
      side = auction_side participant.side;
      kind = kind;
      time_in_force = time_in_force;
      quantity = lots;
    })
