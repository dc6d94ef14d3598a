-- ===== src/PrivateMarket/Tests.antt =====
-- Runs of the private market's adapter on small decimals, and the theorems at these inputs.
use asteria.Base.{
  true, ℕ, ◌+◌, ◌*◌, ◌-◌, ◌/◌, ◌^◌, ◌≤◌, ◌≡◌, refl, List, [], ◌∷◌, Option, some, none, false,
  compare, leb, ◌==◌, if◌then◌else◌, sort_by, insert_by, arith, map,
}
use asteria.Base.Result.{ok, err, Returns}
use asteria.Auction.Types.{AllocationStatus}
use asteria.Auction.Types as Auction
use asteria.Domain.{buy, sell, limit, ioc, Side, MarketConfig}
use asteria.PrivateMarket.Types.{
  FixedDecimal, BatchContext, BatchParticipant, PrivateBatchOutcome, pos, public,
  ParticipantAllocation, BatchFill, price, not_step_aligned,
}
use asteria.PrivateMarket.Units.{decimal_to_units, gcd_loop, lots_to_quantity}
use asteria.PrivateMarket.Pairing.{pair_fills}
use asteria.PrivateMarket.Exact.{IsUnits, decimal_to_units_iff}
use asteria.PrivateMarket.Orders.{market_protection_price, to_auction_order}
use asteria.PrivateMarket.Rounding.{Rounded, IsFactor, market_protection_price-Rounded}
use asteria.Auction.Clear.{clear_batch}
use asteria.Auction.Allocate.{compare_priority}
use asteria.Auction.Clear.{
  validate, validate_orders, is_zero_limit, seen, best_candidate, improves, candidate_prices,
  insert_price, outcome_of, empty_outcome, allocation_list, status, sort_allocations,
}
use asteria.Auction.Candidate.{
  evaluate_candidate, evaluate_rounds, evaluate_ioc_fallback, only_ioc, combine, write_values,
  add_to_values, nothing_matched, is_better_than,
}
use asteria.Auction.Sides.{
  allocate_side, allocate_groups, allocate_group, allocate_pro_rata, pro_rata_shares,
  spread_remainder, fill_all, fill_fok, price_groups, join_group,
}
use asteria.Auction.Allocate.{
  eligible_indices, eligible_in, crosses, checked_quantity, add_quantities, checked_values,
  add_values,
}
use asteria.PrivateMarket.Clearing.{clear_private_batch}
use asteria.PrivateMarket.Cleared.{IsSettledBatch, clear_private_batch-IsSettledBatch}
use asteria.PrivateMarket.Settlement.{IsSettled, pair_fills-IsSettled, pair_fills-succeeds}

-- Decimals from zero, as a mantissa and a scale.
instance abbrev small_decimal : FixedDecimal (ℕ × ℕ)
small_decimal = record {
  decimal = record {
    zero = (0, 0);
    compare = λ (m, s) (n, t). compare (m * 10 ^ t) (n * 10 ^ s);
    checked_add = λ (m, s) (n, t). some (m * 10 ^ t + n * 10 ^ s, s + t);
    checked_sub = λ (m, s) (n, t).
        if leb (n * 10 ^ s) (m * 10 ^ t) then some (m * 10 ^ t - n * 10 ^ s, s + t) else none;
    checked_mul = λ (m, s) (n, t). some (m * n, s + t);
    checked_div = λ (m, s) (n, t). if n == 0 then none else some (m * 10 ^ t / n, s);
  };
  one = (1, 0);
  from = λ n. (n, 0);
  mantissa = λ (m, s). pos m;
  scale = λ (m, s). s;
}

abbrev market_config : MarketConfig (ℕ × ℕ)
market_config = record {
  symbol = 66 ∷ [];
  tick_size = (1, 2);
  quantity_step = (1, 3);
  min_quantity = (1, 3);
  max_leverage = 20;
  maintenance_margin_ratio = (5, 2);
  maker_fee_rate = (2, 4);
  taker_fee_rate = (5, 4);
  market_slippage_limit = (5, 2);
  liquidation_penalty_rate = (1, 2);
}

price_aligned : decimal_to_units {D = ℕ × ℕ} (12345, 2) (1, 2) price ≡ ok 12345
unfolding decimal_to_units gcd_loop
price_aligned = refl

coarse_step : decimal_to_units {D = ℕ × ℕ} (15, 1) (5, 3) price ≡ ok 300
unfolding decimal_to_units gcd_loop
coarse_step = refl

decimal_to_units_iff_example : IsUnits {D = ℕ × ℕ} (15, 1) (5, 3) 300
decimal_to_units_iff_example =
    (decimal_to_units_iff {D = ℕ × ℕ} (15, 1) (5, 3) price (omega arith) (omega arith) 300).0
      coarse_step

price_misaligned :
    decimal_to_units {D = ℕ × ℕ} (123451, 3) (1, 2) price
    ≡ err (not_step_aligned price (123451, 3) (1, 2))
unfolding decimal_to_units gcd_loop
price_misaligned = refl

abbrev executed : ℕ → Side → ℕ → ParticipantAllocation (ℕ × ℕ)
executed id side lots = record {
  participant = record {
    visibility = public;
    account_id = id ∷ [];
    order_id = id ∷ [];
    side = side;
    kind = limit;
    time_in_force = ioc;
    quantity = (lots, 3);
    limit_price = some (10000, 2);
    leverage = 1;
    reduce_only = false;
  };
  executed_lots = lots;
  executed_quantity = (lots, 3);
  status = AllocationStatus.filled;
}

-- Two buyers and two sellers of eight lots, not in the order of their ids.
abbrev four_allocations : List (ParticipantAllocation (ℕ × ℕ))
four_allocations = executed 4 sell 3 ∷ executed 2 buy 6 ∷ executed 3 sell 5 ∷ executed 1 buy 2 ∷ []

abbrev fill : ℕ → ℕ → ℕ → BatchFill (ℕ × ℕ)
fill buyer seller lots = record {
  buy_order_id = buyer ∷ [];
  sell_order_id = seller ∷ [];
  buy_account_id = buyer ∷ [];
  sell_account_id = seller ∷ [];
  price_ticks = 10000;
  price = (10000, 2);
  quantity_lots = lots;
  quantity = (lots, 3);
}

abbrev three_fills : List (BatchFill (ℕ × ℕ))
three_fills = fill 1 3 2 ∷ fill 2 3 3 ∷ fill 2 4 3 ∷ []

paired : pair_fills market_config four_allocations (some 10000) (some (10000, 2)) 8 ≡ ok three_fills
unfolding pair_fills sort_by
paired = refl

lots_convert : (n : ℕ) → n ≤ 8 → (q : ℕ × ℕ) × (lots_to_quantity n market_config ≡ ok q)
unfolding lots_to_quantity
lots_convert n small = ((n * 1, 0 + 3), refl)

pair_fills-IsSettled_example :
    (ticks : ℕ) × (value : ℕ × ℕ) × (some 10000 ≡ some ticks)
    × (◌≡◌ {A = Option (ℕ × ℕ)} (some (10000, 2)) (some value))
    × IsSettled market_config four_allocations ticks value 8 three_fills
pair_fills-IsSettled_example =
    pair_fills-IsSettled market_config four_allocations (some 10000) (some (10000, 2)) 8 three_fills
      (omega arith) paired

pair_fills-succeeds_example :
    Returns
      (pair_fills market_config four_allocations (some 10000) (some (10000, 2)) 8)
      (IsSettled market_config four_allocations 10000 (10000, 2) 8)
pair_fills-succeeds_example =
    pair_fills-succeeds market_config four_allocations 10000 (10000, 2) 8 (omega arith)
      (omega arith) refl refl lots_convert

protected_sell : market_protection_price {D = ℕ × ℕ} 10001 (5, 2) sell ≡ ok 9501
unfolding market_protection_price gcd_loop
protected_sell = refl

protected_buy : market_protection_price {D = ℕ × ℕ} 10001 (5, 2) buy ≡ ok 10501
unfolding market_protection_price gcd_loop
protected_buy = refl

market_protection_price-Rounded_example :
    (factor : ℕ × ℕ) × (a : ℕ) × IsFactor {D = ℕ × ℕ} (5, 2) sell factor
    × (small_decimal.mantissa factor ≡ pos a)
    × Rounded true (10001 * a) (10 ^ small_decimal.scale factor) 9501
market_protection_price-Rounded_example =
    market_protection_price-Rounded {D = ℕ × ℕ} 10001 (5, 2) sell 9501 protected_sell

entered :
    to_auction_order market_config 10000 (executed 1 buy 2).participant
    ≡ ok (record {
      id = 1 ∷ [];
      side = Auction.Side.buy;
      kind = Auction.OrderKind.limit 10000;
      time_in_force = Auction.TimeInForce.ioc;
      quantity = 2;
    })
unfolding to_auction_order gcd_loop
entered = refl

abbrev batch_context : BatchContext (ℕ × ℕ)
batch_context = record {
  chain_id = 7 ∷ [];
  height = 4;
  threshold_beacon = 9 ∷ [];
  reference_price = (10000, 2);
}

-- Two buyers of eight lots in all and two sellers of eight.
abbrev four_participants : List (BatchParticipant (ℕ × ℕ))
four_participants = map (λ a. a.participant) four_allocations

abbrev batch_outcome : PrivateBatchOutcome (ℕ × ℕ)
batch_outcome = record {
  allocation_commitment = [];
  clearing_price_ticks = some 10000;
  clearing_price = some (10000, 2);
  matched_lots = 8;
  matched_quantity = (8, 3);
  imbalance_lots = 0;
  allocations = executed 1 buy 2 ∷ executed 2 buy 6 ∷ executed 3 sell 5 ∷ executed 4 sell 3 ∷ [];
  fills = three_fills;
}

cleared_batch :
    clear_private_batch market_config (λ bytes. []) batch_context four_participants
    ≡ ok batch_outcome
unfolding compare_priority clear_private_batch gcd_loop sort_by insert_by clear_batch validate
    validate_orders is_zero_limit seen best_candidate improves candidate_prices insert_price
    evaluate_candidate evaluate_rounds evaluate_ioc_fallback only_ioc combine write_values
    add_to_values nothing_matched is_better_than outcome_of empty_outcome allocation_list status
    sort_allocations allocate_side allocate_groups allocate_group allocate_pro_rata pro_rata_shares
    spread_remainder fill_all fill_fok price_groups join_group eligible_indices eligible_in crosses
    checked_quantity add_quantities checked_values add_values
cleared_batch = refl

clear_private_batch-IsSettledBatch_example :
    IsSettledBatch market_config four_participants batch_outcome
clear_private_batch-IsSettledBatch_example =
    clear_private_batch-IsSettledBatch market_config (λ bytes. []) batch_context four_participants
      batch_outcome cleared_batch
