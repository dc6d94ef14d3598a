-- ===== src/PrivateMarket/Clearing.antt =====
-- src/private_market.rs: `allocation_commitment` and `clear_private_batch`, which puts the orders of the
-- participants through the auction and settles what comes out.
use asteria.Base.{
  ℕ, ◌+◌, Bool, true, false, not, List, [], ◌∷◌, ◌++◌, Option, none, some, Bytes, bytes_eq,
  be_bytes, ◌==◌, ltb, ◌||◌, ◌&&◌, length, replicate, if◌then◌else◌, checked_add, u64_bound,
}
use asteria.Base.Result.{Result, ok, err, ◌>>=◌, ◌>>◌, ok_or, fail_if, map_err}
use asteria.Auction.Types.{OrderId, AuctionOrder, AuctionOutcome, Allocation}
use asteria.Auction.Clear.{clear_batch, seen}
use asteria.Domain.{Side, buy, sell, TimeInForce, fok, MarketConfig}
use asteria.PrivateMarket.Types.{
  FixedDecimal, CiphertextId, ParticipantVisibility, public, private, BatchParticipant,
  BatchContext, ParticipantAllocation, PrivateBatchOutcome, PrivateMarketError, invalid_chain_id,
  zero_height, invalid_market_id, invalid_threshold_beacon, duplicate_ciphertext_id,
  invalid_participant, duplicate_id, missing_allocation, unknown_allocation, fok_not_atomic,
  allocation_conservation, arithmetic_overflow, panicked,
}
use asteria.PrivateMarket.Units.{price_to_ticks, ticks_to_price, quantity_to_lots, lots_to_quantity}
use asteria.PrivateMarket.Orders.{validate_market_steps, to_auction_order}
use asteria.PrivateMarket.Pairing.{pair_fills}
use asteria.PrivateMarket.ById.{ById, find_by_id, insert_by_id, remove_by_id}

abbrev pub max_chain_id_bytes : ℕ
max_chain_id_bytes = 128

abbrev pub max_market_id_bytes : ℕ
max_market_id_bytes = 64

-- `ASTERIA_PRIVATE_MARKET_ALLOCATION_COMMITMENT_V2` and a zero byte
abbrev pub allocation_commitment_domain : Bytes
allocation_commitment_domain =
    65 ∷ 83 ∷ 84 ∷ 69 ∷ 82 ∷ 73 ∷ 65 ∷ 95 ∷ 80 ∷ 82 ∷ 73 ∷ 86 ∷ 65 ∷ 84 ∷ 69 ∷ 95 ∷ 77 ∷ 65 ∷ 82
    ∷ 75 ∷ 69 ∷ 84 ∷ 95 ∷ 65 ∷ 76 ∷ 76 ∷ 79 ∷ 67 ∷ 65 ∷ 84 ∷ 73 ∷ 79 ∷ 78 ∷ 95 ∷ 67 ∷ 79 ∷ 77 ∷ 77
    ∷ 73 ∷ 84 ∷ 77 ∷ 69 ∷ 78 ∷ 84 ∷ 95 ∷ 86 ∷ 50 ∷ 0 ∷ []

abbrev pub is_fok : TimeInForce → Bool
is_fok fok = true
is_fok _ = false

-- Whether a ciphertext was seen before; a public order has none.
abbrev pub is_seen : ParticipantVisibility → List CiphertextId → Bool
is_seen public ids = false
is_seen (private ciphertext_id) ids = seen ciphertext_id ids

abbrev pub see_ciphertext : ParticipantVisibility → List CiphertextId → List CiphertextId
see_ciphertext public ids = ids
see_ciphertext (private ciphertext_id) ids = ciphertext_id ∷ ids

-- The lots executed so far for buys and for sells, with more of them on one side.
unfoldable pub add_lots : {D : Type 0} → Side → ℕ → ℕ × ℕ → Result (PrivateMarketError D) (ℕ × ℕ)
add_lots buy lots (buy_lots, sell_lots) = do
  total ← ok_or (checked_add u64_bound buy_lots lots) arithmetic_overflow
  ok (total, sell_lots)
add_lots sell lots (buy_lots, sell_lots) = do
  total ← ok_or (checked_add u64_bound sell_lots lots) arithmetic_overflow
  ok (buy_lots, total)

module _ {D : Type 0} where
  -- How many participants have an id.
  unfoldable pub count_id : OrderId → List (BatchParticipant D) → ℕ
  count_id id [] = 0
  count_id id (other ∷ others) =
      let rest = count_id id others in if bytes_eq other.order_id id then rest + 1 else rest

  -- The first participant, from a point of the list on, whose id stands more than once in it.
  unfoldable pub find_duplicate :
      List (BatchParticipant D) → List (BatchParticipant D) → Option OrderId
  unfolding count_id
  find_duplicate all [] = none
  find_duplicate all (participant ∷ participants) =
      let rest = find_duplicate all participants in
      if ltb 1 (count_id participant.order_id all) then some participant.order_id else rest

  unfoldable pub participants_by_id :
      List (BatchParticipant D) → ById (BatchParticipant D) → ById (BatchParticipant D)
  unfolding insert_by_id
  participants_by_id [] entries = entries
  participants_by_id (participant ∷ participants) entries =
      participants_by_id participants (insert_by_id participant.order_id participant entries)

  -- The search is for the error's text; it panics if it finds none.
  unfoldable pub check_distinct :
      List (BatchParticipant D)
      → ById (BatchParticipant D)
      → Result (PrivateMarketError D) (Unit {0})
  unfolding find_duplicate
  check_distinct participants entries =
      if length entries == length participants
      then ok tt
      else elim (find_duplicate participants participants) [
        | some order_id ↦ err (invalid_participant order_id duplicate_id)
        | none ↦ err panicked
      ]

  unfoldable pub index_allocations :
      ById (BatchParticipant D)
      → List Allocation
      → ById Allocation
      → Result (PrivateMarketError D) (ById Allocation)
  unfolding find_by_id insert_by_id
  index_allocations participants [] entries = ok entries
  index_allocations participants (allocation ∷ allocations) entries =
      let rest =
        index_allocations participants allocations
          (insert_by_id allocation.order_id allocation entries) in
      elim (find_by_id allocation.order_id participants) [
        | none ↦ err (unknown_allocation allocation.order_id)
        | some _ ↦ rest
      ]

  -- What is left after the loop was for no participant.
  unfoldable pub check_used : ById Allocation → Result (PrivateMarketError D) (Unit {0})
  check_used [] = ok tt
  check_used ((order_id, _) ∷ _) = err (unknown_allocation order_id)

  unfoldable pub allocation_commitment :
      (Bytes → Bytes) → Bytes → ℕ → Bytes → Bytes → Result (PrivateMarketError D) Bytes
  allocation_commitment sha256 chain_id height market_id threshold_beacon = do
    fail_if (length chain_id == 0 || ltb max_chain_id_bytes (length chain_id)) invalid_chain_id
    fail_if (height == 0) zero_height
    fail_if (length market_id == 0 || ltb max_market_id_bytes (length market_id)) invalid_market_id
    fail_if (bytes_eq threshold_beacon (replicate 32 0)) invalid_threshold_beacon
    ok (
        sha256 (
          allocation_commitment_domain
          ++ be_bytes 8 (length chain_id)
          ++ chain_id
          ++ be_bytes 8 height
          ++ be_bytes 8 (length market_id)
          ++ market_id
          ++ threshold_beacon))

  module _ ⦃fixed : FixedDecimal D⦄ (config : MarketConfig D) where
    unfoldable pub collect_orders :
        ℕ
        → List (BatchParticipant D)
        → List CiphertextId
        → Result (PrivateMarketError D) (List AuctionOrder)
    unfolding to_auction_order seen
    collect_orders reference_price [] ids = ok []
    collect_orders reference_price (participant ∷ participants) ids = do
      fail_if (is_seen participant.visibility ids) duplicate_ciphertext_id
      order ← to_auction_order config reference_price participant
      orders ←
          collect_orders reference_price participants (see_ciphertext participant.visibility ids)
      ok (order ∷ orders)

    -- A fill-or-kill order executes in full or not at all.
    unfoldable pub check_atomic : BatchParticipant D → ℕ → Result (PrivateMarketError D) (Unit {0})
    unfolding quantity_to_lots
    check_atomic participant executed =
        if is_fok participant.time_in_force && not (executed == 0)
        then (do
          lots ← quantity_to_lots participant.quantity config
          fail_if (not (executed == lots)) (fok_not_atomic participant.order_id))
        else ok tt

    -- The loop over the participants in order of their ids, with the allocations that are left and the
    -- lots of the two sides.
    unfoldable pub restore :
        ById (BatchParticipant D)
        → ById Allocation
        → ℕ × ℕ
        → Result
            (PrivateMarketError D)
            (List (ParticipantAllocation D) × (ById Allocation × (ℕ × ℕ)))
    unfolding find_by_id remove_by_id check_atomic add_lots lots_to_quantity
    restore [] entries totals = ok ([], (entries, totals))
    restore ((order_id, participant) ∷ participants) entries totals = do
      allocation ← ok_or (find_by_id order_id entries) (missing_allocation order_id)
      check_atomic participant allocation.executed_quantity
      next ← add_lots participant.side allocation.executed_quantity totals
      executed ← lots_to_quantity allocation.executed_quantity config
      (restored, rest) ← restore participants (remove_by_id order_id entries) next
      ok (
        record {
          participant = participant;
          executed_lots = allocation.executed_quantity;
          executed_quantity = executed;
          status = allocation.status;
        }
            ∷ restored,
        rest,
      )

    -- `map(..).transpose()?`
    unfoldable pub to_clearing_price : Option ℕ → Result (PrivateMarketError D) (Option D)
    unfolding ticks_to_price
    to_clearing_price none = ok none
    to_clearing_price (some ticks) = do price ← ticks_to_price ticks config; ok (some price)

    -- From the auction's outcome on.
    unfoldable pub settle_batch :
        List (BatchParticipant D)
        → Bytes
        → AuctionOutcome
        → Result (PrivateMarketError D) (PrivateBatchOutcome D)
    unfolding participants_by_id check_distinct index_allocations restore check_used
        to_clearing_price pair_fills
    settle_batch participants commitment auction = do
      let by_id = participants_by_id participants []
      check_distinct participants by_id
      allocations ← index_allocations by_id auction.allocations []
      (restored, (unused, (buy_lots, sell_lots))) ← restore by_id allocations (0, 0)
      check_used unused
      fail_if (not (buy_lots == sell_lots) || not (buy_lots == auction.matched_quantity))
          allocation_conservation
      price ← to_clearing_price auction.clearing_price
      fills ← pair_fills config restored auction.clearing_price price auction.matched_quantity
      matched ← lots_to_quantity auction.matched_quantity config
      ok (record {
        allocation_commitment = commitment;
        clearing_price_ticks = auction.clearing_price;
        clearing_price = price;
        matched_lots = auction.matched_quantity;
        matched_quantity = matched;
        imbalance_lots = auction.imbalance;
        allocations = restored;
        fills = fills;
      })

    unfoldable pub clear_private_batch :
        (Bytes → Bytes)
        → BatchContext D
        → List (BatchParticipant D)
        → Result (PrivateMarketError D) (PrivateBatchOutcome D)
    unfolding validate_market_steps price_to_ticks collect_orders allocation_commitment settle_batch
    clear_private_batch sha256 context participants = do
      validate_market_steps config
      reference_price ← price_to_ticks context.reference_price config
      orders ← collect_orders reference_price participants []
      commitment ←
          allocation_commitment sha256 context.chain_id context.height config.symbol
            context.threshold_beacon
      auction ← map_err PrivateMarketError.auction (
          clear_batch sha256
            (record { reference_price = reference_price; allocation_commitment = commitment })
            orders)
      settle_batch participants commitment auction
