-- ===== src/Auction/Candidate.antt =====
-- src/batch_auction.rs: the outcome at one candidate price.
use asteria.Base.{
  ℕ, zero, suc, Bool, List, [], ◌∷◌, compare, ◌==◌, if◌then◌else◌, then_with, is_gt, length,
  replicate, filter, checked_add, checked_mul, u64_bound, abs_diff, min, Bytes,
}
use asteria.Base.Result.{Result, ok, ◌>>=◌, ok_or}
use asteria.Auction.Types.{
  buy, sell, AuctionOrder, AuctionConfig, AuctionError, arithmetic_overflow, is_ioc, order_at,
}
use asteria.Auction.Allocate.{eligible_indices, checked_quantity, checked_values}
use asteria.Auction.Sides.{allocate_side}

pub record CandidateOutcome : Type 0 where
  pub price : ℕ
  pub matched_quantity : ℕ
  pub imbalance : ℕ
  pub allocations : List ℕ

unfoldable pub is_better_than : CandidateOutcome → CandidateOutcome → ℕ → Bool
is_better_than this other reference_price = is_gt (
    then_with (compare this.matched_quantity other.matched_quantity) (
      then_with (compare other.imbalance this.imbalance) (
        then_with
          (compare (abs_diff other.price reference_price) (abs_diff this.price reference_price))
          (compare other.price this.price))))

-- The candidate in which nothing trades.
unfoldable pub nothing_matched : List AuctionOrder → ℕ → ℕ → CandidateOutcome
nothing_matched orders price imbalance = record {
  price = price;
  matched_quantity = 0;
  imbalance = imbalance;
  allocations = replicate (length orders) 0;
}

-- The loops that copy the buys into the zeros, and add the sells.
unfoldable pub write_values : List ℕ → List ℕ → List ℕ
write_values [] values = []
write_values (a ∷ as') [] = a ∷ as'
write_values (a ∷ as') (v ∷ vs) = v ∷ write_values as' vs

unfoldable pub add_to_values : List ℕ → List ℕ → Result AuctionError (List ℕ)
add_to_values [] values = ok []
add_to_values (a ∷ as') [] = ok (a ∷ as')
add_to_values (a ∷ as') (v ∷ vs) = do
  total ← ok_or (checked_add u64_bound a v) arithmetic_overflow
  rest ← add_to_values as' vs
  ok (total ∷ rest)

unfoldable pub combine :
    List AuctionOrder → ℕ → ℕ → ℕ → List ℕ → List ℕ → Result AuctionError CandidateOutcome
combine orders price imbalance target buys sells = do
  let bought = write_values (replicate (length orders) 0) buys
  allocations ← add_to_values bought sells
  ok (record {
    price = price;
    matched_quantity = target;
    imbalance = imbalance;
    allocations = allocations;
  })

unfoldable pub only_ioc : List AuctionOrder → List ℕ → List ℕ
only_ioc orders = filter λ i. is_ioc (order_at orders i).time_in_force

module _ (sha256 : Bytes → Bytes) where
  unfoldable pub evaluate_ioc_fallback :
      AuctionConfig
      → List AuctionOrder
      → ℕ
      → List ℕ
      → List ℕ
      → ℕ
      → Result AuctionError CandidateOutcome
  evaluate_ioc_fallback config orders price eligible_buys eligible_sells imbalance = do
    let ioc_buys = only_ioc orders eligible_buys
    let ioc_sells = only_ioc orders eligible_sells
    buy_total ← checked_quantity orders ioc_buys
    sell_total ← checked_quantity orders ioc_sells
    let target = min buy_total sell_total
    if target == 0 then ok (nothing_matched orders price imbalance) else do
      buys ← allocate_side sha256 config.allocation_commitment orders ioc_buys buy target
      sells ← allocate_side sha256 config.allocation_commitment orders ioc_sells sell target
      combine orders price imbalance target buys sells

  -- `for _ in 0..max_rounds`, then the fallback
  unfoldable pub evaluate_rounds :
      ℕ
      → AuctionConfig
      → List AuctionOrder
      → ℕ
      → List ℕ
      → List ℕ
      → ℕ
      → ℕ
      → Result AuctionError CandidateOutcome
  evaluate_rounds zero config orders price eligible_buys eligible_sells imbalance target =
      evaluate_ioc_fallback config orders price eligible_buys eligible_sells imbalance
  evaluate_rounds (suc rounds) config orders price eligible_buys eligible_sells imbalance target =
      do
        buys ← allocate_side sha256 config.allocation_commitment orders eligible_buys buy target
        sells ← allocate_side sha256 config.allocation_commitment orders eligible_sells sell target
        buy_executed ← checked_values buys
        sell_executed ← checked_values sells
        let next_target = min buy_executed sell_executed
        let again =
            evaluate_rounds rounds config orders price eligible_buys eligible_sells imbalance
              next_target
        if next_target == target
            then combine orders price imbalance target buys sells
            else if next_target == 0
            then ok (nothing_matched orders price imbalance)
            else again

  unfoldable pub evaluate_candidate :
      AuctionConfig → List AuctionOrder → ℕ → Result AuctionError CandidateOutcome
  evaluate_candidate config orders price = do
    let eligible_buys = eligible_indices orders buy price
    let eligible_sells = eligible_indices orders sell price
    buy_total ← checked_quantity orders eligible_buys
    sell_total ← checked_quantity orders eligible_sells
    let imbalance = abs_diff buy_total sell_total
    let target = min buy_total sell_total
    if target == 0 then ok (nothing_matched orders price imbalance) else do
      rounds ← ok_or (checked_mul u64_bound (length orders) 4) arithmetic_overflow
      max_rounds ← ok_or (checked_add u64_bound rounds 8) arithmetic_overflow
      evaluate_rounds max_rounds config orders price eligible_buys eligible_sells imbalance target
