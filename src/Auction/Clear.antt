-- ===== src/Auction/Clear.antt =====
-- src/batch_auction.rs: validation, and the choice of the clearing price.
use asteria.Base.{
  ℕ, Bool, List, [], ◌∷◌, map, Option, none, some, Ordering, compare, ◌==◌, if◌then◌else◌, true,
  false, length, sort_by, checked_add, u64_bound, Bytes,
}
use asteria.Base.Result.{Result, ok, ◌>>=◌, ◌>>◌, ok_or, fail_if}
use asteria.Auction.Types.{
  compare_bytes, OrderId, buy, sell, OrderKind, limit, market, AuctionOrder, AuctionConfig,
  AllocationStatus, unfilled, partially_filled, filled, Allocation, AuctionOutcome, AuctionError,
  zero_reference_price, zero_limit_price, zero_quantity, duplicate_order_id, arithmetic_overflow,
}
use asteria.Auction.Candidate.{CandidateOutcome, is_better_than, evaluate_candidate}

-- `BTreeSet::contains` on the ids seen so far
unfoldable pub seen : OrderId → List OrderId → Bool
seen id [] = false
seen id (j ∷ ids) = elim (compare_bytes id j) [ Ordering.eq ↦ true | _ ↦ seen id ids ]

unfoldable pub is_zero_limit : OrderKind → Bool
is_zero_limit (limit price) = price == 0
is_zero_limit (market _) = false

-- The loop of `validate`, over the ids seen and the two running totals.
unfoldable pub validate_orders :
    List OrderId → ℕ → ℕ → List AuctionOrder → Result AuctionError (Unit {0})
validate_orders ids buy_total sell_total [] = ok tt
validate_orders ids buy_total sell_total (order ∷ orders) = do
  fail_if (order.quantity == 0) (zero_quantity order.id)
  fail_if (is_zero_limit order.kind) (zero_limit_price order.id)
  fail_if (seen order.id ids) (duplicate_order_id order.id)
  (buys, sells) ← elim order.side [
    | buy ↦ do
      total ← ok_or (checked_add u64_bound buy_total order.quantity) arithmetic_overflow
      ok (total, sell_total)
    | sell ↦ do
      total ← ok_or (checked_add u64_bound sell_total order.quantity) arithmetic_overflow
      ok (buy_total, total)
  ]
  validate_orders (order.id ∷ ids) buys sells orders

unfoldable pub validate : AuctionConfig → List AuctionOrder → Result AuctionError (Unit {0})
unfolding validate_orders
validate config orders = do
  fail_if (config.reference_price == 0) zero_reference_price
  validate_orders [] 0 0 orders

unfoldable pub status : ℕ → ℕ → AllocationStatus
status executed requested =
    if executed == 0 then unfilled else if executed == requested then filled else partially_filled

-- The two halves of the outcome, order by order.
unfoldable pub allocation_list : List AuctionOrder → List ℕ → List Allocation
unfolding status
allocation_list [] quantities = []
allocation_list (order ∷ orders) [] = []
allocation_list (order ∷ orders) (q ∷ qs) =
    record { order_id = order.id; executed_quantity = q; status = status q order.quantity }
    ∷ allocation_list orders qs

unfoldable pub sort_allocations : List Allocation → List Allocation
sort_allocations = sort_by λ left right. compare_bytes left.order_id right.order_id

unfoldable pub empty_outcome : List AuctionOrder → AuctionOutcome
empty_outcome orders = record {
  clearing_price = none;
  matched_quantity = 0;
  imbalance = 0;
  allocations = sort_allocations (
      map (λ order. record { order_id = order.id; executed_quantity = 0; status = unfilled })
        orders);
}

-- `BTreeSet::insert`: ascending, without duplicates
unfoldable pub insert_price : ℕ → List ℕ → List ℕ
insert_price p [] = p ∷ []
insert_price p (q ∷ qs) = elim (compare p q) [
  | Ordering.lt ↦ p ∷ q ∷ qs
  | Ordering.eq ↦ q ∷ qs
  | Ordering.gt ↦ q ∷ insert_price p qs
]

abbrev pub add_candidate : OrderKind → List ℕ → List ℕ
add_candidate (limit price) prices = insert_price price prices
add_candidate (market _) prices = prices

unfoldable pub candidate_prices : List ℕ → List AuctionOrder → List ℕ
candidate_prices prices [] = prices
candidate_prices prices (order ∷ orders) = candidate_prices (add_candidate order.kind prices) orders

-- Whether a candidate replaces the best one so far.
unfoldable pub improves : ℕ → CandidateOutcome → Option CandidateOutcome → Bool
unfolding is_better_than
improves reference_price candidate none = true
improves reference_price candidate (some current) = is_better_than candidate current reference_price

unfoldable pub outcome_of : List AuctionOrder → Option CandidateOutcome → AuctionOutcome
unfolding empty_outcome sort_allocations allocation_list
outcome_of orders none = empty_outcome orders
outcome_of orders (some best) = record {
  clearing_price = some best.price;
  matched_quantity = best.matched_quantity;
  imbalance = best.imbalance;
  allocations = sort_allocations (allocation_list orders best.allocations);
}

module _ (sha256 : Bytes → Bytes) where
  unfoldable pub best_candidate :
      AuctionConfig
      → List AuctionOrder
      → List ℕ
      → Option CandidateOutcome
      → Result AuctionError (Option CandidateOutcome)
  best_candidate config orders [] best = ok best
  best_candidate config orders (price ∷ prices) best = do
    candidate ← evaluate_candidate sha256 config orders price
    best_candidate config orders prices (
        if candidate.matched_quantity == 0
        then best
        else if improves config.reference_price candidate best
        then some candidate
        else best)

  unfoldable pub clear_batch :
      AuctionConfig → List AuctionOrder → Result AuctionError AuctionOutcome
  clear_batch config orders = do
    validate config orders
    if length orders == 0 then ok (empty_outcome orders) else do
      best ←
          best_candidate config orders (candidate_prices (config.reference_price ∷ []) orders) none
      ok (outcome_of orders best)
