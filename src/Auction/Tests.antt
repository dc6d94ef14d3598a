-- ===== src/Auction/Tests.antt =====
-- Runs of the batch auction on the orders of the source's unit tests, with a stand-in for SHA-256,
-- and the theorems at these inputs.
use asteria.Base.{
  ℕ, ◌≡◌, refl, List, [], ◌∷◌, some, arith, Sorted, All, sort_by, insert_by, Option, ◌↔◌, Bytes,
}
use asteria.Base.Result.{Result, ok, Returns}
use asteria.Auction.Types.{
  Side, buy, sell, limit, AuctionOrder, ioc, fok, TimeInForce, AuctionConfig, AuctionOutcome,
  AuctionError, Allocation, AllocationStatus, filled, partially_filled, unfilled,
}
use asteria.Auction.Clear.{
  clear_batch, validate, validate_orders, is_zero_limit, seen, best_candidate, improves,
  candidate_prices, insert_price, outcome_of, empty_outcome, allocation_list, status,
  sort_allocations,
}
use asteria.Auction.Validate.{IsValid, validate_iff}
use asteria.Auction.Outcome.{IsCleared}
use asteria.Auction.Best.{IsChoice, AtPrice}
use asteria.Auction.Optimal.{
  IsCandidatePrice, IsPreferredAt, clear_batch-IsCleared, clear_batch-optimal,
  clear_batch-succeeds_iff,
}
use asteria.Auction.Candidate.{
  CandidateOutcome, evaluate_candidate, evaluate_rounds, evaluate_ioc_fallback, only_ioc, combine,
  write_values, add_to_values, nothing_matched, is_better_than,
}
use asteria.Auction.Sides.{
  allocate_side, allocate_groups, allocate_group, allocate_pro_rata, pro_rata_shares,
  spread_remainder, fill_all, fill_fok, price_groups, join_group,
}
use asteria.Auction.Allocate.{
  eligible_indices, eligible_in, crosses, checked_quantity, add_quantities, checked_values,
  add_values,
}
use asteria.Auction.Listing.{compare_ids, clear_batch-Sorted}

abbrev stand_in : Bytes → Bytes
stand_in bytes = bytes

abbrev limit_order : ℕ → Side → ℕ → ℕ → TimeInForce → AuctionOrder
limit_order id side price quantity time_in_force = record {
  id = id ∷ [];
  side = side;
  kind = limit price;
  time_in_force = time_in_force;
  quantity = quantity;
}

abbrev config : AuctionConfig
config = record { reference_price = 100; allocation_commitment = 165 ∷ [] }

-- `selects_maximum_volume_before_other_ties`
abbrev batch : List AuctionOrder
batch =
    limit_order 1 buy 110 5 ioc
    ∷ limit_order 2 buy 100 5 ioc
    ∷ limit_order 3 sell 90 8 ioc
    ∷ limit_order 4 sell 105 4 fok
    ∷ []

abbrev entry : ℕ → ℕ → AllocationStatus → Allocation
entry id executed_quantity status = record {
  order_id = id ∷ [];
  executed_quantity = executed_quantity;
  status = status;
}

abbrev cleared : AuctionOutcome
cleared = record {
  clearing_price = some 100;
  matched_quantity = 8;
  imbalance = 2;
  allocations =
      entry 1 5 filled ∷ entry 2 3 partially_filled ∷ entry 3 8 filled ∷ entry 4 0 unfilled ∷ [];
}

-- A run of `clear_batch` that computes.
run_batch : Result AuctionError AuctionOutcome
unfolding clear_batch validate validate_orders is_zero_limit seen best_candidate improves
    candidate_prices insert_price evaluate_candidate evaluate_rounds evaluate_ioc_fallback only_ioc
    combine write_values add_to_values nothing_matched is_better_than outcome_of empty_outcome
    allocation_list status sort_allocations allocate_side allocate_groups allocate_group
    allocate_pro_rata pro_rata_shares spread_remainder fill_all fill_fok price_groups join_group
    eligible_indices eligible_in crosses checked_quantity add_quantities checked_values add_values
    sort_by insert_by
run_batch = clear_batch stand_in config batch

clears_batch : clear_batch stand_in config batch ≡ ok cleared
unfolding run_batch
clears_batch = refl

batch-IsValid : IsValid config batch
batch-IsValid = ground arith

validate_iff_example : (validate config batch ≡ ok tt) ↔ IsValid config batch
validate_iff_example = validate_iff config batch

clear_batch-IsCleared_example : Returns (clear_batch stand_in config batch) (IsCleared batch)
clear_batch-IsCleared_example =
    clear_batch-IsCleared stand_in config batch batch-IsValid (omega arith)

clear_batch-optimal_example : Returns (clear_batch stand_in config batch) (λ outcome.
    (best : Option CandidateOutcome) × (outcome ≡ outcome_of batch best)
    × IsChoice stand_in config batch best
    × AtPrice stand_in config batch (IsCandidatePrice stand_in config batch) best
    × IsPreferredAt stand_in config batch best 100
    × All (λ o. (p : ℕ) → o.kind ≡ limit p → IsPreferredAt stand_in config batch best p) batch)
clear_batch-optimal_example = clear_batch-optimal stand_in config batch batch-IsValid (omega arith)

clear_batch-succeeds_iff_example :
    ((outcome : AuctionOutcome) × (clear_batch stand_in config batch ≡ ok outcome))
    ↔ IsValid config batch
clear_batch-succeeds_iff_example = clear_batch-succeeds_iff stand_in config batch (omega arith)

clear_batch-Sorted_example : Sorted compare_ids cleared.allocations
clear_batch-Sorted_example = clear_batch-Sorted stand_in config batch clears_batch
