-- ===== src/Auction/Sides.antt =====
-- src/batch_auction.rs: the loops that write allocations, for one price group and for one side.
-- `&mut` arguments are passed in and returned.
use asteria.Base.{
  ℕ, ◌-◌, ◌/◌, List, [], ◌∷◌, ltb, leb, ◌==◌, if◌then◌else◌, length, set, get_or, replicate, filter,
  sort_by, then_with, checked_add, checked_mul, checked_sub, u64_bound, u128_bound, Bytes,
}
use asteria.Base.Result.{Result, ok, ◌>>=◌, ◌>>◌, ok_or, fail_if}
use asteria.Auction.Types.{
  Side, AuctionOrder, AuctionError, arithmetic_overflow, is_ioc, is_fok, order_at, quantity_at,
}
use asteria.Auction.Allocate.{
  checked_quantity, price_group, same_group, economic_priority, compare_priority, by_priority,
}

-- `for index in group { allocations[index] = orders[index].quantity }`
unfoldable pub fill_all : List AuctionOrder → List ℕ → List ℕ → List ℕ
fill_all orders [] allocations = allocations
fill_all orders (i ∷ is) allocations = fill_all orders is (set allocations i (quantity_at orders i))

-- The loop over the fill-or-kill orders of a group that does not fit as a whole.
unfoldable pub fill_fok : List AuctionOrder → List ℕ → List ℕ → ℕ → Result AuctionError (List ℕ × ℕ)
fill_fok orders [] allocations remaining = ok (allocations, remaining)
fill_fok orders (i ∷ is) allocations remaining =
    let fill : Result AuctionError (List ℕ × ℕ) = do
      left ← ok_or (checked_sub remaining (quantity_at orders i)) arithmetic_overflow
      fill_fok orders is (set allocations i (quantity_at orders i)) left
    in let skip = fill_fok orders is allocations remaining in
      if leb (quantity_at orders i) remaining then fill else skip

-- The floor shares, with the total that they assign.
unfoldable pub pro_rata_shares :
    List AuctionOrder → ℕ → ℕ → List ℕ → List ℕ → ℕ → Result AuctionError (List ℕ × ℕ)
pro_rata_shares orders capacity total [] allocations assigned = ok (allocations, assigned)
pro_rata_shares orders capacity total (i ∷ is) allocations assigned = do
  product ← ok_or (checked_mul u128_bound (quantity_at orders i) capacity) arithmetic_overflow
  let share = product / total
  fail_if (leb u64_bound share) arithmetic_overflow
  next ← ok_or (checked_add u64_bound assigned share) arithmetic_overflow
  pro_rata_shares orders capacity total is (set allocations i share) next

-- One more unit for each order in priority order, while units are left.
unfoldable pub spread_remainder :
    List AuctionOrder → List ℕ → List ℕ → ℕ → Result AuctionError (List ℕ × ℕ)
spread_remainder orders [] allocations remainder = ok (allocations, remainder)
spread_remainder orders (i ∷ is) allocations remainder =
    let bump : Result AuctionError (List ℕ × ℕ) = do
      more ← ok_or (checked_add u64_bound (get_or allocations i 0) 1) arithmetic_overflow
      spread_remainder orders is (set allocations i more) (remainder - 1)
    in let skip = spread_remainder orders is allocations remainder in
      if remainder == 0
      then ok (allocations, remainder)
      else if ltb (get_or allocations i 0) (quantity_at orders i)
      then bump
      else skip

-- Neighbours of the same price group, in runs: `sorted[start..end]` for each round of the loop.
unfoldable pub join_group : List AuctionOrder → ℕ → List (List ℕ) → List (List ℕ)
join_group orders i [] = (i ∷ []) ∷ []
join_group orders i ([] ∷ groups) = (i ∷ []) ∷ [] ∷ groups
join_group orders i ((j ∷ js) ∷ groups) =
    if same_group (price_group (order_at orders j)) (price_group (order_at orders i))
    then (i ∷ j ∷ js) ∷ groups
    else (i ∷ []) ∷ (j ∷ js) ∷ groups

unfoldable pub price_groups : List AuctionOrder → List ℕ → List (List ℕ)
unfolding join_group
price_groups orders [] = []
price_groups orders (i ∷ is) = join_group orders i (price_groups orders is)

module _ (sha256 : Bytes → Bytes) where
  unfoldable pub allocate_pro_rata :
      Bytes → List AuctionOrder → List ℕ → List ℕ → ℕ → Result AuctionError (List ℕ × ℕ)
  allocate_pro_rata commitment orders [] allocations remaining = ok (allocations, remaining)
  allocate_pro_rata commitment orders (i ∷ is) allocations remaining =
      if remaining == 0 then ok (allocations, remaining) else do
        total ← checked_quantity orders (i ∷ is)
        if leb total remaining
            then (do
              left ← ok_or (checked_sub remaining total) arithmetic_overflow
              ok (fill_all orders (i ∷ is) allocations, left))
            else do
              (shares, assigned) ← pro_rata_shares orders remaining total (i ∷ is) allocations 0
              remainder ← ok_or (checked_sub remaining assigned) arithmetic_overflow
              (spread, unplaced) ←
                  spread_remainder orders (by_priority sha256 commitment orders (i ∷ is)) shares
                    remainder
              fail_if (ltb 0 unplaced) arithmetic_overflow
              ok (spread, 0)

  unfoldable pub allocate_group :
      Bytes → List AuctionOrder → List ℕ → List ℕ → ℕ → Result AuctionError (List ℕ × ℕ)
  allocate_group commitment orders group allocations remaining = do
    group_total ← checked_quantity orders group
    if leb group_total remaining
        then (do
          left ← ok_or (checked_sub remaining group_total) arithmetic_overflow
          ok (fill_all orders group allocations, left))
        else do
          let foks = filter (λ i. is_fok (order_at orders i).time_in_force) group
          (filled, left) ←
              fill_fok orders (by_priority sha256 commitment orders foks) allocations remaining
          let iocs = filter (λ i. is_ioc (order_at orders i).time_in_force) group
          allocate_pro_rata commitment orders iocs filled left

  -- The loop over the price groups, which ends early when nothing remains.
  unfoldable pub allocate_groups :
      Bytes → List AuctionOrder → List (List ℕ) → List ℕ → ℕ → Result AuctionError (List ℕ × ℕ)
  allocate_groups commitment orders [] allocations remaining = ok (allocations, remaining)
  allocate_groups commitment orders (group ∷ groups) allocations remaining =
      let round : Result AuctionError (List ℕ × ℕ) = do
        (next, left) ← allocate_group commitment orders group allocations remaining
        allocate_groups commitment orders groups next left
      in if remaining == 0 then ok (allocations, remaining) else round

  -- Sorts the indices of a side by price, then by hash, then by id.
  abbrev pub by_economic_priority : Bytes → List AuctionOrder → Side → List ℕ → List ℕ
  by_economic_priority commitment orders side = sort_by λ i j.
      then_with (economic_priority side (order_at orders i) (order_at orders j))
        (compare_priority sha256 commitment (order_at orders i) (order_at orders j))

  unfoldable pub allocate_side :
      Bytes → List AuctionOrder → List ℕ → Side → ℕ → Result AuctionError (List ℕ)
  allocate_side commitment orders eligible side target = do
    let sorted = by_economic_priority commitment orders side eligible
    (allocations, remaining) ←
        allocate_groups commitment orders (price_groups orders sorted) (replicate (length orders) 0)
          target
    ok allocations
