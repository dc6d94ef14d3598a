-- ===== src/Auction/Allocate.antt =====
-- src/batch_auction.rs: how one side of the book is allocated at a clearing price.
-- `&mut` arguments are passed in and returned; the hash function `Sha256` is a parameter.
use asteria.Base.{
  ℕ, Bool, List, [], ◌∷◌, ◌++◌, Ordering, compare, leb, ◌==◌, if◌then◌else◌, then_with, ◌&&◌, false,
  true, enumerate, sort_by, checked_add, u64_bound, Bytes,
}
use asteria.Base.Result.{Result, ok, ◌>>=◌, ok_or}
use asteria.Auction.Types.{
  compare_bytes, OrderId, Side, buy, sell, OrderKind, limit, market, AuctionOrder, AuctionError,
  arithmetic_overflow, same_side, order_at, quantity_at,
}

-- Whether an order accepts the clearing price.
abbrev crosses_at : Side → OrderKind → ℕ → Bool
crosses_at buy (market protection_price) clearing_price = leb clearing_price protection_price
crosses_at sell (market protection_price) clearing_price = leb protection_price clearing_price
crosses_at buy (limit price) clearing_price = leb clearing_price price
crosses_at sell (limit price) clearing_price = leb price clearing_price

unfoldable pub crosses : AuctionOrder → ℕ → Bool
crosses order clearing_price = crosses_at order.side order.kind clearing_price

-- `then_some(index)` under `filter_map`
unfoldable pub eligible_in : Side → ℕ → List (ℕ × AuctionOrder) → List ℕ
eligible_in side price [] = []
eligible_in side price ((i, order) ∷ rest) =
    if same_side order.side side && crosses order price
    then i ∷ eligible_in side price rest
    else eligible_in side price rest

unfoldable pub eligible_indices : List AuctionOrder → Side → ℕ → List ℕ
unfolding eligible_in
eligible_indices orders side clearing_price = eligible_in side clearing_price (enumerate orders)

-- `try_fold` with `checked_add`, from a running total
unfoldable pub add_quantities : List AuctionOrder → ℕ → List ℕ → Result AuctionError ℕ
add_quantities orders total [] = ok total
add_quantities orders total (i ∷ is) = do
  next ← ok_or (checked_add u64_bound total (quantity_at orders i)) arithmetic_overflow
  add_quantities orders next is

unfoldable pub checked_quantity : List AuctionOrder → List ℕ → Result AuctionError ℕ
unfolding add_quantities
checked_quantity orders indices = add_quantities orders 0 indices

unfoldable pub add_values : ℕ → List ℕ → Result AuctionError ℕ
add_values total [] = ok total
add_values total (v ∷ vs) = do
  next ← ok_or (checked_add u64_bound total v) arithmetic_overflow
  add_values next vs

unfoldable pub checked_values : List ℕ → Result AuctionError ℕ
unfolding add_values
checked_values values = add_values 0 values

pub data PriceGroup : Type 0 where
  market_group : PriceGroup
  limit_group : ℕ → PriceGroup

abbrev pub price_group : AuctionOrder → PriceGroup
price_group order = elim order.kind [ market _ ↦ market_group | limit price ↦ limit_group price ]

abbrev pub same_group : PriceGroup → PriceGroup → Bool
same_group market_group market_group = true
same_group (limit_group p) (limit_group q) = p == q
same_group _ _ = false

abbrev pub compare_groups : Side → PriceGroup → PriceGroup → Ordering
compare_groups side market_group market_group = Ordering.eq
compare_groups side market_group (limit_group _) = Ordering.lt
compare_groups side (limit_group _) market_group = Ordering.gt
compare_groups buy (limit_group left) (limit_group right) = compare right left
compare_groups sell (limit_group left) (limit_group right) = compare left right

abbrev pub economic_priority : Side → AuctionOrder → AuctionOrder → Ordering
economic_priority side left right = compare_groups side (price_group left) (price_group right)

-- The domain separator `ASTERIA_BATCH_AUCTION_ALLOCATION_V1` with its final zero byte.
abbrev allocation_domain : Bytes
allocation_domain =
    65 ∷ 83 ∷ 84 ∷ 69 ∷ 82 ∷ 73 ∷ 65 ∷ 95 ∷ 66 ∷ 65 ∷ 84 ∷ 67 ∷ 72 ∷ 95 ∷ 65 ∷ 85 ∷ 67 ∷ 84 ∷ 73
    ∷ 79 ∷ 78 ∷ 95 ∷ 65 ∷ 76 ∷ 76 ∷ 79 ∷ 67 ∷ 65 ∷ 84 ∷ 73 ∷ 79 ∷ 78 ∷ 95 ∷ 86 ∷ 49 ∷ 0 ∷ []

module _ (sha256 : Bytes → Bytes) where
  pub allocation_priority : Bytes → OrderId → Bytes
  allocation_priority commitment order_id = sha256 (allocation_domain ++ (commitment ++ order_id))

  -- The order among equals: by hash, then by id.
  unfoldable abbrev pub compare_priority : Bytes → AuctionOrder → AuctionOrder → Ordering
  unfolding allocation_priority
  compare_priority commitment left right =
      then_with
        (compare_bytes (allocation_priority commitment left.id)
          (allocation_priority commitment right.id))
        (compare_bytes left.id right.id)

  -- Sorts indices by that order.
  abbrev pub by_priority : Bytes → List AuctionOrder → List ℕ → List ℕ
  by_priority commitment orders =
      sort_by λ i j. compare_priority commitment (order_at orders i) (order_at orders j)
