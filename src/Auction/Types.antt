-- ===== src/Auction/Types.antt =====
-- src/batch_auction.rs: the data of a batch auction. Prices and quantities are `u64` ticks.
use asteria.Base.{
  Bytes, ℕ, Bool, true, false, List, [], ◌∷◌, Option, compare, Ordering, then_with, get_or,
}

-- An `OrderId` is 32 bytes, compared from the left.
abbrev pub compare_bytes : Bytes → Bytes → Ordering
compare_bytes [] [] = Ordering.eq
compare_bytes [] (b ∷ bs) = Ordering.lt
compare_bytes (a ∷ as') [] = Ordering.gt
compare_bytes (a ∷ as') (b ∷ bs) = then_with (compare a b) (compare_bytes as' bs)

abbrev pub OrderId : Type 0
OrderId = Bytes

pub data Side : Type 0 where
  buy sell : Side

-- A market order carries the worst price that it accepts.
pub data OrderKind : Type 0 where
  limit : ℕ → OrderKind
  market : ℕ → OrderKind

pub data TimeInForce : Type 0 where
  ioc fok : TimeInForce

pub record AuctionOrder : Type 0 where
  pub id : OrderId
  pub side : Side
  pub kind : OrderKind
  pub time_in_force : TimeInForce
  pub quantity : ℕ

pub record AuctionConfig : Type 0 where
  pub reference_price : ℕ
  pub allocation_commitment : Bytes

pub data AllocationStatus : Type 0 where
  unfilled partially_filled filled : AllocationStatus

pub record Allocation : Type 0 where
  pub order_id : OrderId
  pub executed_quantity : ℕ
  pub status : AllocationStatus

pub record AuctionOutcome : Type 0 where
  pub clearing_price : Option ℕ
  pub matched_quantity : ℕ
  pub imbalance : ℕ
  pub allocations : List Allocation

pub data AuctionError : Type 0 where
  zero_reference_price : AuctionError
  zero_limit_price : OrderId → AuctionError
  zero_quantity : OrderId → AuctionError
  duplicate_order_id : OrderId → AuctionError
  arithmetic_overflow : AuctionError
  allocation_did_not_converge : AuctionError

-- The tests `==` of the derived `PartialEq`.
abbrev pub same_side : Side → Side → Bool
same_side buy buy = true
same_side sell sell = true
same_side _ _ = false

abbrev pub is_ioc : TimeInForce → Bool
is_ioc ioc = true
is_ioc fok = false

abbrev pub is_fok : TimeInForce → Bool
is_fok ioc = false
is_fok fok = true

-- `orders[i]`. All indices come from `enumerate` over the same slice; where Rust would panic the
-- model reads an order of quantity zero.
abbrev pub vacant : AuctionOrder
vacant = record { id = []; side = buy; kind = limit 0; time_in_force = ioc; quantity = 0 }

abbrev pub order_at : List AuctionOrder → ℕ → AuctionOrder
order_at orders i = get_or orders i vacant

abbrev pub quantity_at : List AuctionOrder → ℕ → ℕ
quantity_at orders i = (order_at orders i).quantity
