-- ===== src/OrderBook/Types.antt =====
-- src/orderbook.rs: the data of the order book. A `BTreeMap` is the list of its entries by ascending
-- key, and a `VecDeque` is the list of its elements from the front.
use asteria.Base.{ℕ, Bool, true, false, List, Option, none, some}
use asteria.Domain.{Uuid, AccountId, Side, Order, ExchangeError}

pub record RawFill (D : Type 0) : Type 0 where
  pub maker_order_id : Uuid
  pub taker_order_id : Uuid
  pub maker_account_id : AccountId
  pub taker_account_id : AccountId
  pub maker_side : Side
  pub taker_side : Side
  pub maker_leverage : ℕ
  pub taker_leverage : ℕ
  pub price : D
  pub quantity : D
  pub maker_margin_release : D
  pub taker_margin_release : D

-- The `reason` strings.
pub data ReleaseReason : Type 0 where
  self_trade_prevention unfilled_remainder : ReleaseReason

pub record ReservationRelease (D : Type 0) : Type 0 where
  pub account_id : AccountId
  pub order_id : Uuid
  pub amount : D
  pub reason : ReleaseReason

pub record Execution (D : Type 0) : Type 0 where
  pub order : Order D
  pub fills : List (RawFill D)
  pub releases : List (ReservationRelease D)
  pub terminal_orders : List (Order D)

pub record BatchOrderFill (D : Type 0) : Type 0 where
  pub order : Order D
  pub margin_release : D
  pub terminal : Bool

abbrev pub Levels : Type 0 → Type 0
Levels D = List (D × List Uuid)

pub record Book (D : Type 0) : Type 0 where
  pub bids : Levels D
  pub asks : Levels D
  pub orders : List (Uuid × Order D)

-- How a call ends: a value, a returned error, a panic (an index that is missing, an `expect`, an
-- overflow of `+=` or `-=`), or the model's fuel running out.
pub data Run (A : Type 0) : Type 0 where
  ok : A → Run A
  err : ExchangeError → Run A
  panic out_of_fuel : Run A

infixl 5 ◌>>=◌ ◌>>◌
abbrev pub ◌>>=◌ : {A B : Type 0} → Run A → (A → Run B) → Run B
◌>>=◌ m f = elim m [ ok a ↦ f a | err e ↦ err e | panic ↦ panic | out_of_fuel ↦ out_of_fuel ]

abbrev pub ◌>>◌ : {A B : Type 0} → Run A → Run B → Run B
m >> k = m >>= λ _. k

-- `expect`, an index, or an operator that panics on overflow
abbrev pub expect : {A : Type 0} → Option A → Run A
expect (some a) = ok a
expect none = panic

abbrev pub ok_or : {A : Type 0} → Option A → ExchangeError → Run A
ok_or (some a) e = ok a
ok_or none e = err e

abbrev pub fail_if : Bool → ExchangeError → Run (Unit {0})
fail_if true e = err e
fail_if false e = ok tt
