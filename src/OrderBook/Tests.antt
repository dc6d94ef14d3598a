-- ===== src/OrderBook/Tests.antt =====
-- Runs of the order book on whole numbers, as prices and quantities of the unit tests of
-- src/orderbook.rs are, and the theorems at these inputs.
use asteria.Base.{
  ℕ, ◌≡◌, ◌⊎◌, ◌+◌, ◌-◌, ◌*◌, ◌/◌, refl, [], ◌∷◌, some, none, true, false, arith, compare, leb,
  if◌then◌else◌, ◌==◌, All, lookup, insert, Bytes, bytes_eq,
}
use asteria.Domain.{
  Side, buy, sell, limit, gtc, open_, Order, cancelled, order_not_found, order_ownership,
  invalid_order,
}
use asteria.Decimal.{Decimal, DecimalLaws, leb_dec, ltb_dec}
use asteria.OrderBook.Types.{Book, Execution, BatchOrderFill, ok, err}
use asteria.OrderBook.Levels.{push_entry, push_level}
use asteria.OrderBook.Cancel.{cancel}
use asteria.OrderBook.Match.{execute}
use asteria.OrderBook.Active.{apply_batch_fill}
use asteria.OrderBook.WellFormed.{levels_of, LevelOk, Ascending, WellFormed}
use asteria.OrderBook.Pushed.{pushed-WellFormed}
use asteria.OrderBook.Report.{GoodFill, BestFirst, consume, quantities, taker_releases}
use asteria.OrderBook.Execute.{Incoming, IsFilled, IsResting, IsCancelled, MarginKept}
use asteria.OrderBook.Trading.{
  IsCancel, execute-WellFormed, execute-fills, execute-outcome, execute-margin, cancel_cases,
}
use asteria.OrderBook.BatchFill.{IsBatchFill, apply_batch_fill_cases}

-- Whole numbers from zero, as a stand-in for `Decimal`.
instance abbrev whole : Decimal ℕ
whole = record {
  zero = 0;
  compare = compare;
  checked_add = λ a b. some (a + b);
  checked_sub = λ a b. if leb b a then some (a - b) else none;
  checked_mul = λ a b. some (a * b);
  checked_div = λ a b. if b == 0 then none else some (a / b);
}

whole-sub_bounds :
    (a b : ℕ)
    → leb_dec {D = ℕ} 0 b ≡ true
    → leb_dec b a ≡ true
    → (c : ℕ) × (whole.checked_sub a b ≡ some c) × (leb_dec 0 c ≡ true) × (leb_dec c a ≡ true)
whole-sub_bounds a b low high = (a - b, ground arith, ground arith, ground arith)

whole_laws : DecimalLaws whole
whole_laws = record {
  compare_refl = λ a. ground arith;
  compare_eq = λ a b h. ground arith;
  compare_swap = λ a b. ground arith;
  compare_trans = λ a b c h k. ground arith;
  sub_self = λ a. ground arith;
  sub_bounds = whole-sub_bounds;
}

abbrev order_at : ℕ → Bytes → Side → ℕ → ℕ → Order ℕ
order_at id account side price quantity = record {
  id = id;
  account_id = account;
  client_order_id = [];
  symbol = [];
  side = side;
  kind = limit;
  quantity = quantity;
  remaining = quantity;
  limit_price = price;
  leverage = 1;
  time_in_force = gtc;
  reduce_only = false;
  reserved_margin = 10;
  sequence = id;
  status = open_;
}

abbrev resting_ask : Order ℕ
resting_ask = order_at 1 (7 ∷ []) sell 100 4

abbrev taker : Order ℕ
taker = order_at 2 (8 ∷ []) buy 110 10

abbrev empty : Book ℕ
empty = record { bids = []; asks = []; orders = [] }

empty-WellFormed : WellFormed empty
unfolding lookup
empty-WellFormed = record {
  queues = no_levels;
  ascending = none_ascending;
  placed = λ id o h. absurd (cc);
  uncrossed = tt;
}
  where
    no_levels : (side : Side) → All (LevelOk [] side) (levels_of empty side)
    no_levels buy = tt
    no_levels sell = tt

    none_ascending : (side : Side) → Ascending (levels_of empty side)
    none_ascending buy = tt
    none_ascending sell = tt

-- The book that holds the resting sell order.
abbrev book : Book ℕ
book = record { bids = []; asks = (100, 1 ∷ []) ∷ []; orders = (1, resting_ask) ∷ [] }

book-WellFormed : WellFormed book
unfolding push_level push_entry insert lookup
book-WellFormed =
    pushed-WellFormed whole_laws empty resting_ask empty-WellFormed refl
      (record { active = refl; positive = refl; margin = refl }) tt

taker-Incoming : Incoming book taker
unfolding lookup
taker-Incoming = record { fresh = refl; left_low = refl; left_high = refl; margin_low = refl }

execute-WellFormed_example :
    (next : Book ℕ) × (e : Execution ℕ) × (execute book taker ≡ ok (next, e)) × WellFormed next
execute-WellFormed_example = execute-WellFormed whole_laws book book-WellFormed taker taker-Incoming

execute-fills_example :
    (next : Book ℕ) × (e : Execution ℕ) × (execute book taker ≡ ok (next, e))
    × All (GoodFill book taker) e.fills
    × BestFirst buy e.fills
    × (consume 10 (quantities e.fills) ≡ some e.order.remaining)
execute-fills_example = execute-fills whole_laws book book-WellFormed taker taker-Incoming

execute-outcome_example :
    (next : Book ℕ) × (e : Execution ℕ) × (execute book taker ≡ ok (next, e))
    × (IsFilled taker next e ⊎ (IsResting taker next e ⊎ IsCancelled taker next e))
execute-outcome_example = execute-outcome whole_laws book book-WellFormed taker taker-Incoming

execute-margin_example :
    (next : Book ℕ) × (e : Execution ℕ) × (execute book taker ≡ ok (next, e))
    × (left : ℕ) × (consume 10 (taker_releases e.fills) ≡ some left)
    × MarginKept taker e left
execute-margin_example = execute-margin whole_laws book book-WellFormed taker taker-Incoming

cancel_cases_example :
    ((lookup 1 book.orders ≡ none) × (cancel book 1 (7 ∷ []) ≡ err (order_not_found 1)))
    ⊎ ((o : Order ℕ) × (lookup 1 book.orders ≡ some o)
        × (((bytes_eq o.account_id (7 ∷ []) ≡ false)
              × (cancel book 1 (7 ∷ []) ≡ err (order_ownership 1)))
            ⊎ ((bytes_eq o.account_id (7 ∷ []) ≡ true)
                × (next : Book ℕ) × (cancel book 1 (7 ∷ [])
                    ≡ ok (next, record o { status = cancelled }))
                × IsCancel book 1 next)))
cancel_cases_example = cancel_cases whole_laws book book-WellFormed 1 (7 ∷ [])

apply_batch_fill_cases_example :
    ((leb_dec {D = ℕ} 3 0 ≡ true) × (apply_batch_fill book 1 3 ≡ (book, err invalid_order)))
    ⊎ ((ltb_dec {D = ℕ} 0 3 ≡ true)
        × (((lookup 1 book.orders ≡ none)
              × (apply_batch_fill book 1 3 ≡ (book, err (order_not_found 1))))
            ⊎ ((o : Order ℕ) × (lookup 1 book.orders ≡ some o)
                × (((ltb_dec o.remaining 3 ≡ true)
                      × (apply_batch_fill book 1 3 ≡ (book, err invalid_order)))
                    ⊎ ((leb_dec 3 o.remaining ≡ true)
                        × (next : Book ℕ) × (fill : BatchOrderFill ℕ) × (apply_batch_fill book 1 3
                            ≡ (next, ok fill))
                        × IsBatchFill book 1 3 o next fill)))))
apply_batch_fill_cases_example = apply_batch_fill_cases whole_laws book book-WellFormed 1 3
