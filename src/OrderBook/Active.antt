-- ===== src/OrderBook/Active.antt =====
-- src/orderbook.rs: the active orders, batch fills, and the queries on the book.
use asteria.Base.{
  ℕ, Bool, true, false, not, List, [], ◌∷◌, ◌++◌, map, Option, none, some, ◌&&◌, ◌||◌,
  if◌then◌else◌, length, filter, take, Ordering, compare, then_with, sort_by, lookup, insert, erase,
  bytes_eq,
}
use mathlib.Core.List.{reverse}
use asteria.Domain.{
  Uuid, AccountId, Symbol, Side, buy, sell, same_side, filled, partially_filled, is_active, Order,
  PriceLevel, BookSnapshot, order_not_found, invalid_order, internal,
}
use asteria.Decimal.{Decimal, leb_dec, ltb_dec, is_zero}
use asteria.OrderBook.Types.{
  BatchOrderFill, Levels, Book, Run, ok, err, panic, out_of_fuel, ◌>>=◌, ◌>>◌, expect, ok_or,
  fail_if,
}
use asteria.OrderBook.Release.{proportional_release}
use asteria.OrderBook.Levels.{remove_from_level}

-- `map` over the values of a map
abbrev pub values : {V : Type 0} → List (Uuid × V) → List V
values [] = []
values ((k, v) ∷ m) = v ∷ values m

-- By sequence, then by id.
abbrev pub compare_fifo : {D : Type 0} → Order D → Order D → Ordering
compare_fifo left right =
    then_with (compare left.sequence right.sequence) (compare left.id right.id)

module _ {D : Type 0} ⦃decimal : Decimal D⦄ where
  unfoldable pub order : Book D → Uuid → Option (Order D)
  order self id = lookup id self.orders

  abbrev pub active : List (Order D) → List (Order D)
  active = filter λ o. is_active o.status

  unfoldable pub active_orders : Book D → List (Order D)
  active_orders self =
      sort_by (λ left right. compare left.id right.id) (active (values self.orders))

  -- `remove` of each id, with the orders that were there.
  unfoldable pub remove_all :
      List Uuid → List (Uuid × Order D) → List (Order D) × List (Uuid × Order D)
  remove_all [] orders = ([], orders)
  remove_all (id ∷ ids) orders =
      let (removed, left) = remove_all ids (erase id orders) in
      elim (lookup id orders) [ none ↦ (removed, left) | some o ↦ (o ∷ removed, left) ]

  unfoldable pub take_active_orders : Book D → List (Order D) × Book D
  take_active_orders self =
      let ids = map (λ o. o.id) (active (values self.orders)) in
      let (removed, left) = remove_all ids self.orders in
      (sort_by compare_fifo removed, record { bids = []; asks = []; orders = left })

  -- The ids of a queue with the orders that they stand for; a missing order panics.
  unfoldable pub orders_of : List (Uuid × Order D) → List Uuid → Run (List (Uuid × Order D))
  orders_of orders [] = ok []
  orders_of orders (id ∷ ids) = do
    o ← expect (lookup id orders)
    rest ← orders_of orders ids
    ok ((id, o) ∷ rest)

  unfoldable pub sort_queue : List (Uuid × Order D) → List Uuid → Run (List Uuid)
  sort_queue orders queue = do
    found ← orders_of orders queue
    ok (map (λ (id, _). id) (sort_by (λ (_, left) (_, right). compare_fifo left right) found))

  -- `entry(price).or_default()`, with the id pushed and the queue sorted.
  unfoldable pub insert_fifo : List (Uuid × Order D) → D → Uuid → Levels D → Run (Levels D)
  insert_fifo orders price id [] = do queue ← sort_queue orders (id ∷ []); ok ((price, queue) ∷ [])
  insert_fifo orders price id ((p, queue) ∷ levels) =
      let fresh : Run (Levels D) = do
        single ← sort_queue orders (id ∷ [])
        ok ((price, single) ∷ (p, queue) ∷ levels)
      in let here : Run (Levels D) = do
        sorted ← sort_queue orders (queue ++ id ∷ [])
        ok ((p, sorted) ∷ levels)
        in let later : Run (Levels D) = do
          rest ← insert_fifo orders price id levels
          ok ((p, queue) ∷ rest)
          in elim (decimal.compare price p) [
            | Ordering.lt ↦ fresh
            | Ordering.eq ↦ here
            | Ordering.gt ↦ later
          ]

  -- `contains_key`
  abbrev contains : Uuid → List (Uuid × Order D) → Bool
  contains id orders = elim (lookup id orders) [ none ↦ false | some o ↦ true ]

  unfoldable pub restore_active_order : Book D → Order D → Run (Book D)
  restore_active_order self order = do
    fail_if (contains order.id self.orders) invalid_order
    fail_if (not (is_active order.status)) invalid_order
    let orders = insert order.id order self.orders
    elim order.side [
      | buy ↦ do
        bids ← insert_fifo orders order.limit_price order.id self.bids
        ok (record self { bids = bids; orders = orders })
      | sell ↦ do
        asks ← insert_fifo orders order.limit_price order.id self.asks
        ok (record self { asks = asks; orders = orders })
    ]

  -- The order that a batch fill is for, if the fill fits it.
  unfoldable pub batch_target : Book D → Uuid → D → Run (Order D)
  batch_target self id quantity = do
    fail_if (leb_dec quantity decimal.zero) invalid_order
    current ← ok_or (lookup id self.orders) (order_not_found id)
    fail_if (not (is_active current.status) || ltb_dec current.remaining quantity) invalid_order
    ok current

  -- The filled order leaves its level and the map; another keeps its place.
  unfoldable pub commit_fill : Book D → Uuid → Order D → D → D → D → Book D × Run (BatchOrderFill D)
  commit_fill self id current remaining margin margin_release =
      let terminal = is_zero remaining in
      let order = record current {
        remaining = remaining;
        reserved_margin = margin;
        status = if terminal then filled else partially_filled;
      } in
      let left = remove_from_level self current.side current.limit_price id in
      (
        (if terminal
            then record left { orders = erase id self.orders }
            else record self { orders = insert id order self.orders }),
        ok (record { order = order; margin_release = margin_release; terminal = terminal }),
      )

  -- The order in the map is changed field by field, so an error in between leaves the first change.
  unfoldable pub fill_target : Book D → Uuid → D → Order D → Book D × Run (BatchOrderFill D)
  unfolding commit_fill
  fill_target self id quantity current =
      let margin_release =
        proportional_release current.reserved_margin current.remaining quantity in
      elim (decimal.checked_sub current.remaining quantity) [
        | none ↦ (self, err internal)
        | some remaining ↦ elim (decimal.checked_sub current.reserved_margin margin_release) [
          | none ↦ (
            record self {
              orders = insert id (record current { remaining = remaining }) self.orders;
            },
            err internal,
          )
          | some margin ↦ commit_fill self id current remaining margin margin_release
        ]
      ]

  unfoldable pub apply_batch_fill : Book D → Uuid → D → Book D × Run (BatchOrderFill D)
  unfolding batch_target fill_target
  apply_batch_fill self id quantity = elim (batch_target self id quantity) [
    | ok current ↦ fill_target self id quantity current
    | err e ↦ (self, err e)
    | panic ↦ (self, panic)
    | out_of_fuel ↦ (self, out_of_fuel)
  ]

  unfoldable pub active_orders_for_account_symbol : Book D → AccountId → Symbol → List (Order D)
  active_orders_for_account_symbol self account_id symbol =
      sort_by (λ left right. compare left.sequence right.sequence)
        (filter
          (λ o. bytes_eq o.account_id account_id && bytes_eq o.symbol symbol && is_active o.status)
          (values self.orders))

  -- `sum`, which panics on overflow
  unfoldable pub sum_dec : D → List D → Run D
  sum_dec total [] = ok total
  sum_dec total (d ∷ ds) = do next ← expect (decimal.checked_add total d); sum_dec next ds

  unfoldable pub active_reduce_only_quantity : Book D → AccountId → Symbol → Side → Run D
  active_reduce_only_quantity self account_id symbol side = sum_dec decimal.zero (
      map (λ o. o.remaining)
        (filter
          (λ o.
            bytes_eq o.account_id account_id
            && bytes_eq o.symbol symbol
            && same_side o.side side
            && o.reduce_only
            && is_active o.status)
          (values self.orders)))

  unfoldable pub active_reserved_margin : Book D → AccountId → Run D
  active_reserved_margin self account_id = sum_dec decimal.zero (
      map (λ o. o.reserved_margin)
        (filter (λ o. bytes_eq o.account_id account_id && is_active o.status) (values self.orders)))

  -- The orders that are removed, each from its level too.
  unfoldable pub remove_terminal : List Uuid → Book D → List (Order D) × Book D
  remove_terminal [] self = ([], self)
  remove_terminal (id ∷ ids) self =
      let skipped = remove_terminal ids self in
      elim (lookup id self.orders) [
        | none ↦ skipped
        | some o ↦
            let (removed, left) =
              remove_terminal ids (record (remove_from_level self o.side o.limit_price o.id) {
                orders = erase id self.orders;
              }) in
            (o ∷ removed, left)
      ]

  unfoldable pub take_terminal_orders : Book D → List (Order D) × Book D
  take_terminal_orders self =
      remove_terminal
        (map (λ o. o.id) (filter (λ o. not (is_active o.status)) (values self.orders))) self

  unfoldable pub level : Book D → D → List Uuid → Run (PriceLevel D)
  level self price queue = do
    found ← orders_of self.orders queue
    total ← sum_dec decimal.zero (map (λ (_, o). o.remaining) found)
    ok (record { price = price; quantity = total; order_count = length queue })

  unfoldable pub level_list : Book D → Levels D → Run (List (PriceLevel D))
  level_list self [] = ok []
  level_list self ((price, queue) ∷ levels) = do
    first ← level self price queue
    rest ← level_list self levels
    ok (first ∷ rest)

  unfoldable pub snapshot : Book D → Symbol → ℕ → ℕ → Run (BookSnapshot D)
  snapshot self symbol sequence depth = do
    bids ← level_list self (take depth (reverse self.bids))
    asks ← level_list self (take depth self.asks)
    ok (record { symbol = symbol; sequence = sequence; bids = bids; asks = asks })

  -- The loop over a queue: whether enough was found, and how much.
  unfoldable pub scan_queue : Book D → AccountId → D → List Uuid → D → Run (Bool × D)
  scan_queue self taker quantity [] available = ok (false, available)
  scan_queue self taker quantity (id ∷ ids) available =
      let skip = scan_queue self taker quantity ids available in
      expect (lookup id self.orders) >>= λ o.
      if bytes_eq o.account_id taker
      then skip
      else (expect (decimal.checked_add available o.remaining) >>= λ more.
          let rest = scan_queue self taker quantity ids more in
          if leb_dec quantity more then ok (true, more) else rest)

  -- The loop over the levels, up to the first that does not cross.
  unfoldable pub scan_levels : Book D → AccountId → D → (D → Bool) → Levels D → D → Run Bool
  scan_levels self taker quantity stops [] available = ok false
  scan_levels self taker quantity stops ((price, queue) ∷ levels) available =
      if stops price
      then ok false
      else (scan_queue self taker quantity queue available >>= λ (enough, more).
          let rest = scan_levels self taker quantity stops levels more in
          if enough then ok true else rest)

  unfoldable pub can_fully_fill : Book D → Side → D → D → AccountId → Run Bool
  can_fully_fill self buy limit_price quantity taker =
      scan_levels self taker quantity (λ price. ltb_dec limit_price price) self.asks decimal.zero
  can_fully_fill self sell limit_price quantity taker =
      scan_levels self taker quantity (λ price. ltb_dec price limit_price) (reverse self.bids)
        decimal.zero
