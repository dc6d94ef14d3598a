-- ===== src/OrderBook/Match.antt =====
-- src/orderbook.rs: matching an incoming order.
use asteria.Base.{
  ℕ, zero, suc, Bool, true, false, not, List, [], ◌∷◌, ◌++◌, Option, none, some, ◌&&◌,
  if◌then◌else◌, length, lookup, insert, erase, bytes_eq,
}
use asteria.Domain.{
  Uuid, OrderKind, limit, TimeInForce, gtc, open_, partially_filled, filled, cancelled, Order,
}
use asteria.Decimal.{Decimal, ltb_dec, is_zero, min_dec}
use asteria.OrderBook.Types.{
  RawFill, ReservationRelease, self_trade_prevention, unfilled_remainder, Execution, Book, Run, ok,
  out_of_fuel, ◌>>=◌, expect,
}
use asteria.OrderBook.Cancel.{crosses, best_opposite, cancel_internal}
use asteria.OrderBook.Release.{proportional_release}
use asteria.OrderBook.Levels.{push_level, remove_from_level}

abbrev pub is_gtc : TimeInForce → Bool
is_gtc gtc = true
is_gtc _ = false

abbrev pub is_limit : OrderKind → Bool
is_limit limit = true
is_limit _ = false

-- What the loop changes: the book, the incoming order, and the three lists.
pub record Matching (D : Type 0) : Type 0 where
  pub book : Book D
  pub incoming : Order D
  pub fills : List (RawFill D)
  pub releases : List (ReservationRelease D)
  pub terminal_orders : List (Order D)

module _ {D : Type 0} ⦃decimal : Decimal D⦄ where
  -- The book that `cancel_internal` leaves, with the release and the cancelled order, if there was one.
  unfoldable pub note_cancelled : Matching D → Book D × Option (Order D) → Matching D
  note_cancelled self (book, none) = record self { book = book }
  note_cancelled self (book, some order) = record self {
    book = book;
    releases =
        self.releases
        ++ record {
          account_id = order.account_id;
          order_id = order.id;
          amount = order.reserved_margin;
          reason = self_trade_prevention;
        }
          ∷ [];
    terminal_orders = self.terminal_orders ++ order ∷ [];
  }

  -- The resting order belongs to the same account: it is cancelled.
  unfoldable pub prevent_self_trade : Matching D → Uuid → Matching D
  unfolding note_cancelled
  prevent_self_trade self id = note_cancelled self (cancel_internal self.book id)

  -- The maker after the fill, kept in the book or moved to the terminal orders.
  unfoldable pub settle_maker : Matching D → D → Uuid → Order D → Matching D
  settle_maker self maker_price id maker =
      if is_zero maker.remaining
      then record self {
        book = record (remove_from_level self.book maker.side maker_price id) {
          orders = erase id self.book.orders;
        };
        terminal_orders = self.terminal_orders ++ record maker { status = filled } ∷ [];
      }
      else record self {
        book = record (self.book) {
          orders = insert id (record maker { status = partially_filled }) self.book.orders;
        };
      }

  unfoldable pub fill_maker : Matching D → D → Uuid → Order D → Run (Matching D)
  fill_maker self maker_price id maker = do
    let incoming = self.incoming
    let fill_quantity = min_dec incoming.remaining maker.remaining
    let taker_release =
        proportional_release incoming.reserved_margin incoming.remaining fill_quantity
    taker_left ← expect (decimal.checked_sub incoming.remaining fill_quantity)
    taker_margin ← expect (decimal.checked_sub incoming.reserved_margin taker_release)
    let maker_release = proportional_release maker.reserved_margin maker.remaining fill_quantity
    maker_left ← expect (decimal.checked_sub maker.remaining fill_quantity)
    maker_margin ← expect (decimal.checked_sub maker.reserved_margin maker_release)
    let settled =
        settle_maker self maker_price id
          (record maker { remaining = maker_left; reserved_margin = maker_margin })
    ok (record settled {
      incoming = record incoming { remaining = taker_left; reserved_margin = taker_margin };
      fills =
          self.fills
          ++ record {
            maker_order_id = id;
            taker_order_id = incoming.id;
            maker_account_id = maker.account_id;
            taker_account_id = incoming.account_id;
            maker_side = maker.side;
            taker_side = incoming.side;
            maker_leverage = maker.leverage;
            taker_leverage = incoming.leverage;
            price = maker_price;
            quantity = fill_quantity;
            maker_margin_release = maker_release;
            taker_margin_release = taker_release;
          }
            ∷ [];
    })

  -- One pass of the loop body, with the state after it, or `none` where the loop breaks.
  unfoldable pub match_step : Matching D → Run (Option (Matching D))
  match_step self = do
    best ← best_opposite self.book self.incoming.side
    elim best [
      | none ↦ ok none
      | some (maker_price, id) ↦
          if not (crosses self.incoming.side self.incoming.limit_price maker_price)
          then ok none
          else (do
            maker ← expect (lookup id self.book.orders)
            if bytes_eq maker.account_id self.incoming.account_id
                then ok (some (prevent_self_trade self id))
                else (do next ← fill_maker self maker_price id maker; ok (some next)))
    ]

  unfoldable pub match_loop : ℕ → Matching D → Run (Matching D)
  match_loop zero self = out_of_fuel
  match_loop (suc fuel) self =
      if not (ltb_dec decimal.zero self.incoming.remaining)
      then ok self
      else (match_step self >>= λ next. elim next [
        | none ↦ ok self
        | some state ↦ match_loop fuel state
      ])

  -- The order is used up.
  unfoldable pub finish_filled : Matching D → Book D × Execution D
  finish_filled self =
      let order = record (self.incoming) { status = filled } in
      (
        self.book,
        record {
          order = order;
          fills = self.fills;
          releases = self.releases;
          terminal_orders = self.terminal_orders ++ order ∷ [];
        },
      )

  -- What is left of a good-till-cancelled limit order rests in the book.
  unfoldable pub finish_resting : Matching D → D → Book D × Execution D
  finish_resting self filled_quantity =
      let order = record (self.incoming) {
        status = if is_zero filled_quantity then open_ else partially_filled;
      } in
      let book = push_level self.book order.side order.limit_price order.id in
      (
        record book { orders = insert order.id order book.orders },
        record {
          order = order;
          fills = self.fills;
          releases = self.releases;
          terminal_orders = self.terminal_orders;
        },
      )

  -- What is left of any other order is cancelled, and its reservation released.
  unfoldable pub finish_cancelled : Matching D → Book D × Execution D
  finish_cancelled self =
      let incoming = self.incoming in
      let reserved = ltb_dec decimal.zero incoming.reserved_margin in
      let order = record incoming {
        status = cancelled;
        reserved_margin = if reserved then decimal.zero else incoming.reserved_margin;
      } in
      let release : ReservationRelease D = record {
        account_id = incoming.account_id;
        order_id = incoming.id;
        amount = incoming.reserved_margin;
        reason = unfilled_remainder;
      } in
      (
        self.book,
        record {
          order = order;
          fills = self.fills;
          releases = if reserved then self.releases ++ release ∷ [] else self.releases;
          terminal_orders = self.terminal_orders ++ order ∷ [];
        },
      )

  -- What happens to the order that the loop leaves.
  unfoldable pub rest_or_finish : Matching D → Run (Book D × Execution D)
  unfolding finish_filled finish_resting finish_cancelled
  rest_or_finish self = do
    let incoming = self.incoming
    filled_quantity ← expect (decimal.checked_sub incoming.quantity incoming.remaining)
    ok (
        if is_zero incoming.remaining
        then finish_filled self
        else if is_limit incoming.kind && is_gtc incoming.time_in_force
        then finish_resting self filled_quantity
        else finish_cancelled self)

  -- Each pass takes an order from the book or uses up the incoming one.
  unfoldable pub execute : Book D → Order D → Run (Book D × Execution D)
  execute self incoming = do
    matched ← match_loop (suc (suc (length self.orders))) (record {
      book = self;
      incoming = incoming;
      fills = [];
      releases = [];
      terminal_orders = [];
    })
    rest_or_finish matched
