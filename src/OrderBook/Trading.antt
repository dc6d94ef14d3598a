-- ===== src/OrderBook/Trading.antt =====
-- src/orderbook.rs: what matching an order and cancelling one promise.
use asteria.Base.{
  ◌≡◌, ◌⊎◌, some, none, All, inl, inr, true, false, Bool-cases, Option-cases, ◌==◌, if◌then◌else◌,
  lookup, lookup-erase, bytes_eq,
}
use asteria.Domain.{Uuid, AccountId, Order, cancelled, order_not_found, order_ownership}
use asteria.Decimal.{Decimal, DecimalLaws}
use asteria.OrderBook.Types.{Book, ok, err, Execution}
use asteria.OrderBook.Cancel.{cancel}
use asteria.OrderBook.Match.{execute}
use asteria.OrderBook.WellFormed.{WellFormed}
use asteria.OrderBook.Report.{GoodFill, BestFirst, consume, quantities, taker_releases}
use asteria.OrderBook.Execute.{Incoming, IsFilled, IsResting, IsCancelled, MarginKept, execute_lem}
use asteria.OrderBook.Removed.{without}
use asteria.OrderBook.Passed.{without-Follows, cancel_internal_found}

-- The book without an order; other orders stay as they are.
pub record IsCancel {D : Type 0} ⦃decimal : Decimal D⦄ (self : Book D) (id : Uuid) (next : Book D)
    : Type 0 where
  pub ok_book : WellFormed next
  pub others : (j : Uuid) → lookup j next.orders ≡ (if id == j then none else lookup j self.orders)

module _ {D : Type 0} ⦃decimal : Decimal D⦄ (laws : DecimalLaws decimal) (self : Book D)
    (w : WellFormed self) where
  -- Matching a new order, whose amounts are in range, against a well-formed book ends without a
  -- panic and leaves a well-formed book: no empty level, each queued id an order of its side and
  -- price, each order queued, and every bid below every ask.
  pub execute-WellFormed :
      (start : Order D)
      → Incoming self start
      → (next : Book D) × (e : Execution D) × (execute self start ≡ ok (next, e)) × WellFormed next
  execute-WellFormed start incoming =
      let (next, e, is, done) = execute_lem laws self start w incoming in
      (next, e, is, done.ok_book)

  -- Matching a new order, whose amounts are in range, against a well-formed book, each fill is with an
  -- order that rested in that book, of another account on the other side; it names the id, account,
  -- side and leverage of that order, is at its limit price, which the limit of the new order admits, and
  -- is of a positive quantity. Fills come at the best price first, and their quantities taken one by one
  -- from what the new order asked for leave what remains of it.
  pub execute-fills :
      (start : Order D)
      → Incoming self start
      → (next : Book D) × (e : Execution D) × (execute self start ≡ ok (next, e))
        × All (GoodFill self start) e.fills
        × BestFirst start.side e.fills
        × (consume start.remaining (quantities e.fills) ≡ some e.order.remaining)
  execute-fills start incoming =
      let (next, e, is, done) = execute_lem laws self start w incoming in
      (next, e, is, done.good, done.best_first, done.spent)

  -- After matching, a new order is filled and not in the book, or is a good-till-cancelled limit
  -- order that rests in the book with what remains, or is of another kind and cancelled with what
  -- remains.
  pub execute-outcome :
      (start : Order D)
      → Incoming self start
      → (next : Book D) × (e : Execution D) × (execute self start ≡ ok (next, e))
        × (IsFilled start next e ⊎ (IsResting start next e ⊎ IsCancelled start next e))
  execute-outcome start incoming =
      let (next, e, is, done) = execute_lem laws self start w incoming in
      (next, e, is, done.outcome)

  -- After matching, the margin releases of the fills taken one by one from the reservation of the
  -- order leave what the order still reserves, unless it is cancelled: then it reserves nothing, and
  -- what was left is zero or is given back by the last release.
  pub execute-margin :
      (start : Order D)
      → Incoming self start
      → (next : Book D) × (e : Execution D) × (execute self start ≡ ok (next, e))
        × (left : D) × (consume start.reserved_margin (taker_releases e.fills) ≡ some left)
        × MarginKept start e left
  execute-margin start incoming =
      let (next, e, is, done) = execute_lem laws self start w incoming in
      let (left, spent, kept) = done.margin in (next, e, is, left, spent, kept)

  -- Cancelling on a well-formed book fails for an id that is not there and for an order of another
  -- account, and otherwise returns the order as cancelled and takes it out of a book that stays
  -- well-formed and keeps every other order.
  pub cancel_cases :
      (id : Uuid) (account : AccountId)
      → ((lookup id self.orders ≡ none) × (cancel self id account ≡ err (order_not_found id)))
        ⊎ ((o : Order D) × (lookup id self.orders ≡ some o)
            × (((bytes_eq o.account_id account ≡ false)
                  × (cancel self id account ≡ err (order_ownership id)))
                ⊎ ((bytes_eq o.account_id account ≡ true)
                    × (next : Book D) × (cancel self id account
                        ≡ ok (next, record o { status = cancelled }))
                    × IsCancel self id next)))
  unfolding cancel
  cancel_cases id account = elim (Option-cases (lookup id self.orders)) [
    | inl e ↦ inl (e, rw e)
    | inr (o, e) ↦
        let active = ((w.placed id o e).resting).active in
        inr (
          o,
          e,
          elim (Bool-cases (bytes_eq o.account_id account)) [
            | inr f ↦ inl (f, rw (e, f))
            | inl t ↦ inr (
              t,
              without self o id,
              rw (e, t, active, cancel_internal_found laws self id o w e),
              record {
                ok_book = (without-Follows laws self id o w e).ok_book;
                others = λ j. unfold without in lookup-erase id j self.orders;
              },
            )
          ],
        )
  ]
