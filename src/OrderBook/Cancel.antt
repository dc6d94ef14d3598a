-- ===== src/OrderBook/Cancel.antt =====
-- src/orderbook.rs: the best opposite order, and cancelling an order.
use asteria.Base.{Bool, not, List, [], ◌∷◌, Option, none, some, lookup, erase, bytes_eq}
use asteria.Domain.{
  Uuid, AccountId, Side, buy, sell, cancelled, is_active, Order, order_not_found, order_ownership,
  invalid_order,
}
use asteria.Decimal.{Decimal, leb_dec}
use asteria.OrderBook.Types.{Book, Run, ok, panic, ◌>>=◌, ◌>>◌, ok_or, fail_if}
use asteria.OrderBook.Levels.{remove_from_level, first_entry, last_entry}

module _ {D : Type 0} ⦃decimal : Decimal D⦄ where
  unfoldable pub crosses : Side → D → D → Bool
  crosses buy limit_price maker_price = leb_dec maker_price limit_price
  crosses sell limit_price maker_price = leb_dec limit_price maker_price

  -- `none` is a side without orders; the queue of a level is never empty.
  abbrev pub best_of : Option (D × List Uuid) → Run (Option (D × Uuid))
  best_of none = ok none
  best_of (some (price, [])) = panic
  best_of (some (price, id ∷ queue)) = ok (some (price, id))

  unfoldable pub best_opposite : Book D → Side → Run (Option (D × Uuid))
  unfolding first_entry last_entry
  best_opposite self buy = best_of (first_entry self.asks)
  best_opposite self sell = best_of (last_entry self.bids)

  -- The order that was removed, as cancelled.
  unfoldable pub cancel_internal : Book D → Uuid → Book D × Option (Order D)
  cancel_internal self id = elim (lookup id self.orders) [
    | none ↦ (self, none)
    | some order ↦ (
      record (remove_from_level self order.side order.limit_price id) {
        orders = erase id self.orders;
      },
      some (record order { status = cancelled }),
    )
  ]

  unfoldable pub cancel : Book D → Uuid → AccountId → Run (Book D × Order D)
  cancel self id account_id = do
    order ← ok_or (lookup id self.orders) (order_not_found id)
    fail_if (not (bytes_eq order.account_id account_id)) (order_ownership id)
    fail_if (not (is_active order.status)) invalid_order
    let (next, removed) = cancel_internal self id
    cancelled_order ← ok_or removed (order_not_found id)
    ok (next, cancelled_order)
