-- ===== src/OrderBook/BatchFill.antt =====
-- src/orderbook.rs: what `apply_batch_fill` and `take_terminal_orders` do on a well-formed book.
use asteria.Base.{
  ◌≡◌, ◌⊎◌, refl, ◌∙◌, some, none, inl, inr, true, false, Bool-cases, Option-cases, if◌then◌else◌,
  sym, lookup, insert, lookup-erase_self, lookup-insert_self,
}
use asteria.Domain.{
  Uuid, Order, OrderStatus, partially_filled, filled, ExchangeError, order_not_found, invalid_order,
}
use asteria.Decimal.{Decimal, DecimalLaws, leb_dec, ltb_dec, is_zero}
use asteria.Decimal.Order.{ltb→leb, positive_of_not_zero}
use asteria.OrderBook.Types.{Book, ok, err, BatchOrderFill}
use asteria.OrderBook.Release.{proportional_release}
use asteria.OrderBook.ReleaseBounds.{proportional_release-Within}
use asteria.OrderBook.WellFormed.{WellFormed}
use asteria.OrderBook.Removed.{without}
use asteria.OrderBook.Fills.{Taken, taken}
use asteria.OrderBook.Passed.{without-Follows, updated-Follows}
use asteria.OrderBook.Active.{batch_target, commit_fill, fill_target, apply_batch_fill}

module _ {D : Type 0} ⦃decimal : Decimal D⦄ where
  -- What a batch fill of an order does: the amounts are taken from it, and it stays in the book
  -- unless nothing remains.
  pub record IsBatchFill (self : Book D) (id : Uuid) (quantity : D) (o : Order D) (next : Book D)
      (fill : BatchOrderFill D) : Type 0 where
    pub ok_book : WellFormed next
    pub takes : Taken o.remaining quantity fill.order.remaining
    pub takes_margin : Taken o.reserved_margin fill.margin_release fill.order.reserved_margin
    pub terminal_iff : fill.terminal ≡ is_zero fill.order.remaining
    pub status_is : fill.order.status ≡ (if fill.terminal then filled else partially_filled)
    pub in_book : lookup id next.orders ≡ (if fill.terminal then none else some fill.order)

  module _ (laws : DecimalLaws decimal) (self : Book D) (w : WellFormed self) (id : Uuid)
      (quantity : D) where
    module _ (o : Order D) (found : lookup id self.orders ≡ some o) (remaining margin release : D)
        (takes : Taken o.remaining quantity remaining)
        (takes_margin : Taken o.reserved_margin release margin) where
      commit_fill_lem :
          (next : Book D) × (fill : BatchOrderFill D) × (commit_fill self id o remaining margin
              release
            ≡ (next, ok fill))
          × IsBatchFill self id quantity o next fill
      unfolding commit_fill
      commit_fill_lem = elim (Bool-cases (is_zero remaining)) [
        | inl e ↦ (
          without self o id,
          record { order = after filled; margin_release = release; terminal = true },
          unfold without in rw e refl,
          record {
            ok_book = (without-Follows laws self id o w found).ok_book;
            takes = takes;
            takes_margin = takes_margin;
            terminal_iff = sym e;
            status_is = refl;
            in_book = unfold without in lookup-erase_self id self.orders;
          },
        )
        | inr e ↦ (
          record self { orders = insert id (after partially_filled) self.orders },
          record { order = after partially_filled; margin_release = release; terminal = false },
          rw e refl,
          record {
            ok_book =
                (updated-Follows laws self id o w found (after partially_filled) (refl, refl, refl)
                  (refl, refl, refl, refl)
                  (record {
                    active = refl;
                    positive = positive_of_not_zero laws remaining takes.left_low e;
                    margin = takes_margin.left_low;
                  })).ok_book;
            takes = takes;
            takes_margin = takes_margin;
            terminal_iff = sym e;
            status_is = refl;
            in_book = lookup-insert_self id (after partially_filled) self.orders;
          },
        )
      ]
        where
          after : OrderStatus → Order D
          after s = record o { remaining = remaining; reserved_margin = margin; status = s }

    refused :
        {e : ExchangeError}
        → batch_target self id quantity ≡ err e
        → apply_batch_fill self id quantity ≡ (self, err e)
    unfolding apply_batch_fill
    refused h = rw (h, apply_batch_fill)

    accepted :
        {o : Order D}
        → batch_target self id quantity ≡ ok o
        → apply_batch_fill self id quantity ≡ fill_target self id quantity o
    unfolding apply_batch_fill
    accepted h = rw (h, apply_batch_fill)

    commits :
        (o : Order D) (remaining margin : D)
        → decimal.checked_sub o.remaining quantity ≡ some remaining
        → decimal.checked_sub o.reserved_margin
            (proportional_release o.reserved_margin o.remaining quantity)
          ≡ some margin
        → fill_target self id quantity o
          ≡ commit_fill self id o remaining margin
              (proportional_release o.reserved_margin o.remaining quantity)
    unfolding fill_target
    commits o remaining margin h k = rw (h, fill_target, k)

    -- A batch fill on a well-formed book is refused, with the book unchanged, where the quantity is
    -- not positive, the order is not there, or less than the quantity remains of it; otherwise it
    -- takes the quantity and the released margin from the order, drops the order from the book
    -- exactly if nothing remains, and leaves a well-formed book.
    pub apply_batch_fill_cases :
        ((leb_dec quantity decimal.zero ≡ true)
          × (apply_batch_fill self id quantity ≡ (self, err invalid_order)))
        ⊎ ((ltb_dec decimal.zero quantity ≡ true)
            × (((lookup id self.orders ≡ none)
                  × (apply_batch_fill self id quantity ≡ (self, err (order_not_found id))))
                ⊎ ((o : Order D) × (lookup id self.orders ≡ some o)
                    × (((ltb_dec o.remaining quantity ≡ true)
                          × (apply_batch_fill self id quantity ≡ (self, err invalid_order)))
                        ⊎ ((leb_dec quantity o.remaining ≡ true)
                            × (next : Book D) × (fill : BatchOrderFill D) × (apply_batch_fill self
                                  id quantity
                                ≡ (next, ok fill))
                            × IsBatchFill self id quantity o next fill)))))
    unfolding batch_target fill_target
    apply_batch_fill_cases = elim (Bool-cases (leb_dec quantity decimal.zero)) [
      | inl e ↦ inl (e, refused (rw e))
      | inr e ↦ inr (
        rw e,
        elim (Option-cases (lookup id self.orders)) [
          | inl n ↦ inl (n, refused (rw (e, n)))
          | inr (o, found) ↦
              let rests = (w.placed id o found).resting in
              inr (
                o,
                found,
                elim (Bool-cases (leb_dec quantity o.remaining)) [
                  | inr less ↦ inl (rw less, refused (rw (e, found, rests.active, less)))
                  | inl fits ↦
                      let within =
                        proportional_release-Within laws o.reserved_margin o.remaining quantity
                          rests.margin in
                      let (left, takes) =
                        taken laws o.remaining quantity (ltb→leb laws _ _ (rw e)) fits in
                      let (margin, takes_margin) = taken laws _ _ within.0 within.1 in
                      let (next, fill, is, done) =
                        commit_fill_lem o found left margin _ takes takes_margin in
                      inr (
                        fits,
                        next,
                        fill,
                        accepted {o = o} (rw (e, found, rests.active, fits))
                            ∙ (commits o left margin takes.subtracts takes_margin.subtracts ∙ is),
                        done,
                      )
                ],
              )
        ],
      )
    ]
