-- ===== src/OrderBook/Execute.antt =====
-- src/orderbook.rs: what `execute` promises on a well-formed book.
use asteria.Base.{
  suc, ◌≡◌, ◌≢◌, ◌⊎◌, refl, sym, ◌∙◌, ap, subst, List, ◌∷◌, [], ◌++◌, some, none, All, inl, inr,
  true, false, Bool-cases, Bool, if◌then◌else◌, ◌&&◌, length, arith, lookup, insert,
  lookup-insert_self,
}
use asteria.Domain.{Order, open_, partially_filled, filled, cancelled, is_active}
use asteria.Decimal.{Decimal, DecimalLaws, leb_dec, ltb_dec, is_zero}
use asteria.Decimal.Order.{is_zero_eq, not_positive, positive_of_not_zero}
use asteria.OrderBook.Types.{Book, ok, Execution, ReservationRelease, unfilled_remainder}
use asteria.OrderBook.Levels.{push_level}
use asteria.OrderBook.Match.{
  Matching, rest_or_finish, execute, is_gtc, is_limit, finish_filled, finish_resting,
  finish_cancelled,
}
use asteria.OrderBook.WellFormed.{Resting, WellFormed}
use asteria.OrderBook.Pushed.{NotCrossing, pushed-WellFormed, orders-push_level}
use asteria.OrderBook.Report.{GoodFill, BestFirst, consume, quantities, taker_releases}
use asteria.OrderBook.Step.{LoopInv}
use asteria.OrderBook.Loop.{Stopped, match_loop-stops}

module _ {D : Type 0} ⦃decimal : Decimal D⦄ where
  -- An order that the book does not hold yet, whose amounts are in range.
  pub record Incoming (self : Book D) (start : Order D) : Type 0 where
    pub fresh : lookup start.id self.orders ≡ none
    pub left_low : leb_dec decimal.zero start.remaining ≡ true
    pub left_high : leb_dec start.remaining start.quantity ≡ true
    pub margin_low : leb_dec decimal.zero start.reserved_margin ≡ true

  -- The order is filled and gone, rests in the book, or is cancelled without a reservation.
  abbrev pub IsFilled : Order D → Book D → Execution D → Type 0
  IsFilled start next e =
      (e.order.status ≡ filled)
      × (e.order.remaining ≡ decimal.zero)
      × (lookup start.id next.orders ≡ none)

  abbrev pub IsResting : Order D → Book D → Execution D → Type 0
  IsResting start next e =
      ((is_limit start.kind && is_gtc start.time_in_force) ≡ true)
      × Resting e.order
      × (lookup start.id next.orders ≡ some e.order)

  abbrev pub IsCancelled : Order D → Book D → Execution D → Type 0
  IsCancelled start next e =
      ((is_limit start.kind && is_gtc start.time_in_force) ≡ false)
      × (e.order.status ≡ cancelled)
      × (ltb_dec decimal.zero e.order.remaining ≡ true)
      × (lookup start.id next.orders ≡ none)

  -- What is left of the reservation after the releases of the fills stays with the order, or is
  -- given back by the last release of an order that is cancelled.
  abbrev pub MarginKept : Order D → Execution D → D → Type 0
  MarginKept start e left =
      ((e.order.status ≢ cancelled) × (e.order.reserved_margin ≡ left))
      ⊎ ((e.order.status ≡ cancelled)
          × (e.order.reserved_margin ≡ decimal.zero)
          × ((left ≡ decimal.zero)
              ⊎ ((before : List (ReservationRelease D)) × (e.releases
                    ≡ before
                      ++ record {
                        account_id = start.account_id;
                        order_id = start.id;
                        amount = left;
                        reason = unfilled_remainder;
                      }
                        ∷ []))))

  pub record Executed (before : Book D) (start : Order D) (next : Book D) (e : Execution D)
      : Type 0 where
    pub ok_book : WellFormed next
    pub good : All (GoodFill before start) e.fills
    pub best_first : BestFirst start.side e.fills
    pub spent : consume start.remaining (quantities e.fills) ≡ some e.order.remaining
    pub margin :
        (left : D) × (consume start.reserved_margin (taker_releases e.fills) ≡ some left)
        × MarginKept start e left
    pub outcome : IsFilled start next e ⊎ (IsResting start next e ⊎ IsCancelled start next e)

  module _ (laws : DecimalLaws decimal) (before : Book D) (start : Order D) (m : Matching D)
      (inv : LoopInv before start m) (stopped : Stopped start m) where
    kind_is :
        (is_limit m.incoming.kind && is_gtc m.incoming.time_in_force)
        ≡ (is_limit start.kind && is_gtc start.time_in_force)
    kind_is = ap (λ o. is_limit o.kind && is_gtc o.time_in_force) inv.same

    absent : lookup m.incoming.id m.book.orders ≡ none
    absent = ap (λ o. lookup o.id m.book.orders) inv.same ∙ inv.absent

    status_active : (b : Bool) → is_active (if b then open_ else partially_filled) ≡ true
    status_active true = refl
    status_active false = refl

    status_open : (b : Bool) → (if b then open_ else partially_filled) ≢ cancelled
    status_open true h = cc
    status_open false h = cc

    finish_filled_lem :
        is_zero m.incoming.remaining ≡ true
        → Executed before start (finish_filled m).0 (finish_filled m).1
    unfolding finish_filled
    finish_filled_lem e = record {
      ok_book = inv.ok_book;
      good = inv.good;
      best_first = inv.best_first;
      spent = inv.spent;
      margin = (m.incoming.reserved_margin, inv.spent_margin, inl ((λ h. cc), refl));
      outcome = inl (refl, is_zero_eq laws m.incoming.remaining e, inv.absent);
    }

    module _ (positive : ltb_dec decimal.zero m.incoming.remaining ≡ true) where
      finish_cancelled_lem :
          (is_limit m.incoming.kind && is_gtc m.incoming.time_in_force) ≡ false
          → Executed before start (finish_cancelled m).0 (finish_cancelled m).1
      unfolding finish_cancelled
      finish_cancelled_lem e = record {
        ok_book = inv.ok_book;
        good = inv.good;
        best_first = inv.best_first;
        spent = inv.spent;
        margin = (
          m.incoming.reserved_margin,
          inv.spent_margin,
          elim (Bool-cases (ltb_dec decimal.zero m.incoming.reserved_margin)) [
            | inl h ↦ inr (
              refl,
              rw h,
              inr (
                m.releases,
                rw h (
                    ap
                      (λ o.
                        m.releases
                        ++ record {
                          account_id = o.account_id;
                          order_id = o.id;
                          amount = m.incoming.reserved_margin;
                          reason = unfilled_remainder;
                        }
                          ∷ [])
                      inv.same),
              ),
            )
            | inr h ↦
                let none_left = not_positive laws m.incoming.reserved_margin inv.margin_low h in
                inr (refl, rw h none_left, inl none_left)
          ],
        );
        outcome = inr (inr (sym kind_is ∙ e, refl, positive, inv.absent));
      }

      apart : NotCrossing m.book m.incoming.side m.incoming.limit_price
      apart = elim stopped [
        | inl e ↦ absurd (cc)
        | inr h ↦ subst (λ o. NotCrossing m.book o.side o.limit_price) (sym inv.same) h
      ]

      finish_resting_lem :
          (filled_quantity : D)
          → (is_limit m.incoming.kind && is_gtc m.incoming.time_in_force) ≡ true
          → Executed before start
              (finish_resting m filled_quantity).0
              (finish_resting m filled_quantity).1
      unfolding finish_resting
      finish_resting_lem filled_quantity e =
          let order : Order D = record (m.incoming) {
            status = if is_zero filled_quantity then open_ else partially_filled;
          } in
          let rests : Resting order = record {
            active = status_active (is_zero filled_quantity);
            positive = positive;
            margin = inv.margin_low;
          } in
          let same_orders = orders-push_level laws m.book order.side order.limit_price order.id in
          record {
            ok_book =
                subst
                  (λ l.
                    WellFormed (record (push_level m.book order.side order.limit_price order.id) {
                      orders = insert order.id order l;
                    }))
                  (sym same_orders)
                  (pushed-WellFormed laws m.book order inv.ok_book absent rests apart);
            good = inv.good;
            best_first = inv.best_first;
            spent = inv.spent;
            margin = (
              m.incoming.reserved_margin,
              inv.spent_margin,
              inl (status_open (is_zero filled_quantity), refl),
            );
            outcome = inr (inl (sym kind_is ∙ e, rests, in_book order));
          }
        where
          in_book :
              (order : Order D)
              → lookup start.id (
                  insert m.incoming.id order
                    (push_level m.book m.incoming.side m.incoming.limit_price m.incoming.id).orders)
                ≡ some order
          in_book order =
              subst
                (λ i.
                  lookup i (
                    insert m.incoming.id order
                      (push_level m.book m.incoming.side m.incoming.limit_price
                        m.incoming.id).orders)
                  ≡ some order)
                (ap (λ o. o.id) inv.same) (lookup-insert_self m.incoming.id order _)

    rest_or_finish_lem :
        (next : Book D) × (e : Execution D) × (rest_or_finish m ≡ ok (next, e))
        × Executed before start next e
    unfolding rest_or_finish
    rest_or_finish_lem =
        let (done, subtracts, _, _) =
          laws.sub_bounds start.quantity m.incoming.remaining inv.left_low inv.left_high in
        let starts : decimal.checked_sub m.incoming.quantity m.incoming.remaining ≡ some done =
          ap (λ o. decimal.checked_sub o.quantity m.incoming.remaining) inv.same ∙ subtracts in
        elim (Bool-cases (is_zero m.incoming.remaining)) [
          | inl e ↦ ((finish_filled m).0, (finish_filled m).1, rw (starts, e), finish_filled_lem e)
          | inr e ↦
              let positive = positive_of_not_zero laws m.incoming.remaining inv.left_low e in
              elim (Bool-cases (is_limit m.incoming.kind && is_gtc m.incoming.time_in_force)) [
                | inl g ↦ (
                  (finish_resting m done).0,
                  (finish_resting m done).1,
                  rw (starts, e, g),
                  finish_resting_lem positive done g,
                )
                | inr g ↦ (
                  (finish_cancelled m).0,
                  (finish_cancelled m).1,
                  rw (starts, e, g),
                  finish_cancelled_lem positive g,
                )
              ]
        ]

  module _ (laws : DecimalLaws decimal) (self : Book D) (start : Order D) (w : WellFormed self)
      (incoming : Incoming self start) where
    open incoming use {fresh, left_low, left_high, margin_low}

    begin : Matching D
    begin = record {
      book = self;
      incoming = start;
      fills = [];
      releases = [];
      terminal_orders = [];
    }

    begin-LoopInv : LoopInv self start begin
    unfolding begin
    begin-LoopInv = record {
      ok_book = w;
      absent = fresh;
      stood = λ j q h. (q, h, (refl, refl, refl, refl));
      same = refl;
      left_low = left_low;
      left_high = left_high;
      margin_low = margin_low;
      good = tt;
      best_first = tt;
      behind = tt;
      spent = refl;
      spent_margin = refl;
    }

    pub execute_lem :
        (next : Book D) × (e : Execution D) × (execute self start ≡ ok (next, e))
        × Executed self start next e
    unfolding execute begin
    execute_lem =
        let (end, loops, inv, stopped) =
          match_loop-stops laws self start (suc (suc (length self.orders))) begin begin-LoopInv
            (inl (omega arith)) in
        let (next, e, is, done) = rest_or_finish_lem laws self start end inv stopped in
        (next, e, rw loops is, done)
