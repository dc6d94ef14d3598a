-- ===== src/OrderBook/Passed.antt =====
-- src/orderbook.rs: what a pass of the matching loop does to the book.
use asteria.Base.{
  ◌≡◌, ◌⊎◌, ◌<◌, refl, sym, ap, some, none, All, inl, inr, false, arith, Bool-cases, length, ==_iff,
  lookup, insert, erase, lookup-erase, lookup-insert, length-erase-lt, subst, ◌==◌, ◌∙◌,
}
use asteria.Domain.{Uuid, Side, buy, sell, Order, partially_filled, cancelled}
use asteria.Decimal.{Decimal, DecimalLaws, is_zero}
use asteria.Decimal.Order.{is_zero_zero, positive_of_not_zero}
use asteria.OrderBook.Types.{Book}
use asteria.OrderBook.Levels.{remove_from_level}
use asteria.OrderBook.Cancel.{cancel_internal}
use asteria.OrderBook.Match.{Matching, settle_maker}
use asteria.OrderBook.WellFormed.{levels_of, Resting, WellFormed}
use asteria.OrderBook.Removed.{without, without-WellFormed, prices-without}
use asteria.OrderBook.Updated.{updated-WellFormed}
use asteria.OrderBook.Fills.{FillOf, maker_after}

module _ {D : Type 0} ⦃decimal : Decimal D⦄ where
  -- The same order, with whatever amounts and status.
  abbrev pub Same : Order D → Order D → Type 0
  Same before after =
      (after.account_id ≡ before.account_id)
      × (after.side ≡ before.side)
      × (after.limit_price ≡ before.limit_price)
      × (after.leverage ≡ before.leverage)

  -- The order stood in the book under the id.
  abbrev pub StoodIn : Book D → Uuid → Order D → Type 0
  StoodIn self j after =
      (before : Order D) × (lookup j self.orders ≡ some before) × Same before after

  -- The later book is well-formed, has no new prices, and no new orders.
  pub record Follows (self next : Book D) : Type 1 where
    pub ok_book : WellFormed next
    pub prices :
        (P : D → Type 0) (side : Side)
        → All (λ e. P e.0) (levels_of self side)
        → All (λ e. P e.0) (levels_of next side)
    pub absent : (j : Uuid) → lookup j self.orders ≡ none → lookup j next.orders ≡ none
    pub stood : (j : Uuid) (q : Order D) → lookup j next.orders ≡ some q → StoodIn self j q

  module _ (laws : DecimalLaws decimal) (self : Book D) (id : Uuid) (o : Order D)
      (w : WellFormed self) (found : lookup id self.orders ≡ some o) where
    pub without-Follows : Follows self (without self o id)
    unfolding without
    without-Follows = record {
      ok_book = without-WellFormed laws self id o w found;
      prices = λ P side h. prices-without laws self id o w found P side h;
      absent = λ j h. ground (arith, lookup-erase id j self.orders);
      stood = λ j q h. (q, ground (arith, lookup-erase id j self.orders), (refl, refl, refl, refl));
    }

    pub length-without : length (without self o id).orders < length self.orders
    unfolding without
    length-without = length-erase-lt id o self.orders found

    pub updated-Follows :
        (o' : Order D)
        → (o'.id ≡ o.id) × (o'.side ≡ o.side) × (o'.limit_price ≡ o.limit_price)
        → Same o o'
        → Resting o'
        → Follows self (record self { orders = insert id o' self.orders })
    updated-Follows o' same like rests = record {
      ok_book = updated-WellFormed self id o o' w found same rests;
      prices = same_prices;
      absent = λ j h.
          ground
            (arith, lookup-insert id j o' self.orders, ==_iff id j, ap (λ k. lookup k self.orders));
      stood = λ j q h. elim (Bool-cases (id == j)) [
        | inl e ↦
            let at_id : lookup j self.orders ≡ some o =
              ap (λ k. lookup k self.orders) (sym ((==_iff id j).0 e)) ∙ found in
            let is_new : o' ≡ q = ground (arith, lookup-insert id j o' self.orders) in
            (o, at_id, subst (Same o) is_new like)
        | inr e ↦ (q, ground (arith, lookup-insert id j o' self.orders), (refl, refl, refl, refl))
      ];
    }
      where
        same_prices :
            (P : D → Type 0) (side : Side)
            → All (λ e. P e.0) (levels_of self side)
            → All (λ e. P e.0) (levels_of (record self { orders = insert id o' self.orders }) side)
        same_prices P buy h = h
        same_prices P sell h = h

    -- Cancelling an order that is there.
    pub cancel_internal_found :
        cancel_internal self id ≡ (without self o id, some (record o { status = cancelled }))
    unfolding cancel_internal without
    cancel_internal_found = rw (found, cancel_internal)

  -- After a fill the book follows, and is smaller or the incoming order is used up.
  module _ (laws : DecimalLaws decimal) (m : Matching D) (id : Uuid) (maker : Order D)
      (w : WellFormed m.book) (found : lookup id m.book.orders ≡ some maker) (price : D)
      (at : maker.limit_price ≡ price) (f : FillOf m price id maker) where
    abbrev settled : Matching D
    settled = settle_maker m price id (maker_after f)

    taker_done : is_zero f.maker_left ≡ false → f.taker_left ≡ decimal.zero
    taker_done e = elim f.exhausts [
      | inl h ↦ h
      | inr h ↦ absurd (ground (arith, is_zero_zero laws, ap is_zero h))
    ]

    pub settle_maker-Follows :
        Follows m.book settled.book
        × ((length settled.book.orders < length m.book.orders) ⊎ (f.taker_left ≡ decimal.zero))
    unfolding settle_maker
    settle_maker-Follows = elim (Bool-cases (is_zero f.maker_left)) [
      | inl e ↦
          let gone : settled.book ≡ without m.book maker id =
            unfold without in
            rw (e, settle_maker)
              (ap {B = Book D}
                (λ p. record (remove_from_level m.book maker.side p id) {
                  orders = erase id m.book.orders;
                })
                (sym at)) in
          rw gone (
            without-Follows laws m.book id maker w found,
            inl (length-without laws m.book id maker w found),
          )
      | inr e ↦
          let after : Order D = record (maker_after f) { status = partially_filled } in
          let kept : settled.book ≡ record (m.book) { orders = insert id after m.book.orders } =
            rw (e, settle_maker) refl in
          let rests : Resting after = record {
            active = refl;
            positive = positive_of_not_zero laws f.maker_left f.makes.left_low e;
            margin = f.makes_margin.left_low;
          } in
          rw kept (
            updated-Follows laws m.book id maker w found after (refl, refl, refl)
                (refl, refl, refl, refl) rests,
            inr (taker_done e),
          )
    ]
