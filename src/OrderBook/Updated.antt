-- ===== src/OrderBook/Updated.antt =====
-- src/orderbook.rs: the book after an order in it was changed, and with one order more.
use asteria.Base.{
  ◌≡◌, refl, subst, sym, ap, ◌∙◌, List, some, All, All-map, ◌==◌, arith, inl, inr, Bool-cases,
  ==_iff, lookup, insert, lookup-insert, lookup-insert_self, lookup-insert_ne,
}
use asteria.Domain.{Uuid, Side, buy, sell, Order}
use asteria.Decimal.{Decimal}
use asteria.OrderBook.Types.{Levels, Book}
use asteria.OrderBook.WellFormed.{
  levels_of, LevelOk, Queued, Resting, Ascending, Placed, WellFormed,
}

module _ {D : Type 0} ⦃decimal : Decimal D⦄ where
  module _ (orders : List (Uuid × Order D)) (id : Uuid) (o' : Order D) where
    -- A queued id stays queued: it is another one, or stands for the new order, which is alike.
    Queued-insert :
        (side : Side) (p : D) (i : Uuid)
        → (i ≡ id → (o'.side ≡ side) × (o'.limit_price ≡ p))
        → Queued orders side p i
        → Queued (insert id o' orders) side p i
    Queued-insert side p i alike q = elim (Bool-cases (id == i)) [
      | inl e ↦
          let same : i ≡ id = ground (arith, ==_iff id i) in
          record {
            order = o';
            found = rw same (lookup-insert_self id o' orders);
            on_side = (alike same).0;
            at_price = (alike same).1;
          }
      | inr e ↦ record {
        order = q.order;
        found = lookup-insert_ne id i o' orders (λ h. ground (arith, ==_iff id i)) ∙ q.found;
        on_side = q.on_side;
        at_price = q.at_price;
      }
    ]

    pub LevelOk-insert :
        (side : Side) (levels : Levels D)
        → ((o : Order D)
            → lookup id orders ≡ some o
            → (o'.side ≡ o.side) × (o'.limit_price ≡ o.limit_price))
        → All (LevelOk orders side) levels
        → All (LevelOk (insert id o' orders) side) levels
    LevelOk-insert side levels alike h =
        All-map (λ e k. (k.0, All-map (λ i q. Queued-insert side e.0 i (kept e.0 i q) q) e.1 k.1))
          levels h
      where
        kept :
            (p : D) (i : Uuid)
            → Queued orders side p i
            → i ≡ id
            → (o'.side ≡ side) × (o'.limit_price ≡ p)
        kept p i q e =
            let (s, l) = alike q.order (ap (λ k. lookup k orders) (sym e) ∙ q.found) in
            (s ∙ q.on_side, l ∙ q.at_price)

  -- An order of the book changed in place, with its id, side and price.
  pub updated-WellFormed :
      (self : Book D) (id : Uuid) (o o' : Order D)
      → WellFormed self
      → lookup id self.orders ≡ some o
      → (o'.id ≡ o.id) × (o'.side ≡ o.side) × (o'.limit_price ≡ o.limit_price)
      → Resting o'
      → WellFormed (record self { orders = insert id o' self.orders })
  updated-WellFormed self id o o' ok_book found same resting = record {
    queues = queues;
    ascending = λ side. by_side_ascending side;
    placed = placed;
    uncrossed = ok_book.uncrossed;
  }
    where
      next : Book D
      next = record self { orders = insert id o' self.orders }

      levels_same : (side : Side) → levels_of next side ≡ levels_of self side
      levels_same buy = refl
      levels_same sell = refl

      by_side_ascending : (side : Side) → Ascending (levels_of next side)
      by_side_ascending side = rw levels_same (ok_book.ascending side)

      queues : (side : Side) → All (LevelOk next.orders side) (levels_of next side)
      queues side = rw levels_same (
          LevelOk-insert self.orders id o' side _ (λ p e. let is_it : o ≡ p = cc in (cc, cc))
            (ok_book.queues side))

      placed : (j : Uuid) (p : Order D) → lookup j next.orders ≡ some p → Placed next j p
      placed j p h = elim (Bool-cases (id == j)) [
        | inl e ↦
            let is_j : id ≡ j = ground (arith, ==_iff id j) in
            let is_o' : o' ≡ p = ground (arith, lookup-insert id j o' self.orders) in
            let was = ok_book.placed id o found in
            subst (λ k. Placed next k p) is_j
              (subst (λ q. Placed next id q) is_o'
                (record {
                  same_id = same.0 ∙ was.same_id;
                  resting = resting;
                  held = rw levels_same (rw (same.1, same.2) was.held);
                }))
        | inr e ↦
            let was =
              ok_book.placed j p (
                sym (lookup-insert_ne id j o' self.orders (λ q. ground (arith, ==_iff id j)))
                ∙ h) in
            record { same_id = was.same_id; resting = was.resting; held = rw levels_same was.held }
      ]
