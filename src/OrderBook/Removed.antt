-- ===== src/OrderBook/Removed.antt =====
-- src/orderbook.rs: the book without one of its orders is well-formed.
use asteria.Base.{
  ◌≡◌, ◌≢◌, ◌⊎◌, refl, subst, sym, ◌∙◌, some, All, All-map, ◌==◌, arith, inl, inr, Bool-cases,
  ==_iff, true, lookup, erase, lookup-erase, lookup-erase_ne,
}
use asteria.Domain.{Uuid, Side, buy, sell, Order}
use asteria.Decimal.{Decimal, DecimalLaws, ltb_dec}
use asteria.OrderBook.Types.{Levels, Book}
use asteria.OrderBook.Levels.{remove_entry, remove_from_level}
use asteria.OrderBook.Removal.{
  All-remove_entry, Ascending-remove_entry, Holds-remove_entry, LevelOk-remove_entry,
  LevelOk-other_side,
}
use asteria.OrderBook.WellFormed.{Holds, levels_of, LevelOk, Ascending, Placed, WellFormed}

pub same_side_cases : (a b : Side) → (a ≡ b) ⊎ (a ≢ b)
same_side_cases buy buy = inl refl
same_side_cases buy sell = inr (λ e. cc)
same_side_cases sell buy = inr (λ e. cc)
same_side_cases sell sell = inl refl

module _ {D : Type 0} ⦃decimal : Decimal D⦄ where
  -- `remove_from_level` and `remove`, as the callers use them together.
  unfoldable pub without : Book D → Order D → Uuid → Book D
  without self o id = record (remove_from_level self o.side o.limit_price id) {
    orders = erase id self.orders;
  }

  -- What the levels of the two sides are then.
  levels_of-without :
      (self : Book D) (o : Order D) (id : Uuid)
      → levels_of (without self o id) o.side ≡ remove_entry o.limit_price id (levels_of self o.side)
  unfolding without remove_from_level
  levels_of-without self o id = by_side o.side refl
    where
      by_side :
          (s : Side)
          → o.side ≡ s
          → levels_of (without self o id) o.side
            ≡ remove_entry o.limit_price id (levels_of self o.side)
      by_side buy e = rw e
      by_side sell e = rw e

  levels_of-without_other :
      (self : Book D) (o : Order D) (id : Uuid) (side : Side)
      → o.side ≢ side
      → levels_of (without self o id) side ≡ levels_of self side
  unfolding without remove_from_level
  levels_of-without_other self o id side ne = ground arith

  orders-without :
      (self : Book D) (o : Order D) (id : Uuid) → (without self o id).orders ≡ erase id self.orders
  unfolding without
  orders-without self o id = refl

  module _ (laws : DecimalLaws decimal) (self : Book D) (id : Uuid) (o : Order D)
      (ok_book : WellFormed self) (found : lookup id self.orders ≡ some o) where
    -- A property of the levels of each side passes to the levels that are left.
    on_each_side {κ} :
        (P : Levels D → Type κ) (side : Side)
        → (o.side ≡ side → P (remove_entry o.limit_price id (levels_of self side)))
        → (o.side ≢ side → P (levels_of self side))
        → P (levels_of (without self o id) side)
    on_each_side P side here there = elim (same_side_cases o.side side) [
      | inl e ↦
          subst (λ s. P (levels_of (without self o id) s)) e
            (rw (levels_of-without self o id) (rw e (here e)))
      | inr n ↦ rw (levels_of-without_other self o id side n) (there n)
    ]

    queues-without :
        (side : Side)
        → All (LevelOk (erase id self.orders) side) (levels_of (without self o id) side)
    queues-without side =
        on_each_side (All (LevelOk (erase id self.orders) side)) side
          (λ e.
            LevelOk-remove_entry laws self.orders id o found side _ (ok_book.ascending side)
              (ok_book.queues side))
          (λ n. LevelOk-other_side laws self.orders id o found side _ n (ok_book.queues side))

    Ascending-without : (side : Side) → Ascending (levels_of (without self o id) side)
    Ascending-without side =
        on_each_side Ascending side
          (λ e. Ascending-remove_entry laws o.limit_price id _ (ok_book.ascending side))
          (λ n. ok_book.ascending side)

    -- What holds of all prices of a side.
    pub prices-without {κ} :
        (P : D → Type κ) (side : Side)
        → All (λ e. P e.0) (levels_of self side)
        → All (λ e. P e.0) (levels_of (without self o id) side)
    prices-without P side h =
        on_each_side (All (λ e. P e.0)) side (λ e. All-remove_entry laws P o.limit_price id _ h)
          (λ n. h)

    Placed-without :
        (j : Uuid) (p : Order D)
        → lookup j (erase id self.orders) ≡ some p
        → Placed (without self o id) j p
    Placed-without j p h = elim (Bool-cases (id == j)) [
      | inl e ↦ absurd (ground (arith, lookup-erase id j self.orders))
      | inr e ↦
          let was =
            ok_book.placed j p
              (sym (lookup-erase_ne id j self.orders (λ q. ground (arith, ==_iff id j))) ∙ h) in
          record {
            same_id = was.same_id;
            resting = was.resting;
            held =
                on_each_side (λ l. Holds p.limit_price j l) p.side
                  (λ s.
                    Holds-remove_entry laws o.limit_price p.limit_price id j _
                      (λ q. ground (arith, ==_iff id j)) was.held)
                  (λ n. was.held);
          }
    ]

    -- Taking an order of the book out of it leaves a well-formed book.
    pub without-WellFormed : WellFormed (without self o id)
    without-WellFormed = record {
      queues = λ side. rw orders-without (queues-without side);
      ascending = Ascending-without;
      placed = λ j p h. Placed-without j p (rw orders-without at h);
      uncrossed =
          prices-without (λ b. All (λ a. ltb_dec b a.0 ≡ true) (levels_of (without self o id) sell))
            buy
            (All-map (λ b h. prices-without (λ a. ltb_dec b.0 a ≡ true) sell h) _
              ok_book.uncrossed);
    }
