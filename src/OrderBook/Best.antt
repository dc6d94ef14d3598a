-- ===== src/OrderBook/Best.antt =====
-- src/orderbook.rs: the order that `best_opposite` finds in a well-formed book.
use asteria.Base.{
  ◌≡◌, ◌⊎◌, refl, ◌∙◌, List, ◌∷◌, [], some, none, All, All-map, All-zip, subst, ap, inl, inr, true,
  false,
}
use asteria.Domain.{Uuid, Side, buy, sell, opposite}
use asteria.Decimal.{Decimal, DecimalLaws, leb_dec, ltb_dec}
use asteria.Decimal.Order.{leb_refl, ltb→leb, leb-ltb_trans, ltb-leb_trans}
use asteria.OrderBook.Types.{Levels, Book, ok}
use asteria.OrderBook.Levels.{first_entry, last_entry}
use asteria.OrderBook.Cancel.{best_of, best_opposite, crosses}
use asteria.OrderBook.WellFormed.{levels_of, LevelOk, Queued, Ascending, WellFormed}
use asteria.OrderBook.Pushed.{NotCrossing}

module _ {D : Type 0} ⦃decimal : Decimal D⦄ where
  -- For a taker of the side the first price is at least as good as the second.
  abbrev pub NoWorse : Side → D → D → Type 0
  NoWorse buy p q = leb_dec p q ≡ true
  NoWorse sell p q = leb_dec q p ≡ true

  -- The order at the front of the best level, and no level is better.
  pub record IsBest (self : Book D) (side : Side) (price : D) (id : Uuid) : Type 0 where
    pub queued : Queued self.orders (opposite side) price id
    pub first : All (λ e. NoWorse side price e.0) (levels_of self (opposite side))

  module _ (laws : DecimalLaws decimal) where
    first_NoWorse :
        (p : D) (queue : List Uuid) (levels : Levels D)
        → Ascending ((p, queue) ∷ levels)
        → All (λ e. leb_dec p e.0 ≡ true) ((p, queue) ∷ levels)
    first_NoWorse p queue levels up =
        (leb_refl laws p, All-map (λ e h. ltb→leb laws p e.0 h) levels up.0)

    -- No level is above the last.
    last_entry_lem {κ} :
        (P : D × List Uuid → Type κ) (e : D × List Uuid) (levels : Levels D)
        → Ascending (e ∷ levels)
        → All P (e ∷ levels)
        → (f : D × List Uuid) × (last_entry (e ∷ levels) ≡ some f)
          × All (λ g. leb_dec g.0 f.0 ≡ true) (e ∷ levels)
          × P f
    unfolding last_entry
    last_entry_lem P e [] up h = (e, refl, (leb_refl laws e.0, tt), h.0)
    last_entry_lem P e (n ∷ levels) up h =
        let (f, found, above, (p, later)) =
          last_entry_lem (λ g. P g × (ltb_dec e.0 g.0 ≡ true)) n levels up.1
            (All-zip P (λ g. ltb_dec e.0 g.0 ≡ true) (n ∷ levels) h.1 up.0) in
        (f, found, (ltb→leb laws e.0 f.0 later, above), p)

    -- The front of a level that is in order.
    front :
        (self : Book D) (side : Side) (e : D × List Uuid)
        → LevelOk self.orders (opposite side) e
        → All (λ g. NoWorse side e.0 g.0) (levels_of self (opposite side))
        → (price : D) × (id : Uuid) × (best_of (some e) ≡ ok (some (price, id)))
          × IsBest self side price id
    front self side (price, []) h first = absurd (h.0 refl)
    front self side (price, id ∷ queue) h first =
        (price, id, refl, record { queued = h.1.0; first = first })

    -- `best_opposite` finds the best order, and nothing only where there is none.
    pub best_opposite_cases :
        (self : Book D) (side : Side)
        → WellFormed self
        → ((best_opposite self side ≡ ok none) × (levels_of self (opposite side) ≡ []))
          ⊎ ((price : D) × (id : Uuid) × (best_opposite self side ≡ ok (some (price, id)))
              × IsBest self side price id)
    unfolding best_opposite
    best_opposite_cases self buy w = by_levels self.asks refl
      where
        by_levels :
            (levels : Levels D)
            → self.asks ≡ levels
            → ((best_opposite self buy ≡ ok none) × (self.asks ≡ []))
              ⊎ ((price : D) × (id : Uuid) × (best_opposite self buy ≡ ok (some (price, id)))
                  × IsBest self buy price id)
        by_levels [] e = inl (rw e, e)
        by_levels (l ∷ levels) e =
            let up : Ascending (l ∷ levels) = rw e at w.ascending sell in
            let oks : All (LevelOk self.orders sell) (l ∷ levels) =
              subst (All (LevelOk self.orders sell)) e (w.queues sell) in
            let (price, id, is, best) =
              front self buy l oks.0 (rw e (first_NoWorse l.0 l.1 levels up)) in
            inr (price, id, rw (e, first_entry) is, best)
    best_opposite_cases self sell w = by_levels self.bids refl
      where
        by_levels :
            (levels : Levels D)
            → self.bids ≡ levels
            → ((best_opposite self sell ≡ ok none) × (self.bids ≡ []))
              ⊎ ((price : D) × (id : Uuid) × (best_opposite self sell ≡ ok (some (price, id)))
                  × IsBest self sell price id)
        by_levels [] e = inl (rw e, e)
        by_levels (l ∷ levels) e =
            let up : Ascending (l ∷ levels) = subst Ascending e (w.ascending buy) in
            let oks : All (LevelOk self.orders buy) (l ∷ levels) =
              subst (All (LevelOk self.orders buy)) e (w.queues buy) in
            let (f, found, above, k) = last_entry_lem (LevelOk self.orders buy) l levels up oks in
            let (price, id, is, best) = front self sell f k (rw e above) in
            inr (price, id, rw e (ap best_of found ∙ is), best)

    -- Where the best price does not cross, no price of the other side does.
    pub NotCrossing-of_best :
        (self : Book D) (side : Side) (limit price : D)
        → crosses side limit price ≡ false
        → All (λ e. NoWorse side price e.0) (levels_of self (opposite side))
        → NotCrossing self side limit
    unfolding crosses
    NotCrossing-of_best self buy limit price away h =
        All-map (λ e k. ltb-leb_trans laws limit price e.0 (rw away) k) self.asks h
    NotCrossing-of_best self sell limit price away h =
        All-map (λ e k. leb-ltb_trans laws e.0 price limit k (rw away)) self.bids h

    pub NotCrossing-of_none :
        (self : Book D) (side : Side) (limit : D)
        → levels_of self (opposite side) ≡ []
        → NotCrossing self side limit
    NotCrossing-of_none self buy limit e = rw e tt
    NotCrossing-of_none self sell limit e = rw e tt
