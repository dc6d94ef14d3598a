-- ===== src/OrderBook/WellFormed.antt =====
-- src/orderbook.rs: what the order book keeps true of its three maps between calls.
use asteria.Base.{◌≡◌, ◌≢◌, ◌⊎◌, inl, inr, subst, true, List, [], ◌∷◌, some, All, lookup}
use asteria.Domain.{Uuid, Side, buy, sell, Order, is_active}
use asteria.Decimal.{Decimal, leb_dec, ltb_dec}
use asteria.OrderBook.Types.{Levels, Book}

-- The id stands in the queue.
abbrev pub In : Uuid → List Uuid → Type 0
In id [] = ⊥
In id (i ∷ queue) = (id ≡ i) ⊎ In id queue

module _ {D : Type 0} where
  -- The id stands in the queue of the price.
  abbrev pub Holds : D → Uuid → Levels D → Type 0
  Holds price id [] = ⊥
  Holds price id ((p, queue) ∷ levels) = ((p ≡ price) × In id queue) ⊎ Holds price id levels

  -- What holds of every price of the levels holds of a price at which an id is queued.
  pub Holds-price {κ} :
      (P : D → Type κ) (price : D) (id : Uuid) (levels : Levels D)
      → Holds price id levels
      → All (λ e. P e.0) levels
      → P price
  Holds-price P price id [] held h = absurd held
  Holds-price P price id ((p, queue) ∷ levels) (inl (e, k)) h = subst P e h.0
  Holds-price P price id ((p, queue) ∷ levels) (inr k) h = Holds-price P price id levels k h.1

  abbrev pub levels_of : Book D → Side → Levels D
  levels_of self buy = self.bids
  levels_of self sell = self.asks

  -- The id is that of an order on the side, at the price.
  pub record Queued (orders : List (Uuid × Order D)) (side : Side) (price : D) (id : Uuid)
      : Type 0 where
    pub order : Order D
    pub found : lookup id orders ≡ some order
    pub on_side : order.side ≡ side
    pub at_price : order.limit_price ≡ price

  -- No level is empty, and each queue holds orders of its side and price.
  abbrev pub LevelOk : List (Uuid × Order D) → Side → D × List Uuid → Type 0
  LevelOk orders side level = (level.1 ≢ []) × All (Queued orders side level.0) level.1

module _ {D : Type 0} ⦃decimal : Decimal D⦄ where
  -- An order that waits for a counterpart.
  pub record Resting (o : Order D) : Type 0 where
    pub active : is_active o.status ≡ true
    pub positive : ltb_dec decimal.zero o.remaining ≡ true
    pub margin : leb_dec decimal.zero o.reserved_margin ≡ true

  -- The prices are strictly ascending, as the keys of a `BTreeMap` are.
  abbrev pub Ascending : Levels D → Type 0
  Ascending [] = Unit
  Ascending ((p, queue) ∷ levels) = All (λ e. ltb_dec p e.0 ≡ true) levels × Ascending levels

  -- An order of the map stands under its own id, rests, and is queued at its side and price.
  pub record Placed (self : Book D) (id : Uuid) (o : Order D) : Type 0 where
    pub same_id : o.id ≡ id
    pub resting : Resting o
    pub held : Holds o.limit_price id (levels_of self o.side)

  pub record WellFormed (self : Book D) : Type 0 where
    pub queues : (side : Side) → All (LevelOk self.orders side) (levels_of self side)
    pub ascending : (side : Side) → Ascending (levels_of self side)
    pub placed : (id : Uuid) (o : Order D) → lookup id self.orders ≡ some o → Placed self id o
    -- Every bid is below every ask.
    pub uncrossed : All (λ b. All (λ a. ltb_dec b.0 a.0 ≡ true) self.asks) self.bids
