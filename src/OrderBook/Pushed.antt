-- ===== src/OrderBook/Pushed.antt =====
-- src/orderbook.rs: the book with one resting order more is well-formed.
use asteria.Base.{
  ◌≡◌, ◌≢◌, refl, subst, sym, ◌∙◌, List, ◌∷◌, [], ◌++◌, some, none, All, All-map, All-append,
  All-zip, ◌==◌, arith, inl, inr, Bool-cases, ==_iff, true, map_either, Ordering-cases, lookup,
  insert, lookup-insert, lookup-insert_self, lookup-insert_ne,
}
use asteria.Domain.{Uuid, Side, buy, sell, Order}
use asteria.Decimal.{Decimal, DecimalLaws, ltb_dec}
use asteria.Decimal.Order.{ltb_trans}
use asteria.OrderBook.Types.{Levels, Book}
use asteria.OrderBook.Levels.{push_entry, push_level}
use asteria.OrderBook.Removed.{same_side_cases}
use asteria.OrderBook.Updated.{LevelOk-insert}
use asteria.OrderBook.WellFormed.{
  In, Holds, levels_of, LevelOk, Queued, Resting, Ascending, Placed, WellFormed,
}

In-append_left : (j : Uuid) (xs ys : List Uuid) → In j xs → In j (xs ++ ys)
In-append_left j [] ys h = absurd h
In-append_left j (x ∷ xs) ys h = map_either (λ e. e) (In-append_left j xs ys) h

In-append_last : (j : Uuid) (xs : List Uuid) → In j (xs ++ j ∷ [])
In-append_last j [] = inl refl
In-append_last j (x ∷ xs) = inr (In-append_last j xs)

append-ne-nil : (xs : List Uuid) (i : Uuid) → xs ++ i ∷ [] ≢ []
append-ne-nil [] i e = cc
append-ne-nil (x ∷ xs) i e = cc

module _ {D : Type 0} ⦃decimal : Decimal D⦄ where
  -- The levels of a side with one id more, at a price.
  pub record Extended (price : D) (id : Uuid) (before after : Levels D) : Type 1 where
    pub prices : (P : D → Type 0) → P price → All (λ e. P e.0) before → All (λ e. P e.0) after
    pub ascending : Ascending before → Ascending after
    pub kept : (other : D) (j : Uuid) → Holds other j before → Holds other j after
    pub added : Holds price id after
    pub ok :
        (orders : List (Uuid × Order D)) (side : Side)
        → Queued orders side price id
        → All (LevelOk orders side) before
        → All (LevelOk orders side) after

  -- An order of the side would not trade with the other side at once.
  abbrev pub NotCrossing : Book D → Side → D → Type 0
  NotCrossing self buy price = All (λ e. ltb_dec price e.0 ≡ true) self.asks
  NotCrossing self sell price = All (λ e. ltb_dec e.0 price ≡ true) self.bids

module _ {D : Type 0} ⦃decimal : Decimal D⦄ (laws : DecimalLaws decimal) where
  -- The three places where an id can be pushed.
  module _ (price p : D) (id : Uuid) (queue : List Uuid) (levels : Levels D) where
    push_entry_cases {κ} :
        (R : Levels D → Type κ)
        → (ltb_dec price p ≡ true → R ((price, id ∷ []) ∷ (p, queue) ∷ levels))
        → (price ≡ p → R ((p, queue ++ id ∷ []) ∷ levels))
        → (ltb_dec p price ≡ true → R ((p, queue) ∷ push_entry price id levels))
        → R (push_entry price id ((p, queue) ∷ levels))
    unfolding push_entry
    push_entry_cases R fresh here later = elim (Ordering-cases (decimal.compare price p)) [
      | inl e ↦ rw (e, push_entry) (fresh (ground (arith, laws.compare_swap price p)))
      | inr (inl e) ↦ rw (e, push_entry) (here (laws.compare_eq price p e))
      | inr (inr e) ↦ rw (e, push_entry) (later (ground arith))
    ]

  module _ (price : D) (id : Uuid) where
    All-push_entry {κ} :
        (P : D → Type κ) (levels : Levels D)
        → P price
        → All (λ e. P e.0) levels
        → All (λ e. P e.0) (push_entry price id levels)
    unfolding push_entry
    All-push_entry P [] new h = (new, tt)
    All-push_entry P ((p, queue) ∷ levels) new h =
        push_entry_cases price p id queue levels (All (λ e. P e.0)) (λ _. (new, h)) (λ _. h)
          (λ _. (h.0, All-push_entry P levels new h.1))

    Ascending-push_entry :
        (levels : Levels D) → Ascending levels → Ascending (push_entry price id levels)
    unfolding push_entry
    Ascending-push_entry [] h = (tt, tt)
    Ascending-push_entry ((p, queue) ∷ levels) h =
        push_entry_cases price p id queue levels Ascending
          (λ e. ((e, All-map (λ q k. ltb_trans laws price p q.0 e k) levels h.0), h)) (λ _. h)
          (λ e. (
            All-push_entry (λ q. ltb_dec p q ≡ true) levels e h.0,
            Ascending-push_entry levels h.1,
          ))

    Holds-push_entry :
        (other : D) (j : Uuid) (levels : Levels D)
        → Holds other j levels
        → Holds other j (push_entry price id levels)
    unfolding push_entry
    Holds-push_entry other j [] h = absurd h
    Holds-push_entry other j ((p, queue) ∷ levels) h =
        push_entry_cases price p id queue levels (Holds other j) (λ _. inr h)
          (λ _. map_either (λ k. (k.0, In-append_left j queue _ k.1)) (λ k. k) h)
          (λ _. map_either (λ k. k) (Holds-push_entry other j levels) h)

    Holds-push_entry_self : (levels : Levels D) → Holds price id (push_entry price id levels)
    unfolding push_entry
    Holds-push_entry_self [] = inl (refl, inl refl)
    Holds-push_entry_self ((p, queue) ∷ levels) =
        push_entry_cases price p id queue levels (Holds price id) (λ _. inl (refl, inl refl))
          (λ e. inl (sym e, In-append_last id queue)) (λ _. inr (Holds-push_entry_self levels))

    LevelOk-push_entry :
        (orders : List (Uuid × Order D)) (side : Side) (levels : Levels D)
        → Queued orders side price id
        → All (LevelOk orders side) levels
        → All (LevelOk orders side) (push_entry price id levels)
    unfolding push_entry
    LevelOk-push_entry orders side [] new h = (((λ e. cc), (new, tt)), tt)
    LevelOk-push_entry orders side ((p, queue) ∷ levels) new h =
        push_entry_cases price p id queue levels (All (LevelOk orders side))
          (λ _. (((λ e. cc), (new, tt)), h))
          (λ e. (
            (
              append-ne-nil queue id,
              All-append (Queued orders side p) queue (id ∷ []) h.0.1
                  (subst (λ c. Queued orders side c id) e new, tt),
            ),
            h.1,
          ))
          (λ _. (h.0, LevelOk-push_entry orders side levels new h.1))

    pub push_entry-Extended :
        (levels : Levels D) → Extended price id levels (push_entry price id levels)
    push_entry-Extended levels = record {
      prices = λ P new h. All-push_entry P levels new h;
      ascending = Ascending-push_entry levels;
      kept = λ other j h. Holds-push_entry other j levels h;
      added = Holds-push_entry_self levels;
      ok = λ orders side new h. LevelOk-push_entry orders side levels new h;
    }

  module _ (self next : Book D) (o : Order D) (ok_book : WellFormed self)
      (fresh : lookup o.id self.orders ≡ none) (resting : Resting o)
      (orders_are : next.orders ≡ insert o.id o self.orders)
      (grown : Extended o.limit_price o.id (levels_of self o.side) (levels_of next o.side))
      (other : (side : Side) → o.side ≢ side → levels_of next side ≡ levels_of self side) where
    new_Queued : Queued (insert o.id o self.orders) o.side o.limit_price o.id
    new_Queued = record {
      order = o;
      found = lookup-insert_self o.id o self.orders;
      on_side = refl;
      at_price = refl;
    }

    on_each_side {κ} :
        (P : Levels D → Type κ) (side : Side)
        → (o.side ≡ side → P (levels_of next side))
        → P (levels_of self side)
        → P (levels_of next side)
    on_each_side P side here there = elim (same_side_cases o.side side) [
      | inl e ↦ here e
      | inr n ↦ rw (other side n) there
    ]

    levels_ok : (side : Side) → All (LevelOk (insert o.id o self.orders) side) (levels_of self side)
    levels_ok side =
        LevelOk-insert self.orders o.id o side _ (λ p e. absurd (cc)) (ok_book.queues side)

    queues-extended :
        (side : Side) → All (LevelOk (insert o.id o self.orders) side) (levels_of next side)
    queues-extended side =
        on_each_side (All (LevelOk (insert o.id o self.orders) side)) side
          (λ e.
            subst (λ s. All (LevelOk (insert o.id o self.orders) s) (levels_of next s)) e
              (grown.ok _ o.side new_Queued (levels_ok o.side)))
          (levels_ok side)

    Ascending-extended : (side : Side) → Ascending (levels_of next side)
    Ascending-extended side =
        on_each_side Ascending side
          (λ e.
            subst (λ s. Ascending (levels_of next s)) e
              (grown.ascending (ok_book.ascending o.side)))
          (ok_book.ascending side)

    Placed-extended :
        (j : Uuid) (p : Order D) → lookup j (insert o.id o self.orders) ≡ some p → Placed next j p
    Placed-extended j p h = elim (Bool-cases (o.id == j)) [
      | inl e ↦
          let is_j : o.id ≡ j = ground (arith, ==_iff o.id j) in
          let is_o : o ≡ p = ground (arith, lookup-insert o.id j o self.orders) in
          subst (λ k. Placed next k p) is_j
            (subst (λ q. Placed next o.id q) is_o
              (record { same_id = refl; resting = resting; held = grown.added }))
      | inr e ↦
          let was = ok_book.placed j p (
            sym (lookup-insert_ne o.id j o self.orders (λ q. ground (arith, ==_iff o.id j))) ∙ h) in
          record {
            same_id = was.same_id;
            resting = was.resting;
            held =
                on_each_side (Holds p.limit_price j) p.side
                  (λ s.
                    subst (λ t. Holds p.limit_price j (levels_of next t)) s
                      (grown.kept p.limit_price j
                        (subst (λ t. Holds p.limit_price j (levels_of self t)) (sym s) was.held)))
                  was.held;
          }
    ]

    -- A book with one resting order more, which does not cross, is well-formed.
    pub extended-WellFormed : NotCrossing self o.side o.limit_price → WellFormed next
    extended-WellFormed apart = record {
      queues = λ side. rw orders_are (queues-extended side);
      ascending = Ascending-extended;
      placed = λ j p h. Placed-extended j p (rw orders_are at h);
      uncrossed = by_side o.side refl apart;
    }
      where
        by_side :
            (s : Side)
            → o.side ≡ s
            → NotCrossing self s o.limit_price
            → All (λ b. All (λ a. ltb_dec b.0 a.0 ≡ true) next.asks) next.bids
        by_side buy e away =
            let asks_same : next.asks ≡ self.asks = other sell (λ q. cc) in
            let bids : Extended o.limit_price o.id self.bids next.bids =
              subst (λ t. Extended o.limit_price o.id (levels_of self t) (levels_of next t)) e
                grown in
            rw asks_same
              (bids.prices (λ b. All (λ a. ltb_dec b a.0 ≡ true) self.asks) away ok_book.uncrossed)
        by_side sell e away =
            let bids_same : next.bids ≡ self.bids = other buy (λ q. cc) in
            let asks : Extended o.limit_price o.id self.asks next.asks =
              subst (λ t. Extended o.limit_price o.id (levels_of self t) (levels_of next t)) e
                grown in
            rw bids_same (
              All-map (λ b k. asks.prices (λ a. ltb_dec b.0 a ≡ true) k.0 k.1) self.bids
                (All-zip (λ b. ltb_dec b.0 o.limit_price ≡ true)
                  (λ b. All (λ a. ltb_dec b.0 a.0 ≡ true) self.asks) self.bids away
                  ok_book.uncrossed))

  -- The same for an order that is pushed to the end of its queue.
  pub pushed-WellFormed :
      (self : Book D) (o : Order D) (ok_book : WellFormed self)
      → lookup o.id self.orders ≡ none
      → Resting o
      → NotCrossing self o.side o.limit_price
      → WellFormed (record (push_level self o.side o.limit_price o.id) {
        orders = insert o.id o self.orders;
      })
  unfolding push_level
  pushed-WellFormed self o ok_book fresh resting apart =
      extended-WellFormed self (next o.side) o ok_book fresh resting refl (grown o.side)
        (other o.side) apart
    where
      next : Side → Book D
      next s = record (push_level self s o.limit_price o.id) { orders = insert o.id o self.orders }

      grown : (s : Side) → Extended o.limit_price o.id (levels_of self s) (levels_of (next s) s)
      grown buy = push_entry-Extended o.limit_price o.id self.bids
      grown sell = push_entry-Extended o.limit_price o.id self.asks

      other : (s side : Side) → s ≢ side → levels_of (next s) side ≡ levels_of self side
      other buy buy n = absurd (n refl)
      other buy sell n = refl
      other sell buy n = refl
      other sell sell n = absurd (n refl)

  -- A push changes no order.
  pub orders-push_level :
      (self : Book D) (side : Side) (price : D) (id : Uuid)
      → (push_level self side price id).orders ≡ self.orders
  unfolding push_level
  orders-push_level self buy price id = refl
  orders-push_level self sell price id = refl
