-- ===== src/OrderBook/Removal.antt =====
-- src/orderbook.rs: taking an order out of the book keeps the book well-formed.
use asteria.Base.{
  ◌≡◌, ◌≢◌, ◌⊎◌, inl, inr, sym, ap, ◌∙◌, true, not, List, [], ◌∷◌, some, All, All-map, ◌==◌,
  All-filter, filter-holds, All-zip, filter, arith, Ordering, Bool-cases, map_either, ==_iff,
  lookup, erase, lookup-erase_ne,
}
use asteria.Domain.{Uuid, Side, Order}
use asteria.Decimal.{Decimal, DecimalLaws, ltb_dec}
use asteria.Decimal.Order.{ltb-ne, same_number}
use asteria.OrderBook.Types.{Levels}
use asteria.OrderBook.Levels.{keep_level, remove_entry}
use asteria.OrderBook.WellFormed.{In, Holds, Queued, LevelOk, Ascending}

In-filter :
    (id j : Uuid) (queue : List Uuid)
    → j ≢ id
    → In j queue
    → In j (filter (λ i. not (i == id)) queue)
In-filter id j [] ne h = h
In-filter id j (i ∷ queue) ne (inl e) =
    let kept : not (i == id) ≡ true = ground (arith, ==_iff i id) in rw kept (inl e)
In-filter id j (i ∷ queue) ne (inr h) = elim (Bool-cases (not (i == id))) [
  | inl e ↦ rw e (inr (In-filter id j queue ne h))
  | inr e ↦ rw e (In-filter id j queue ne h)
]

module _ {D : Type 0} where
  -- A level that is kept has the property if it is not empty.
  All-keep_level {κ} :
      (P : D × List Uuid → Type κ) (p : D) (queue : List Uuid) (levels : Levels D)
      → (queue ≢ [] → P (p, queue))
      → All P levels
      → All P (keep_level p queue levels)
  All-keep_level P p [] levels h k = k
  All-keep_level P p (i ∷ queue) levels h k = (h (λ e. cc), k)

  Holds-keep_level :
      (p price : D) (j : Uuid) (queue : List Uuid) (levels : Levels D)
      → ((p ≡ price) × In j queue) ⊎ Holds price j levels
      → Holds price j (keep_level p queue levels)
  Holds-keep_level p price j [] levels (inl (e, h)) = absurd h
  Holds-keep_level p price j [] levels (inr h) = h
  Holds-keep_level p price j (i ∷ queue) levels h = h

  -- An order that goes leaves the ids of other sides and prices as they are.
  Queued-erase :
      (orders : List (Uuid × Order D)) (side : Side) (p : D) (id i : Uuid)
      → id ≢ i
      → Queued orders side p i
      → Queued (erase id orders) side p i
  Queued-erase orders side p id i ne q = record {
    order = q.order;
    found = lookup-erase_ne id i orders ne ∙ q.found;
    on_side = q.on_side;
    at_price = q.at_price;
  }

  -- The id of an order stands in no queue of another side or price.
  ne_of_elsewhere :
      (orders : List (Uuid × Order D)) (side : Side) (p : D) (id i : Uuid) (o : Order D)
      → lookup id orders ≡ some o
      → ¬ ((o.side ≡ side) × (o.limit_price ≡ p))
      → Queued orders side p i
      → id ≢ i
  ne_of_elsewhere orders side p id i o found away q e =
      let same : some o ≡ some q.order = sym found ∙ ap (λ k. lookup k orders) e ∙ q.found in
      let is_it : o ≡ q.order = cc same in
      away (ap (λ x. x.side) is_it ∙ q.on_side, ap (λ x. x.limit_price) is_it ∙ q.at_price)

  LevelOk-elsewhere :
      (orders : List (Uuid × Order D)) (side : Side) (id : Uuid) (o : Order D) (e : D × List Uuid)
      → lookup id orders ≡ some o
      → ¬ ((o.side ≡ side) × (o.limit_price ≡ e.0))
      → LevelOk orders side e
      → LevelOk (erase id orders) side e
  LevelOk-elsewhere orders side id o e found away h = (
    h.0,
    All-map
        (λ i q.
          Queued-erase orders side e.0 id i (ne_of_elsewhere orders side e.0 id i o found away q) q)
        e.1 h.1,
  )

module _ {D : Type 0} ⦃decimal : Decimal D⦄ (laws : DecimalLaws decimal) where
  remove_entry_here :
      (price p : D) (id : Uuid) (queue : List Uuid) (levels : Levels D)
      → price ≡ p
      → remove_entry price id ((p, queue) ∷ levels)
        ≡ keep_level p (filter (λ i. not (i == id)) queue) levels
  unfolding remove_entry
  remove_entry_here price p id queue levels e = ground (arith, laws.compare_refl price)

  remove_entry_there :
      (price p : D) (id : Uuid) (queue : List Uuid) (levels : Levels D)
      → decimal.compare price p ≢ Ordering.eq
      → remove_entry price id ((p, queue) ∷ levels) ≡ (p, queue) ∷ remove_entry price id levels
  unfolding remove_entry
  remove_entry_there price p id queue levels h = ground arith

  -- What holds of every price holds of those that are left.
  pub All-remove_entry {κ} :
      (P : D → Type κ) (price : D) (id : Uuid) (levels : Levels D)
      → All (λ e. P e.0) levels
      → All (λ e. P e.0) (remove_entry price id levels)
  unfolding remove_entry
  All-remove_entry P price id [] h = tt
  All-remove_entry P price id ((p, queue) ∷ levels) h = elim (same_number laws price p) [
    | inl e ↦
        rw (remove_entry_here price p id queue levels e)
          (All-keep_level (λ e. P e.0) p _ levels (λ _. h.0) h.1)
    | inr n ↦
        rw (remove_entry_there price p id queue levels n)
          (h.0, All-remove_entry P price id levels h.1)
  ]

  -- The order of the levels stays.
  pub Ascending-remove_entry :
      (price : D) (id : Uuid) (levels : Levels D)
      → Ascending levels
      → Ascending (remove_entry price id levels)
  unfolding remove_entry
  Ascending-remove_entry price id [] h = tt
  Ascending-remove_entry price id ((p, queue) ∷ levels) h = elim (same_number laws price p) [
    | inl e ↦ rw (remove_entry_here price p id queue levels e) (Ascending-keep_level _)
    | inr n ↦ rw (remove_entry_there price p id queue levels n) (
      All-remove_entry (λ q. ltb_dec p q ≡ true) price id levels h.0,
      Ascending-remove_entry price id levels h.1,
    )
  ]
    where
      Ascending-keep_level : (q : List Uuid) → Ascending (keep_level p q levels)
      Ascending-keep_level [] = h.1
      Ascending-keep_level (i ∷ q) = h

  -- Other ids keep their place.
  pub Holds-remove_entry :
      (price other : D) (id j : Uuid) (levels : Levels D)
      → j ≢ id
      → Holds other j levels
      → Holds other j (remove_entry price id levels)
  unfolding remove_entry
  Holds-remove_entry price other id j [] ne h = h
  Holds-remove_entry price other id j ((p, queue) ∷ levels) ne h = elim (same_number laws price p) [
    | inl e ↦ rw (remove_entry_here price p id queue levels e) (
        Holds-keep_level p other j _ levels
          (map_either (λ k. (k.0, In-filter id j queue ne k.1)) (λ k. k) h))
    | inr n ↦
        rw (remove_entry_there price p id queue levels n)
          (map_either (λ k. k) (Holds-remove_entry price other id j levels ne) h)
  ]

  module _ (orders : List (Uuid × Order D)) (id : Uuid) (o : Order D)
      (found : lookup id orders ≡ some o) where
    -- The prices above another are not it.
    Elsewhere-above :
        (side : Side) (p : D) (levels : Levels D)
        → o.limit_price ≡ p
        → All (λ e. ltb_dec p e.0 ≡ true) levels
        → All (LevelOk orders side) levels
        → All (LevelOk (erase id orders) side) levels
    Elsewhere-above side p [] at above h = tt
    Elsewhere-above side p (e ∷ levels) at above h = (
      LevelOk-elsewhere orders side id o e found (λ q. ltb-ne laws p e.0 above.0 (sym at ∙ q.1))
          h.0,
      Elsewhere-above side p levels at above.1 h.1,
    )

    -- The ids that stay in the queue are other orders.
    Queued-filter :
        (side : Side) (p : D) (queue : List Uuid)
        → All (Queued orders side p) queue
        → All (Queued (erase id orders) side p) (filter (λ i. not (i == id)) queue)
    Queued-filter side p queue h =
        All-map (λ i k. Queued-erase orders side p id i (λ e. ground (arith, ==_iff i id)) k.1) _
          (All-zip (λ i. not (i == id) ≡ true) (Queued orders side p) _
            (filter-holds (λ i. not (i == id)) queue)
            (All-filter (λ i. not (i == id)) (Queued orders side p) queue h))

    pub LevelOk-remove_entry :
        (side : Side) (levels : Levels D)
        → Ascending levels
        → All (LevelOk orders side) levels
        → All (LevelOk (erase id orders) side) (remove_entry o.limit_price id levels)
    unfolding remove_entry
    LevelOk-remove_entry side [] up h = tt
    LevelOk-remove_entry side ((p, queue) ∷ levels) up h = elim (same_number laws o.limit_price p) [
      | inl e ↦ rw (remove_entry_here o.limit_price p id queue levels e) (
          All-keep_level (LevelOk (erase id orders) side) p _ levels
            (λ ne. (ne, Queued-filter side p queue h.0.1))
            (Elsewhere-above side p levels e up.0 h.1))
      | inr n ↦ rw (remove_entry_there o.limit_price p id queue levels n) (
        LevelOk-elsewhere orders side id o (p, queue) found (λ q. n (rw q.1 (laws.compare_refl p)))
            h.0,
        LevelOk-remove_entry side levels up.1 h.1,
      )
    ]

    -- The levels of the other side.
    pub LevelOk-other_side :
        (side : Side) (levels : Levels D)
        → o.side ≢ side
        → All (LevelOk orders side) levels
        → All (LevelOk (erase id orders) side) levels
    LevelOk-other_side side levels ne h =
        All-map (λ e k. LevelOk-elsewhere orders side id o e found (λ q. ne q.0) k) levels h
