-- ===== src/OrderBook/Levels.antt =====
-- src/orderbook.rs: the queues of a side by price.
use asteria.Base.{not, List, [], ◌∷◌, ◌++◌, Option, none, some, ◌==◌, filter, Ordering}
use asteria.Domain.{Uuid, Side, buy, sell}
use asteria.Decimal.{Decimal}
use asteria.OrderBook.Types.{Levels, Book}

module _ {D : Type 0} where
  -- A queue without the id; a level that is left empty goes.
  abbrev pub keep_level : D → List Uuid → Levels D → Levels D
  keep_level p [] levels = levels
  keep_level p (i ∷ queue) levels = (p, i ∷ queue) ∷ levels

module _ {D : Type 0} ⦃decimal : Decimal D⦄ where
  -- `levels.entry(price).or_default().push_back(order_id)`
  unfoldable pub push_entry : D → Uuid → Levels D → Levels D
  push_entry price id [] = (price, id ∷ []) ∷ []
  push_entry price id ((p, queue) ∷ levels) = elim (decimal.compare price p) [
    | Ordering.lt ↦ (price, id ∷ []) ∷ (p, queue) ∷ levels
    | Ordering.eq ↦ (p, queue ++ id ∷ []) ∷ levels
    | Ordering.gt ↦ (p, queue) ∷ push_entry price id levels
  ]

  unfoldable pub remove_entry : D → Uuid → Levels D → Levels D
  remove_entry price id [] = []
  remove_entry price id ((p, queue) ∷ levels) = elim (decimal.compare price p) [
    | Ordering.eq ↦ keep_level p (filter (λ i. not (i == id)) queue) levels
    | _ ↦ (p, queue) ∷ remove_entry price id levels
  ]

  unfoldable pub push_level : Book D → Side → D → Uuid → Book D
  push_level self buy price id = record self { bids = push_entry price id self.bids }
  push_level self sell price id = record self { asks = push_entry price id self.asks }

  unfoldable pub remove_from_level : Book D → Side → D → Uuid → Book D
  remove_from_level self buy price id = record self { bids = remove_entry price id self.bids }
  remove_from_level self sell price id = record self { asks = remove_entry price id self.asks }

  -- The first or the last entry, and the front of its queue, which must not be empty.
  unfoldable pub last_entry : Levels D → Option (D × List Uuid)
  last_entry [] = none
  last_entry (entry ∷ []) = some entry
  last_entry (entry ∷ next ∷ levels) = last_entry (next ∷ levels)

  unfoldable pub first_entry : Levels D → Option (D × List Uuid)
  first_entry [] = none
  first_entry (entry ∷ levels) = some entry
