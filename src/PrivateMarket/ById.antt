-- ===== src/PrivateMarket/ById.antt =====
-- src/private_market.rs: a `BTreeMap` from order ids, as a list in order of the ids.
use asteria.Base.{List, [], ◌∷◌, Option, none, some, Ordering}
use asteria.Auction.Types.{OrderId, compare_bytes}

abbrev pub ById : Type 0 → Type 0
ById V = List (OrderId × V)

module _ {V : Type 0} where
  unfoldable pub find_by_id : OrderId → ById V → Option V
  find_by_id id [] = none
  find_by_id id ((key, value) ∷ entries) = elim (compare_bytes id key) [
    | Ordering.eq ↦ some value
    | _ ↦ find_by_id id entries
  ]

  unfoldable pub insert_by_id : OrderId → V → ById V → ById V
  insert_by_id id value [] = (id, value) ∷ []
  insert_by_id id value ((key, old) ∷ entries) =
      let rest = insert_by_id id value entries in
      elim (compare_bytes id key) [
        | Ordering.lt ↦ (id, value) ∷ (key, old) ∷ entries
        | Ordering.eq ↦ (key, value) ∷ entries
        | Ordering.gt ↦ (key, old) ∷ rest
      ]

  unfoldable pub remove_by_id : OrderId → ById V → ById V
  remove_by_id id [] = []
  remove_by_id id ((key, value) ∷ entries) =
      let rest = remove_by_id id entries in
      elim (compare_bytes id key) [ Ordering.eq ↦ entries | _ ↦ (key, value) ∷ rest ]
