-- ===== src/PrivateMarket/Ordered.antt =====
-- src/private_market.rs: the map of the participants has each of them once, in order of their ids.
use mathlib.Core.List.{Perm, append-nil, perm_middle}
use mathlib.Core.List.Perm
use asteria.Base.{
  suc, ◌+◌, ◌≤◌, ◌≡◌, ◌⊎◌, refl, subst, inl, inr, List, [], ◌∷◌, ◌++◌, arith, length, map, All,
  All-map, Bytes, Ordering, ==_iff, ◌==◌, Bool-cases,
}
use asteria.Base.Result.{ok}
use asteria.Auction.Types.{OrderId, compare_bytes}
use asteria.PrivateMarket.Types.{BatchParticipant}
use asteria.PrivateMarket.ById.{ById, insert_by_id}
use asteria.PrivateMarket.Clearing.{participants_by_id, check_distinct}

Ordering-cases : (o : Ordering) → (o ≡ Ordering.lt) ⊎ ((o ≡ Ordering.eq) ⊎ (o ≡ Ordering.gt))
Ordering-cases Ordering.lt = inl refl
Ordering-cases Ordering.eq = inr (inl refl)
Ordering-cases Ordering.gt = inr (inr refl)

compare_bytes-eq : (a b : Bytes) → compare_bytes a b ≡ Ordering.eq → a ≡ b
compare_bytes-eq [] [] h = refl
compare_bytes-eq [] (y ∷ b) h = cc
compare_bytes-eq (x ∷ a) [] h = cc
compare_bytes-eq (x ∷ a) (y ∷ b) h = ground (arith, compare_bytes-eq a b)

compare_bytes-gt : (a b : Bytes) → compare_bytes a b ≡ Ordering.gt → compare_bytes b a ≡ Ordering.lt
compare_bytes-gt [] [] h = cc
compare_bytes-gt [] (y ∷ b) h = cc
compare_bytes-gt (x ∷ a) [] h = refl
compare_bytes-gt (x ∷ a) (y ∷ b) h = ground (arith, compare_bytes-gt a b)

compare_bytes-lt_trans :
    (a b c : Bytes)
    → compare_bytes a b ≡ Ordering.lt
    → compare_bytes b c ≡ Ordering.lt
    → compare_bytes a c ≡ Ordering.lt
compare_bytes-lt_trans [] [] c h k = cc
compare_bytes-lt_trans (x ∷ a) [] c h k = cc
compare_bytes-lt_trans [] (y ∷ b) [] h k = cc
compare_bytes-lt_trans [] (y ∷ b) (z ∷ c) h k = refl
compare_bytes-lt_trans (x ∷ a) (y ∷ b) [] h k = cc
compare_bytes-lt_trans (x ∷ a) (y ∷ b) (z ∷ c) h k = ground (arith, compare_bytes-lt_trans a b c)

-- Each id is smaller than every later one.
abbrev pub Ascending : List OrderId → Type 0
Ascending [] = Unit
Ascending (id ∷ ids) = All (λ other. compare_bytes id other ≡ Ordering.lt) ids × Ascending ids

module _ {D : Type 0} where
  abbrev pub ids_of : List (BatchParticipant D) → List OrderId
  ids_of = map (λ p. p.order_id)

  abbrev held : ById (BatchParticipant D) → List (BatchParticipant D)
  held = map (λ (_, p). p)

  -- The entries ascend, each under the id of its participant.
  abbrev Keyed : ById (BatchParticipant D) → Type 0
  Keyed [] = Unit
  Keyed ((id, p) ∷ entries) =
      (p.order_id ≡ id) × All (λ q. compare_bytes id q.0 ≡ Ordering.lt) entries × Keyed entries

  All-insert_by_id :
      (low : OrderId) (p : BatchParticipant D) (entries : ById (BatchParticipant D))
      → compare_bytes low p.order_id ≡ Ordering.lt
      → All (λ q. compare_bytes low q.0 ≡ Ordering.lt) entries
      → All (λ q. compare_bytes low q.0 ≡ Ordering.lt) (insert_by_id p.order_id p entries)
  unfolding insert_by_id
  All-insert_by_id low p [] h k = (h, tt)
  All-insert_by_id low p ((id, q) ∷ entries) h k =
      elim (Ordering-cases (compare_bytes p.order_id id)) [
        | inl e ↦ rw (e, insert_by_id) (h, k)
        | inr (inl e) ↦ rw (e, insert_by_id) k
        | inr (inr e) ↦ rw (e, insert_by_id) (k.0, All-insert_by_id low p entries h k.1)
      ]

  insert_by_id-Keyed :
      (p : BatchParticipant D) (entries : ById (BatchParticipant D))
      → Keyed entries
      → Keyed (insert_by_id p.order_id p entries)
  unfolding insert_by_id
  insert_by_id-Keyed p [] h = (refl, tt, tt)
  insert_by_id-Keyed p ((id, q) ∷ entries) h = elim (Ordering-cases (compare_bytes p.order_id id)) [
    | inl e ↦
        rw (e, insert_by_id)
          (refl, (e, All-map (λ r k. compare_bytes-lt_trans p.order_id id r.0 e k) entries h.1), h)
    | inr (inl e) ↦ rw (e, insert_by_id) (compare_bytes-eq p.order_id id e, h.1, h.2)
    | inr (inr e) ↦
        rw (e, insert_by_id)
          (
            h.0,
            All-insert_by_id id p entries (compare_bytes-gt p.order_id id e) h.1,
            insert_by_id-Keyed p entries h.2,
          )
  ]

  -- An insertion adds one entry, unless the id is there.
  record Inserts (p : BatchParticipant D) (entries after : ById (BatchParticipant D)) : Type 0 where
    at_most : length after ≤ suc (length entries)
    new : length after ≡ suc (length entries) → Perm (held after) (p ∷ held entries)

  insert_by_id-Inserts :
      (p : BatchParticipant D) (entries : ById (BatchParticipant D))
      → Inserts p entries (insert_by_id p.order_id p entries)
  unfolding insert_by_id
  insert_by_id-Inserts p [] = record { at_most = omega arith; new = λ _. Perm.refl _ }
  insert_by_id-Inserts p ((id, q) ∷ entries) =
      let rest = insert_by_id-Inserts p entries in
      elim (Ordering-cases (compare_bytes p.order_id id)) [
        | inl e ↦ rw (e, insert_by_id) (record { at_most = omega arith; new = λ _. Perm.refl _ })
        | inr (inl e) ↦
            rw (e, insert_by_id) (record { at_most = omega arith; new = λ k. absurd (omega arith) })
        | inr (inr e) ↦
            rw (e, insert_by_id)
              (record {
                at_most = omega (arith, rest.at_most);
                new = λ k.
                    Perm.trans (Perm.cons q (rest.new (omega arith)))
                      (Perm.swap p q (held entries));
              })
      ]

  record Gathers (participants : List (BatchParticipant D))
      (entries after : ById (BatchParticipant D)) : Type 0 where
    at_most : length after ≤ length participants + length entries
    new :
        length after ≡ length participants + length entries
        → Perm (held after) (participants ++ held entries)
    keyed : Keyed entries → Keyed after

  participants_by_id-Gathers :
      (participants : List (BatchParticipant D)) (entries : ById (BatchParticipant D))
      → Gathers participants entries (participants_by_id participants entries)
  unfolding participants_by_id
  participants_by_id-Gathers [] entries = record {
    at_most = omega arith;
    new = λ _. Perm.refl _;
    keyed = λ k. k;
  }
  participants_by_id-Gathers (p ∷ participants) entries =
      let first = insert_by_id-Inserts p entries in
      let rest = participants_by_id-Gathers participants (insert_by_id p.order_id p entries) in
      record {
        at_most = omega (arith, first.at_most, rest.at_most);
        new = λ k. Perm.trans (rest.new (omega (arith, first.at_most, rest.at_most))) (
            Perm.trans
              (Perm.append_left participants
                (first.new (omega (arith, first.at_most, rest.at_most))))
              (perm_middle participants (held entries)));
        keyed = λ k. rest.keyed (insert_by_id-Keyed p entries k);
      }

  Keyed-Ascending :
      (entries : ById (BatchParticipant D)) → Keyed entries → Ascending (ids_of (held entries))
  Keyed-Ascending [] h = tt
  Keyed-Ascending ((id, p) ∷ entries) h = (below entries h.2 h.1, Keyed-Ascending entries h.2)
    where
      below :
          (es : ById (BatchParticipant D))
          → Keyed es
          → All (λ q. compare_bytes id q.0 ≡ Ordering.lt) es
          → All (λ other. compare_bytes p.order_id other ≡ Ordering.lt) (ids_of (held es))
      below [] k l = tt
      below ((j, q) ∷ es) k l = (rw (h.0, k.0) l.0, below es k.2 l.1)

  -- Where the ids are checked, the list is that of the participants in another order, and their ids
  -- ascend.
  pub participants_by_id-Ordered :
      (participants : List (BatchParticipant D))
      → check_distinct participants (participants_by_id participants []) ≡ ok tt
      → Perm (held (participants_by_id participants [])) participants
        × Ascending (ids_of (held (participants_by_id participants [])))
  unfolding check_distinct
  participants_by_id-Ordered participants h =
      let g = participants_by_id-Gathers participants [] in
      elim (Bool-cases (length (participants_by_id participants []) == length participants)) [
        | inl e ↦
            let same = (==_iff _ _).0 e in
            (
              subst (Perm (held (participants_by_id participants []))) (append-nil participants)
                  (g.new (omega (arith, same))),
              Keyed-Ascending _ (g.keyed tt),
            )
        | inr e ↦ absurd (ground arith)
      ]
