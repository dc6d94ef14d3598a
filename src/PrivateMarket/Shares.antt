-- ===== src/PrivateMarket/Shares.antt =====
-- src/private_market.rs: what orders share in fills, and how the queues of `pair_fills` lose it.
use asteria.Base.{
  ℕ, zero, suc, ◌+◌, ◌≤◌, ◌<◌, ◌≡◌, refl, Bool, false, List, [], ◌∷◌, ◌++◌, map, ◌==◌, ltb,
  if◌then◌else◌, length, filter, sum_of, sum_of-sort_by, All, All-sort_by, Bool-cases, arith, inl,
  inr,
}
use asteria.Auction.Types.{OrderId}
use asteria.Domain.{Side, same_side}
use asteria.PrivateMarket.Types.{ParticipantAllocation, BatchFill}
use asteria.PrivateMarket.Pairing.{Entry, side_entries, advance, any_remaining}

-- The lots that count for a set of orders.
abbrev pub share : (OrderId → Bool) → OrderId → ℕ → ℕ
share p id lots = if p id then lots else 0

module _ {D : Type 0} where
  -- The lots that a set of orders buys, and that it sells.
  abbrev pub bought_lots : (OrderId → Bool) → List (BatchFill D) → ℕ
  bought_lots p fills = sum_of (λ f. share p f.buy_order_id f.quantity_lots) fills

  abbrev pub sold_lots : (OrderId → Bool) → List (BatchFill D) → ℕ
  sold_lots p fills = sum_of (λ f. share p f.sell_order_id f.quantity_lots) fills

  abbrev pub filled_lots : List (BatchFill D) → ℕ
  filled_lots fills = sum_of (λ f. f.quantity_lots) fills

  -- The lots that the auction executed for a set of orders on one side.
  abbrev pub executed_lots : (OrderId → Bool) → Side → List (ParticipantAllocation D) → ℕ
  executed_lots p side allocations =
      sum_of
        (λ a.
          if same_side a.participant.side side
          then share p a.participant.order_id a.executed_lots
          else 0)
        allocations

  abbrev pub entry_share : (OrderId → Bool) → Entry D → ℕ
  entry_share p (a, lots) = share p a.participant.order_id lots

  abbrev pub entry_lots : (OrderId → Bool) → List (Entry D) → ℕ
  entry_lots p entries = sum_of (entry_share p) entries

  abbrev pub Positive : List (Entry D) → Type 0
  Positive = All λ (e : Entry D). 0 < e.1

  chosen_lots :
      (p : OrderId → Bool) (side : Side) (allocations : List (ParticipantAllocation D))
      → entry_lots p (
          map
            (λ a. (a, a.executed_lots))
            (filter
              (λ a. if same_side a.participant.side side then ltb 0 a.executed_lots else false)
              allocations))
        ≡ executed_lots p side allocations
  chosen_lots p side [] = refl
  chosen_lots p side (a ∷ as') = ground (arith, chosen_lots p side as')

  -- The queue of a side holds what its orders executed.
  pub side_entries-lots :
      (p : OrderId → Bool) (side : Side) (allocations : List (ParticipantAllocation D))
      → entry_lots p (side_entries side allocations) ≡ executed_lots p side allocations
  unfolding side_entries
  side_entries-lots p side allocations =
      rw (sum_of-sort_by _ (entry_share p) _) (chosen_lots p side allocations)

  chosen-Positive :
      (side : Side) (allocations : List (ParticipantAllocation D))
      → Positive (
          map
            (λ a. (a, a.executed_lots))
            (filter
              (λ a. if same_side a.participant.side side then ltb 0 a.executed_lots else false)
              allocations))
  chosen-Positive side [] = tt
  chosen-Positive side (a ∷ as') =
      elim (Bool-cases
        (if same_side a.participant.side side then ltb 0 a.executed_lots else false)) [
          | inl e ↦ rw e (ground arith, chosen-Positive side as')
          | inr e ↦ rw e (chosen-Positive side as')
        ]

  pub side_entries-Positive :
      (side : Side) (allocations : List (ParticipantAllocation D))
      → Positive (side_entries side allocations)
  unfolding side_entries
  side_entries-Positive side allocations =
      All-sort_by _ (λ e. 0 < e.1) _ (chosen-Positive side allocations)

  pub advance-lots :
      (p : OrderId → Bool) (passed : List (Entry D)) (a : ParticipantAllocation D) (lots : ℕ)
      (rest : List (Entry D))
      → entry_lots p (advance passed a lots rest).left
        ≡ share p a.participant.order_id lots + entry_lots p rest
  unfolding advance
  advance-lots p passed a lots rest = ground arith

  pub advance-Positive :
      (passed : List (Entry D)) (a : ParticipantAllocation D) (lots : ℕ) (rest : List (Entry D))
      → Positive rest
      → Positive (advance passed a lots rest).left
  unfolding advance
  advance-Positive passed a lots rest h = elim (Bool-cases (lots == 0)) [
    | inl e ↦ rw e h
    | inr e ↦ rw e (ground arith, h)
  ]

  pub any_remaining-append :
      (es fs : List (Entry D))
      → any_remaining es ≡ false
      → any_remaining fs ≡ false
      → any_remaining (es ++ fs) ≡ false
  unfolding any_remaining
  any_remaining-append [] fs h k = k
  any_remaining-append ((a, zero) ∷ es) fs h k = any_remaining-append es fs h k
  any_remaining-append ((a, suc lots) ∷ es) fs h k = absurd (ground arith)

  pub any_remaining-append_right :
      (es fs : List (Entry D)) → any_remaining (es ++ fs) ≡ false → any_remaining fs ≡ false
  unfolding any_remaining
  any_remaining-append_right [] fs h = h
  any_remaining-append_right ((a, zero) ∷ es) fs h = any_remaining-append_right es fs h
  any_remaining-append_right ((a, suc lots) ∷ es) fs h = absurd (ground arith)

  pub any_remaining-lots :
      (p : OrderId → Bool) (es : List (Entry D)) → any_remaining es ≡ false → entry_lots p es ≡ 0
  unfolding any_remaining
  any_remaining-lots p [] h = refl
  any_remaining-lots p ((a, zero) ∷ es) h = ground (arith, any_remaining-lots p es h)
  any_remaining-lots p ((a, suc lots) ∷ es) h = absurd (ground arith)

  pub advance-passed :
      (passed : List (Entry D)) (a : ParticipantAllocation D) (lots : ℕ) (rest : List (Entry D))
      → any_remaining passed ≡ false
      → any_remaining (advance passed a lots rest).passed ≡ false
  unfolding advance any_remaining
  advance-passed passed a lots rest h = elim (Bool-cases (lots == 0)) [
    | inl e ↦ rw e (any_remaining-append passed ((a, lots) ∷ []) h (ground arith))
    | inr e ↦ rw e h
  ]

  pub advance-length :
      (passed : List (Entry D)) (a : ParticipantAllocation D) (lots : ℕ) (rest : List (Entry D))
      → length (advance passed a lots rest).left ≤ suc (length rest)
  unfolding advance
  advance-length passed a lots rest = ground arith

  pub advance-length_zero :
      (passed : List (Entry D)) (a : ParticipantAllocation D) (lots : ℕ) (rest : List (Entry D))
      → lots ≡ 0
      → length (advance passed a lots rest).left ≡ length rest
  unfolding advance
  advance-length_zero passed a lots rest h = ground arith
