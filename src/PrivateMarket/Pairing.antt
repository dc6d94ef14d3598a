-- ===== src/PrivateMarket/Pairing.antt =====
-- src/private_market.rs: `pair_fills`, which pairs the executed buys and sells of a batch in order of
-- their ids.
use asteria.Base.{
  ℕ, zero, suc, ◌+◌, Bool, false, ◌||◌, not, List, [], ◌∷◌, ◌++◌, map, Option, some, none, ◌==◌,
  ltb, min, if◌then◌else◌, length, filter, sort_by, checked_add, checked_sub, u64_bound,
}
use asteria.Base.Result.{Result, ok, err, ◌>>=◌, ◌>>◌, ok_or, fail_if}
use asteria.Auction.Types.{compare_bytes}
use asteria.Domain.{Side, buy, sell, same_side, MarketConfig}
use asteria.PrivateMarket.Types.{
  FixedDecimal, ParticipantAllocation, BatchFill, PrivateMarketError, fill_conservation,
  arithmetic_overflow,
}
use asteria.PrivateMarket.Units.{lots_to_quantity}

-- An allocation with the lots of it that are not paired yet.
abbrev pub Entry : Type 0 → Type 0
Entry D = ParticipantAllocation D × ℕ

-- The vector of one side, split at its index: the entries that are passed, and those from the index.
pub record Queue (D : Type 0) : Type 0 where
  pub passed : List (Entry D)
  pub left : List (Entry D)

pub record PairState (D : Type 0) : Type 0 where
  pub buys : Queue D
  pub sells : Queue D
  pub paired_lots : ℕ
  pub fills : List (BatchFill D)

module _ {D : Type 0} where
  -- The entries of one side in order of their ids.
  unfoldable pub side_entries : Side → List (ParticipantAllocation D) → List (Entry D)
  side_entries side allocations =
      sort_by (λ (a, _) (b, _). compare_bytes a.participant.order_id b.participant.order_id)
        (map (λ a. (a, a.executed_lots))
          (filter (λ a. if same_side a.participant.side side then ltb 0 a.executed_lots else false)
            allocations))

  -- The index moves on when the entry has nothing left.
  unfoldable pub advance : List (Entry D) → ParticipantAllocation D → ℕ → List (Entry D) → Queue D
  advance passed allocation remaining rest =
      if remaining == 0
      then record { passed = passed ++ (allocation, remaining) ∷ []; left = rest }
      else record { passed = passed; left = (allocation, remaining) ∷ rest }

  -- `any(|(_, remaining)| *remaining != 0)`
  unfoldable pub any_remaining : List (Entry D) → Bool
  any_remaining [] = false
  any_remaining ((_, remaining) ∷ entries) = not (remaining == 0) || any_remaining entries

  -- The test after the loop.
  unfoldable pub is_unpaired : ℕ → PairState D → Bool
  unfolding any_remaining
  is_unpaired matched_lots state =
      not (state.paired_lots == matched_lots)
      || any_remaining (state.buys.passed ++ state.buys.left)
      || any_remaining (state.sells.passed ++ state.sells.left)

  module _ ⦃fixed : FixedDecimal D⦄ (market : MarketConfig D) (price_ticks : ℕ) (price : D) where
    -- One pass of the `while` loop, at the two entries under the indices.
    unfoldable pub pair_next :
        Entry D
        → List (Entry D)
        → Entry D
        → List (Entry D)
        → PairState D
        → Result (PrivateMarketError D) (PairState D)
    unfolding advance lots_to_quantity
    pair_next (bought, b) buys (sold, s) sells state = do
      fail_if (min b s == 0) fill_conservation
      quantity ← lots_to_quantity (min b s) market
      paired ← ok_or (checked_add u64_bound state.paired_lots (min b s)) arithmetic_overflow
      b_left ← ok_or (checked_sub b (min b s)) arithmetic_overflow
      s_left ← ok_or (checked_sub s (min b s)) arithmetic_overflow
      ok (record {
        buys = advance state.buys.passed bought b_left buys;
        sells = advance state.sells.passed sold s_left sells;
        paired_lots = paired;
        fills =
            state.fills
            ++ record {
              buy_order_id = bought.participant.order_id;
              sell_order_id = sold.participant.order_id;
              buy_account_id = bought.participant.account_id;
              sell_account_id = sold.participant.account_id;
              price_ticks = price_ticks;
              price = price;
              quantity_lots = min b s;
              quantity = quantity;
            }
              ∷ [];
      })

    -- Each pass moves an index on, so there are at most as many passes as entries.
    unfoldable pub pair_loop : ℕ → PairState D → Result (PrivateMarketError D) (PairState D)
    unfolding pair_next
    pair_loop zero state = ok state
    pair_loop (suc fuel) state = elim state.buys.left [
      | [] ↦ ok state
      | b ∷ buys ↦ elim state.sells.left [
        | [] ↦ ok state
        | s ∷ sells ↦ do next ← pair_next b buys s sells state; pair_loop fuel next
      ]
    ]

    -- The loop and the test after it.
    unfoldable pub pair_entries :
        List (Entry D) → List (Entry D) → ℕ → Result (PrivateMarketError D) (List (BatchFill D))
    unfolding pair_loop is_unpaired
    pair_entries buys sells matched_lots = do
      state ← pair_loop (length buys + length sells) (record {
        buys = record { passed = []; left = buys };
        sells = record { passed = []; left = sells };
        paired_lots = 0;
        fills = [];
      })
      fail_if (is_unpaired matched_lots state) fill_conservation
      ok state.fills

  module _ ⦃fixed : FixedDecimal D⦄ (market : MarketConfig D) where
    unfoldable pub pair_fills :
        List (ParticipantAllocation D)
        → Option ℕ
        → Option D
        → ℕ
        → Result (PrivateMarketError D) (List (BatchFill D))
    unfolding pair_entries side_entries
    pair_fills allocations clearing_price_ticks clearing_price matched_lots =
        if matched_lots == 0
        then elim clearing_price_ticks [
          | some _ ↦ err fill_conservation
          | none ↦ elim clearing_price [ some _ ↦ err fill_conservation | none ↦ ok [] ]
        ]
        else do
          ticks ← ok_or clearing_price_ticks fill_conservation
          price ← ok_or clearing_price fill_conservation
          pair_entries market ticks price (side_entries buy allocations)
              (side_entries sell allocations) matched_lots
