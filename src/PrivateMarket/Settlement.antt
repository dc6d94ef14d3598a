-- ===== src/PrivateMarket/Settlement.antt =====
-- src/private_market.rs: the fills of a batch settle its allocations.
use asteria.Base.{
  ℕ, ◌≤◌, ◌<◌, ◌≡◌, refl, sym, ◌∙◌, Bool, true, false, List, Option, none, some, ◌==◌, All,
  u64_bound, arith,
}
use asteria.Base.Result.{Result, ok, err, Returns}
use asteria.Auction.Types.{OrderId}
use asteria.Domain.{buy, sell, MarketConfig}
use asteria.PrivateMarket.Types.{FixedDecimal, ParticipantAllocation, BatchFill, fill_conservation}
use asteria.PrivateMarket.Units.{lots_to_quantity}
use asteria.PrivateMarket.Pairing.{pair_fills, pair_entries, side_entries}
use asteria.PrivateMarket.Shares.{
  bought_lots, sold_lots, filled_lots, executed_lots, side_entries-lots, side_entries-Positive,
}
use asteria.PrivateMarket.Progress.{GoodFill}
use asteria.PrivateMarket.Fills.{Settles, pair_entries-Settles}
use asteria.PrivateMarket.Enough.{pair_entries-Returns}

ok-neq-err : {E A : Type 0} {r : Result E A} {a : A} {e : E} → r ≡ ok a → r ≡ err e → ⊥
ok-neq-err h k = cc

module _ {D : Type 0} ⦃fixed : FixedDecimal D⦄ (market : MarketConfig D)
    (allocations : List (ParticipantAllocation D)) where
  -- The fills at a price give each set of orders, as buyers and as sellers, what the auction executed
  -- for it, and move the matched lots.
  pub record IsSettled (price_ticks : ℕ) (price : D) (matched_lots : ℕ) (fills : List (BatchFill D))
      : Type 0 where
    pub bought : (p : OrderId → Bool) → bought_lots p fills ≡ executed_lots p buy allocations
    pub sold : (p : OrderId → Bool) → sold_lots p fills ≡ executed_lots p sell allocations
    pub total : filled_lots fills ≡ matched_lots
    pub good : All (GoodFill market price_ticks price) fills

  Settles-IsSettled :
      (price_ticks : ℕ) (price : D) (matched_lots : ℕ) (fills : List (BatchFill D))
      → Settles market price_ticks price
          (side_entries buy allocations)
          (side_entries sell allocations)
          matched_lots
          fills
      → IsSettled price_ticks price matched_lots fills
  Settles-IsSettled price_ticks price matched_lots fills h = record {
    bought = λ p. h.bought p ∙ side_entries-lots p buy allocations;
    sold = λ p. h.sold p ∙ side_entries-lots p sell allocations;
    total = h.total;
    good = h.good;
  }

  -- Whenever `pair_fills` returns fills for a positive matched quantity, there is a clearing price, and
  -- every set of orders buys and sells in them exactly the lots that its allocations on that side
  -- executed; the fills move the matched lots, each a positive number of them, at the clearing price.
  pub pair_fills-IsSettled :
      (price_ticks : Option ℕ) (price : Option D) (matched_lots : ℕ) (fills : List (BatchFill D))
      → 0 < matched_lots
      → pair_fills market allocations price_ticks price matched_lots ≡ ok fills
      → (ticks : ℕ) × (value : D) × (price_ticks ≡ some ticks)
        × (price ≡ some value)
        × IsSettled ticks value matched_lots fills
  unfolding pair_fills
  pair_fills-IsSettled none price matched_lots fills positive h =
      let nonzero : (matched_lots == 0) ≡ false = ground arith in
      let refused : pair_fills market allocations none price matched_lots ≡ err fill_conservation =
        rw nonzero in
      absurd (ok-neq-err h refused)
  pair_fills-IsSettled (some ticks) none matched_lots fills positive h =
      let nonzero : (matched_lots == 0) ≡ false = ground arith in
      let refused : pair_fills market allocations (some ticks) none matched_lots
          ≡ err fill_conservation =
        rw nonzero in
      absurd (ok-neq-err h refused)
  pair_fills-IsSettled (some ticks) (some value) matched_lots fills positive h =
      let nonzero : (matched_lots == 0) ≡ false = ground arith in
      let ran : pair_fills market allocations (some ticks) (some value) matched_lots
          ≡ pair_entries market ticks value (side_entries buy allocations)
              (side_entries sell allocations) matched_lots =
        rw nonzero in
      (
        ticks,
        value,
        refl,
        refl,
        Settles-IsSettled ticks value matched_lots fills (
            pair_entries-Settles market ticks value (side_entries buy allocations)
              (side_entries sell allocations) matched_lots fills (sym ran ∙ h)),
      )

  -- Where both sides executed the same positive lots, in the range of `u64`, and lots up to that number
  -- convert to quantities, `pair_fills` succeeds, and what it returns settles the allocations.
  pub pair_fills-succeeds :
      (price_ticks : ℕ) (price : D) (matched_lots : ℕ)
      → 0 < matched_lots
      → matched_lots < u64_bound
      → executed_lots (λ _. true) buy allocations ≡ matched_lots
      → executed_lots (λ _. true) sell allocations ≡ matched_lots
      → ((n : ℕ) → n ≤ matched_lots → (q : D) × (lots_to_quantity n market ≡ ok q))
      → Returns
          (pair_fills market allocations (some price_ticks) (some price) matched_lots)
          (IsSettled price_ticks price matched_lots)
  unfolding pair_fills
  pair_fills-succeeds price_ticks price matched_lots positive small bought sold converts =
      let nonzero : (matched_lots == 0) ≡ false = ground arith in
      let (fills, ran, _) =
        pair_entries-Returns market price_ticks price (side_entries buy allocations)
          (side_entries sell allocations) matched_lots
          (side_entries-lots (λ _. true) buy allocations ∙ bought)
          (side_entries-lots (λ _. true) sell allocations ∙ sold) small converts
          (side_entries-Positive buy allocations) (side_entries-Positive sell allocations) in
      (
        fills,
        rw (nonzero, ran),
        Settles-IsSettled price_ticks price matched_lots fills (
            pair_entries-Settles market price_ticks price (side_entries buy allocations)
              (side_entries sell allocations) matched_lots fills ran),
      )
