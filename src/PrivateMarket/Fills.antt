-- ===== src/PrivateMarket/Fills.antt =====
-- src/private_market.rs: `pair_fills` hands each order what the auction executed for it.
use asteria.Base.{
  or-false, ℕ, zero, suc, ◌+◌, ◌≡◌, ◌⊎◌, inl, inr, refl, subst, Bool, false, not, List, [], ◌∷◌,
  ◌++◌, ◌==◌, length, All, arith,
}
use asteria.Base.Result.{fail_if-eq-ok, ok-inj, ok, fail_if, >>=-eq-ok, ◌>>=◌}
use asteria.Auction.Types.{OrderId}
use asteria.Domain.{MarketConfig}
use asteria.PrivateMarket.Types.{
  FixedDecimal, ParticipantAllocation, BatchFill, PrivateMarketError, fill_conservation,
}
use asteria.PrivateMarket.Pairing.{
  Entry, PairState, pair_next, pair_loop, pair_entries, any_remaining, is_unpaired,
}
use asteria.PrivateMarket.Shares.{
  bought_lots, sold_lots, filled_lots, entry_lots, any_remaining-append_right, any_remaining-lots,
}
use asteria.PrivateMarket.Progress.{GoodFill, Progress, Passes-Progress, pair_next-Passes}

module _ {D : Type 0} where
  abbrev pub state_of :
      List (Entry D)
      → List (Entry D)
      → List (Entry D)
      → List (Entry D)
      → ℕ
      → List (BatchFill D)
      → PairState D
  state_of passed left passed' left' paired fills = record {
    buys = record { passed = passed; left = left };
    sells = record { passed = passed'; left = left' };
    paired_lots = paired;
    fills = fills;
  }

module _ {D : Type 0} ⦃fixed : FixedDecimal D⦄ (market : MarketConfig D) (price_ticks : ℕ)
    (price : D) (buys sells : List (Entry D)) where
  -- One turn of the loop: it stops where a queue is at its end, or a pass comes before the rest.
  pub record Turn (fuel : ℕ) (state : PairState D) : Type 0 where
    pub a : ParticipantAllocation D
    pub b : ℕ
    pub bs : List (Entry D)
    pub c : ParticipantAllocation D
    pub s : ℕ
    pub ss : List (Entry D)
    pub at_buys : state.buys.left ≡ (a, b) ∷ bs
    pub at_sells : state.sells.left ≡ (c, s) ∷ ss
    pub turned : pair_loop market price_ticks price (suc fuel) state ≡ (
        pair_next market price_ticks price (a, b) bs (c, s) ss state
        >>= pair_loop market price_ticks price fuel)

  unfoldable pub Stopped : ℕ → PairState D → Type 0
  Stopped fuel state =
      (pair_loop market price_ticks price (suc fuel) state ≡ ok state)
      × ((state.buys.left ≡ []) ⊎ (state.sells.left ≡ []))

  Turn-cases :
      (fuel : ℕ) (passed left passed' left' : List (Entry D)) (paired : ℕ)
      (fills : List (BatchFill D))
      → Stopped fuel (state_of passed left passed' left' paired fills)
        ⊎ Turn fuel (state_of passed left passed' left' paired fills)
  unfolding Stopped pair_loop
  Turn-cases fuel passed [] passed' left' paired fills = inl (refl, inl refl)
  Turn-cases fuel passed ((a, b) ∷ bs) passed' [] paired fills = inl (refl, inr refl)
  Turn-cases fuel passed ((a, b) ∷ bs) passed' ((c, s) ∷ ss) paired fills = inr (record {
    a = a;
    b = b;
    bs = bs;
    c = c;
    s = s;
    ss = ss;
    at_buys = refl;
    at_sells = refl;
    turned = refl;
  })

  pub loop-cases : (fuel : ℕ) (state : PairState D) → Stopped fuel state ⊎ Turn fuel state
  loop-cases fuel state =
      Turn-cases fuel state.buys.passed state.buys.left state.sells.passed state.sells.left
        state.paired_lots state.fills

  pub pair_loop-Progress :
      (fuel : ℕ) (state last : PairState D)
      → pair_loop market price_ticks price fuel state ≡ ok last
      → Progress market price_ticks price buys sells state
      → Progress market price_ticks price buys sells last
  unfolding Stopped
  pair_loop-Progress zero state last h g =
      let same : state ≡ last = unfold pair_loop in ok-inj h in
      subst (Progress market price_ticks price buys sells) same g
  pair_loop-Progress (suc fuel) state last h g = elim (loop-cases fuel state) [
    | inl (stopped, _) ↦
        let same : state ≡ last = cc in subst (Progress market price_ticks price buys sells) same g
    | inr t ↦
        let (next, passed, rest) =
          >>=-eq-ok (pair_next market price_ticks price (t.a, t.b) t.bs (t.c, t.s) t.ss state)
            (pair_loop market price_ticks price fuel) (rw (← t.turned) h) in
        let p =
          pair_next-Passes market price_ticks price t.a t.b t.bs t.c t.s t.ss state next passed in
        pair_loop-Progress fuel next last rest (
          Passes-Progress market price_ticks price t.a t.b t.bs t.c t.s t.ss state buys sells next p
            t.at_buys t.at_sells g)
  ]

  -- The fills give each set of orders what the queues held for it, and move the matched lots.
  pub record Settles (matched_lots : ℕ) (fills : List (BatchFill D)) : Type 0 where
    pub bought : (p : OrderId → Bool) → bought_lots p fills ≡ entry_lots p buys
    pub sold : (p : OrderId → Bool) → sold_lots p fills ≡ entry_lots p sells
    pub total : filled_lots fills ≡ matched_lots
    pub good : All (GoodFill market price_ticks price) fills

  pub start-Progress : Progress market price_ticks price buys sells (state_of [] buys [] sells 0 [])
  start-Progress =
      unfold any_remaining in
      record {
        bought = λ p. omega arith;
        sold = λ p. omega arith;
        paired = refl;
        good = tt;
        buys_passed = refl;
        sells_passed = refl;
      }

  checked-Settles :
      (matched_lots : ℕ) (state : PairState D)
      → Progress market price_ticks price buys sells state
      → is_unpaired matched_lots state ≡ false
      → Settles matched_lots state.fills
  unfolding is_unpaired
  checked-Settles matched_lots state g h =
      let (rest, no_sells) =
        or-false _ (any_remaining (state.sells.passed ++ state.sells.left)) h in
      let (same, no_buys) =
        or-false (not (state.paired_lots == matched_lots))
          (any_remaining (state.buys.passed ++ state.buys.left)) rest in
      let b_done = any_remaining-append_right state.buys.passed state.buys.left no_buys in
      let s_done = any_remaining-append_right state.sells.passed state.sells.left no_sells in
      record {
        bought = λ p. omega (arith, g.bought p, any_remaining-lots p state.buys.left b_done);
        sold = λ p. omega (arith, g.sold p, any_remaining-lots p state.sells.left s_done);
        total = ground (arith, g.paired);
        good = g.good;
      }

  pub pair_entries-Settles :
      (matched_lots : ℕ) (fills : List (BatchFill D))
      → pair_entries market price_ticks price buys sells matched_lots ≡ ok fills
      → Settles matched_lots fills
  unfolding pair_entries
  pair_entries-Settles matched_lots fills h =
      let (state, ran, h1) =
        >>=-eq-ok
          (pair_loop market price_ticks price (length buys + length sells)
            (state_of [] buys [] sells 0 []))
          _ h in
      let (_, checked, h2) =
        >>=-eq-ok (fail_if (is_unpaired matched_lots state) fill_conservation) _ h1 in
      subst (Settles matched_lots) (ok-inj h2) (
        checked-Settles matched_lots state
          (pair_loop-Progress (length buys + length sells) _ state ran start-Progress)
          (fail_if-eq-ok {E = PrivateMarketError D} (is_unpaired matched_lots state)
            fill_conservation checked))
