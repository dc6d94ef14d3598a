-- ===== src/PrivateMarket/Progress.antt =====
-- src/private_market.rs: what the loop of `pair_fills` keeps.
use asteria.Base.{
  ℕ, ◌+◌, ◌-◌, ◌<◌, ◌≡◌, refl, sym, ap, Bool, false, List, [], ◌∷◌, ◌++◌, some, ◌==◌, min,
  sum_of-append, All, All-append, arith, checked_add, checked_sub, u64_bound,
}
use asteria.Base.Result.{ok-inj, Result, ok, Returns, ok_or, fail_if, >>=-eq-ok}
use asteria.Auction.Types.{OrderId}
use asteria.Domain.{MarketConfig}
use asteria.PrivateMarket.Types.{
  FixedDecimal, ParticipantAllocation, BatchFill, PrivateMarketError, fill_conservation,
  arithmetic_overflow,
}
use asteria.PrivateMarket.Units.{lots_to_quantity}
use asteria.PrivateMarket.Pairing.{Entry, PairState, advance, pair_next, any_remaining}
use asteria.PrivateMarket.Shares.{
  share, bought_lots, sold_lots, filled_lots, entry_lots, advance-lots, advance-passed,
}

ok_or-checked_add :
    {E : Type 0} (e : E) (bound a b c : ℕ) → ok_or (checked_add bound a b) e ≡ ok c → c ≡ a + b
ok_or-checked_add e bound a b c h = ground arith

ok_or-checked_sub : {E : Type 0} (e : E) (a b c : ℕ) → ok_or (checked_sub a b) e ≡ ok c → c ≡ a - b
ok_or-checked_sub e a b c h = ground arith

-- A fill moves lots, at the clearing price, and states them as a quantity too.
pub record GoodFill {D : Type 0} ⦃fixed : FixedDecimal D⦄ (market : MarketConfig D)
    (price_ticks : ℕ) (price : D) (fill : BatchFill D) : Type 0 where
  pub positive : 0 < fill.quantity_lots
  pub at_ticks : fill.price_ticks ≡ price_ticks
  pub at_price : fill.price ≡ price
  pub converted : lots_to_quantity fill.quantity_lots market ≡ ok fill.quantity

module _ {D : Type 0} ⦃fixed : FixedDecimal D⦄ (market : MarketConfig D) (price_ticks : ℕ)
    (price : D) where
  -- What the fills and the queues hold together is what the queues held at first.
  pub record Progress (buys sells : List (Entry D)) (state : PairState D) : Type 0 where
    pub bought :
        (p : OrderId → Bool)
        → bought_lots p state.fills + entry_lots p state.buys.left ≡ entry_lots p buys
    pub sold :
        (p : OrderId → Bool)
        → sold_lots p state.fills + entry_lots p state.sells.left ≡ entry_lots p sells
    pub paired : state.paired_lots ≡ filled_lots state.fills
    pub good : All (GoodFill market price_ticks price) state.fills
    pub buys_passed : any_remaining state.buys.passed ≡ false
    pub sells_passed : any_remaining state.sells.passed ≡ false

  module _ (bought : ParticipantAllocation D) (b : ℕ) (buys : List (Entry D))
      (sold : ParticipantAllocation D) (s : ℕ) (sells : List (Entry D)) (state : PairState D) where
    -- The state after a pass that succeeds.
    abbrev paired_fill : D → BatchFill D
    paired_fill quantity = record {
      buy_order_id = bought.participant.order_id;
      sell_order_id = sold.participant.order_id;
      buy_account_id = bought.participant.account_id;
      sell_account_id = sold.participant.account_id;
      price_ticks = price_ticks;
      price = price;
      quantity_lots = min b s;
      quantity = quantity;
    }

    abbrev state_after : D → ℕ → ℕ → ℕ → PairState D
    state_after quantity paired b_left s_left = record {
      buys = advance state.buys.passed bought b_left buys;
      sells = advance state.sells.passed sold s_left sells;
      paired_lots = paired;
      fills = state.fills ++ paired_fill quantity ∷ [];
    }

    abbrev pub paired_state : D → PairState D
    paired_state quantity =
        state_after quantity (state.paired_lots + min b s) (b - min b s) (s - min b s)

    pub record Passes (next : PairState D) : Type 0 where
      pub quantity : D
      pub reached : next ≡ paired_state quantity
      pub positive : 0 < min b s
      pub converted : lots_to_quantity (min b s) market ≡ ok quantity

    state_after-Passes :
        (next : PairState D) (quantity : D) (paired b_left s_left : ℕ)
        → fail_if {E = PrivateMarketError D} (min b s == 0) fill_conservation ≡ ok tt
        → lots_to_quantity (min b s) market ≡ ok quantity
        → ok_or {E = PrivateMarketError D}
            (checked_add u64_bound state.paired_lots (min b s))
            arithmetic_overflow
          ≡ ok paired
        → ok_or {E = PrivateMarketError D} (checked_sub b (min b s)) arithmetic_overflow ≡ ok b_left
        → ok_or {E = PrivateMarketError D} (checked_sub s (min b s)) arithmetic_overflow ≡ ok s_left
        → ◌≡◌ {A = Result (PrivateMarketError D) (PairState D)}
            (ok (state_after quantity paired b_left s_left))
            (ok next)
        → Passes next
    state_after-Passes next quantity paired b_left s_left nonzero converted added b_taken s_taken
          h =
        record {
          quantity = quantity;
          reached =
              rw
                (
                  ← ok_or-checked_add _ _ _ _ _ added,
                  ← ok_or-checked_sub _ _ _ _ b_taken,
                  ← ok_or-checked_sub _ _ _ _ s_taken,
                )
                (sym (ok-inj h));
          positive = ground arith;
          converted = converted;
        }

    pub pair_next-Passes :
        (next : PairState D)
        → pair_next market price_ticks price (bought, b) buys (sold, s) sells state ≡ ok next
        → Passes next
    unfolding pair_next
    pair_next-Passes next h =
        let (_, nonzero, h1) = >>=-eq-ok (fail_if (min b s == 0) fill_conservation) _ h in
        let (quantity, converted, h2) = >>=-eq-ok (lots_to_quantity (min b s) market) _ h1 in
        let (paired, added, h3) =
          >>=-eq-ok (ok_or (checked_add u64_bound state.paired_lots (min b s)) arithmetic_overflow)
            _ h2 in
        let (b_left, b_taken, h4) =
          >>=-eq-ok (ok_or (checked_sub b (min b s)) arithmetic_overflow) _ h3 in
        let (s_left, s_taken, h5) =
          >>=-eq-ok (ok_or (checked_sub s (min b s)) arithmetic_overflow) _ h4 in
        state_after-Passes next quantity paired b_left s_left nonzero converted added b_taken
          s_taken h5

    module _ (all_buys all_sells : List (Entry D)) where
      paired_state-Progress :
          (quantity : D)
          → 0 < min b s
          → lots_to_quantity (min b s) market ≡ ok quantity
          → state.buys.left ≡ (bought, b) ∷ buys
          → state.sells.left ≡ (sold, s) ∷ sells
          → Progress all_buys all_sells state
          → Progress all_buys all_sells (paired_state quantity)
      paired_state-Progress quantity positive converted at_buys at_sells h = record {
        bought = λ p.
            let e = h.bought p in
            let e' : entry_lots p state.buys.left
                ≡ share p bought.participant.order_id b + entry_lots p buys =
              ap (entry_lots p) at_buys in
            rw
              (
                sum_of-append (λ f. share p f.buy_order_id f.quantity_lots) state.fills
                    (paired_fill quantity ∷ []),
                advance-lots p state.buys.passed bought (b - min b s) buys,
              )
              (ground (arith, e, e'));
        sold = λ p.
            let e = h.sold p in
            let e' : entry_lots p state.sells.left
                ≡ share p sold.participant.order_id s + entry_lots p sells =
              ap (entry_lots p) at_sells in
            rw
              (
                sum_of-append (λ f. share p f.sell_order_id f.quantity_lots) state.fills
                    (paired_fill quantity ∷ []),
                advance-lots p state.sells.passed sold (s - min b s) sells,
              )
              (ground (arith, e, e'));
        paired =
            rw (sum_of-append (λ f. f.quantity_lots) state.fills (paired_fill quantity ∷ []))
              (omega (arith, h.paired));
        good = All-append _ state.fills _ h.good (
          record { positive = positive; at_ticks = refl; at_price = refl; converted = converted },
          tt,
        );
        buys_passed = advance-passed _ bought (b - min b s) buys h.buys_passed;
        sells_passed = advance-passed _ sold (s - min b s) sells h.sells_passed;
      }

      pub Passes-Progress :
          (next : PairState D)
          → Passes next
          → state.buys.left ≡ (bought, b) ∷ buys
          → state.sells.left ≡ (sold, s) ∷ sells
          → Progress all_buys all_sells state
          → Progress all_buys all_sells next
      Passes-Progress next step at_buys at_sells h =
          rw step.reached
            (paired_state-Progress step.quantity step.positive step.converted at_buys at_sells h)

    -- A pass does not fail where both entries have lots, the lots convert, and the total fits.
    pub pair_next-Returns :
        0 < b
        → 0 < s
        → state.paired_lots + min b s < u64_bound
        → (quantity : D) → lots_to_quantity (min b s) market ≡ ok quantity
        → Returns (pair_next market price_ticks price (bought, b) buys (sold, s) sells state) Passes
    unfolding pair_next
    pair_next-Returns b>0 s>0 small quantity converted =
        let nonzero : (min b s == 0) ≡ false = ground arith in
        let added : checked_add u64_bound state.paired_lots (min b s)
            ≡ some (state.paired_lots + min b s) =
          ground arith in
        let b_taken : checked_sub b (min b s) ≡ some (b - min b s) = ground arith in
        let s_taken : checked_sub s (min b s) ≡ some (s - min b s) = ground arith in
        (
          paired_state quantity,
          rw (nonzero, converted, added, b_taken, s_taken),
          record {
            quantity = quantity;
            reached = refl;
            positive = omega arith;
            converted = converted;
          },
        )
