-- ===== src/OrderBook/Loop.antt =====
-- src/orderbook.rs: the matching loop ends, with fuel for one pass more than there are orders and one
-- for the test after it.
use asteria.Base.{
  ℕ, zero, suc, ◌≡◌, ◌⊎◌, ◌<◌, ◌≤◌, ap, inl, inr, true, false, arith, Bool-cases, length,
}
use asteria.Domain.{Order}
use asteria.Decimal.{Decimal, DecimalLaws, ltb_dec}
use asteria.Decimal.Order.{not_positive_zero}
use asteria.OrderBook.Types.{Book, ok}
use asteria.OrderBook.Match.{Matching, match_loop}
use asteria.OrderBook.Pushed.{NotCrossing}
use asteria.OrderBook.Step.{LoopInv, breaks, goes_on, match_step_lem}

module _ {D : Type 0} ⦃decimal : Decimal D⦄ where
  -- Where the loop stops: the order is used up, or nothing more crosses it.
  abbrev pub Stopped : Order D → Matching D → Type 0
  Stopped start m =
      (ltb_dec decimal.zero m.incoming.remaining ≡ false)
      ⊎ NotCrossing m.book start.side start.limit_price

  abbrev Enough : ℕ → Matching D → Type 0
  Enough fuel m =
      (suc (suc (length m.book.orders)) ≤ fuel)
      ⊎ ((1 ≤ fuel) × (m.incoming.remaining ≡ decimal.zero))

  module _ (laws : DecimalLaws decimal) (before : Book D) (start : Order D) where
    pub match_loop-stops :
        (fuel : ℕ) (m : Matching D)
        → LoopInv before start m
        → Enough fuel m
        → (end : Matching D) × (match_loop fuel m ≡ ok end)
          × LoopInv before start end
          × Stopped start end
    unfolding match_loop
    match_loop-stops zero m inv (inl h) = absurd (omega arith)
    match_loop-stops zero m inv (inr h) = absurd (omega arith)
    match_loop-stops (suc fuel) m inv enough =
        elim (Bool-cases (ltb_dec decimal.zero m.incoming.remaining)) [
          | inr e ↦ (m, rw e, inv, inl e)
          | inl e ↦ elim (match_step_lem laws before start m inv e) [
            | breaks is apart ↦ (m, rw (e, is), inv, inr apart)
            | goes_on next is kept nearer ↦
                let (end, loops, at_end, stopped) =
                  match_loop-stops fuel next kept (enough_left next nearer e enough) in
                (end, rw (e, is) loops, at_end, stopped)
          ]
        ]
      where
        enough_left :
            (next : Matching D)
            → (length next.book.orders < length m.book.orders)
              ⊎ (next.incoming.remaining ≡ decimal.zero)
            → ltb_dec decimal.zero m.incoming.remaining ≡ true
            → Enough (suc fuel) m
            → Enough fuel next
        enough_left next (inl smaller) e (inl h) = inl (omega arith)
        enough_left next (inr done) e (inl h) = inr (omega arith, done)
        enough_left next nearer e (inr (h, done)) =
            absurd (ground (arith, not_positive_zero laws, ap (ltb_dec decimal.zero) done))
