-- ===== src/PrivateMarket/Enough.antt =====
-- src/private_market.rs: the loop of `pair_fills` ends, and pairs all lots where both sides have as
-- many.
use asteria.Base.{
  ℕ, zero, suc, ◌+◌, ◌-◌, ◌≤◌, ◌<◌, ◌≡◌, ◌⊎◌, inl, inr, refl, ap, ◌∙◌, subst, true, false, List, [],
  ◌∷◌, ◌++◌, ◌==◌, min, leb, Bool-cases, length, arith, u64_bound,
}
use asteria.Base.Result.{ok, Returns}
use asteria.Domain.{MarketConfig}
use asteria.PrivateMarket.Types.{FixedDecimal}
use asteria.PrivateMarket.Units.{lots_to_quantity}
use asteria.PrivateMarket.Pairing.{
  Entry, PairState, Queue, advance, pair_loop, pair_entries, any_remaining, is_unpaired,
}
use asteria.PrivateMarket.Shares.{
  filled_lots, entry_lots, Positive, advance-Positive, advance-length, advance-length_zero,
  any_remaining-append,
}
use asteria.PrivateMarket.Progress.{Progress, Passes, Passes-Progress, pair_next-Returns}
use asteria.PrivateMarket.Fills.{Turn, Stopped, loop-cases, start-Progress, state_of}

length-zero : {A : Type 0} (xs : List A) → length xs ≤ 0 → xs ≡ []
length-zero [] h = refl
length-zero (x ∷ xs) h = absurd (omega arith)

no_lots : {D : Type 0} (es : List (Entry D)) → Positive es → entry_lots (λ _. true) es ≡ 0 → es ≡ []
no_lots [] h z = refl
no_lots ((a, lots) ∷ es) h z = absurd (omega (arith, h.0, z))

module _ {D : Type 0} ⦃fixed : FixedDecimal D⦄ (market : MarketConfig D) (price_ticks : ℕ)
    (price : D) (buys sells : List (Entry D)) (total : ℕ)
    (all_bought : entry_lots (λ _. true) buys ≡ total)
    (all_sold : entry_lots (λ _. true) sells ≡ total) (small : total < u64_bound)
    (converts : (n : ℕ) → n ≤ total → (q : D) × (lots_to_quantity n market ≡ ok q)) where
  -- What the loop keeps, beside its progress, to run to its end.
  record Runs (state : PairState D) : Type 0 where
    progress : Progress market price_ticks price buys sells state
    buys_positive : Positive state.buys.left
    sells_positive : Positive state.sells.left

  record Ends (state : PairState D) : Type 0 where
    runs : Runs state
    at_end : (state.buys.left ≡ []) ⊎ (state.sells.left ≡ [])

  room :
      (fuel : ℕ) (state : PairState D) (t : Turn market price_ticks price buys sells fuel state)
      → Runs state
      → (0 < t.b) × (0 < t.s) × (state.paired_lots + min t.b t.s ≤ total)
  room fuel state t r =
      let b>0 : Positive ((t.a, t.b) ∷ t.bs) = subst Positive t.at_buys r.buys_positive in
      let s>0 : Positive ((t.c, t.s) ∷ t.ss) = subst Positive t.at_sells r.sells_positive in
      let e = ap (entry_lots (λ _. true)) t.at_buys in
      let bought : filled_lots state.fills + entry_lots (λ _. true) state.buys.left ≡ total =
        r.progress.bought (λ _. true) ∙ all_bought in
      (b>0.0, s>0.0, omega (arith, r.progress.paired, bought, e))

  Turn-Runs :
      (fuel : ℕ) (state next : PairState D)
      (t : Turn market price_ticks price buys sells fuel state)
      → Passes market price_ticks price t.a t.b t.bs t.c t.s t.ss state next
      → Runs state
      → Runs next
  Turn-Runs fuel state next t p r =
      let b>0 : Positive ((t.a, t.b) ∷ t.bs) = subst Positive t.at_buys r.buys_positive in
      let s>0 : Positive ((t.c, t.s) ∷ t.ss) = subst Positive t.at_sells r.sells_positive in
      record {
        progress =
            Passes-Progress market price_ticks price t.a t.b t.bs t.c t.s t.ss state buys sells next
              p t.at_buys t.at_sells r.progress;
        buys_positive = rw p.reached (advance-Positive _ t.a (t.b - min t.b t.s) t.bs b>0.1);
        sells_positive = rw p.reached (advance-Positive _ t.c (t.s - min t.b t.s) t.ss s>0.1);
      }

  Turn-length :
      (fuel : ℕ) (state next : PairState D)
      (t : Turn market price_ticks price buys sells fuel state)
      → Passes market price_ticks price t.a t.b t.bs t.c t.s t.ss state next
      → suc (length next.buys.left + length next.sells.left)
        ≤ length state.buys.left + length state.sells.left
  Turn-length fuel state next t p =
      let next_buys : length next.buys.left
          ≡ length (advance state.buys.passed t.a (t.b - min t.b t.s) t.bs).left =
        ap (λ (n : PairState D). length n.buys.left) p.reached in
      let next_sells : length next.sells.left
          ≡ length (advance state.sells.passed t.c (t.s - min t.b t.s) t.ss).left =
        ap (λ (n : PairState D). length n.sells.left) p.reached in
      let e = ap length t.at_buys in
      let e' = ap length t.at_sells in
      elim (Bool-cases (leb t.b t.s)) [
        | inl le ↦ omega (
          arith,
          next_buys,
          next_sells,
          e,
          e',
          advance-length_zero state.buys.passed t.a (t.b - min t.b t.s) t.bs (ground arith),
          advance-length state.sells.passed t.c (t.s - min t.b t.s) t.ss,
        )
        | inr gt ↦ omega (
          arith,
          next_buys,
          next_sells,
          e,
          e',
          advance-length state.buys.passed t.a (t.b - min t.b t.s) t.bs,
          advance-length_zero state.sells.passed t.c (t.s - min t.b t.s) t.ss (ground arith),
        )
      ]

  pair_loop-Ends :
      (fuel : ℕ) (state : PairState D)
      → Runs state
      → length state.buys.left + length state.sells.left ≤ fuel
      → Returns (pair_loop market price_ticks price fuel state) Ends
  unfolding Stopped
  pair_loop-Ends zero state r h = (
    state,
    unfold pair_loop in refl,
    record { runs = r; at_end = inl (length-zero state.buys.left (omega arith)) },
  )
  pair_loop-Ends (suc fuel) state r h =
      elim (loop-cases market price_ticks price buys sells fuel state) [
        | inl (stopped, at_end) ↦ (state, stopped, record { runs = r; at_end = at_end })
        | inr t ↦
            let (b>0, s>0, fits) = room fuel state t r in
            let (q, converted) = converts (min t.b t.s) (omega arith) in
            let (next, passed, p) =
              pair_next-Returns market price_ticks price t.a t.b t.bs t.c t.s t.ss state b>0 s>0
                (omega arith) q converted in
            let shorter = Turn-length fuel state next t p in
            let (last, ran, ends) =
              pair_loop-Ends fuel next (Turn-Runs fuel state next t p r) (omega arith) in
            (last, rw (t.turned, passed) ran, ends)
      ]

  -- Both queues are at their end, since they lose the same lots.
  both_empty : (state : PairState D) → Ends state → (state.buys.left ≡ []) × (state.sells.left ≡ [])
  both_empty state ends =
      let g = ends.runs.progress in
      let bought : filled_lots state.fills + entry_lots (λ _. true) state.buys.left ≡ total =
        g.bought (λ _. true) ∙ all_bought in
      let sold : filled_lots state.fills + entry_lots (λ _. true) state.sells.left ≡ total =
        g.sold (λ _. true) ∙ all_sold in
      elim ends.at_end [
        | inl e ↦
            let z : entry_lots (λ _. true) state.buys.left ≡ 0 = ap (entry_lots (λ _. true)) e in
            (e, no_lots state.sells.left ends.runs.sells_positive (omega (arith, z, bought, sold)))
        | inr e ↦
            let z : entry_lots (λ _. true) state.sells.left ≡ 0 = ap (entry_lots (λ _. true)) e in
            (no_lots state.buys.left ends.runs.buys_positive (omega (arith, z, bought, sold)), e)
      ]

  nothing_remains :
      (queue : Queue D)
      → any_remaining queue.passed ≡ false
      → queue.left ≡ []
      → any_remaining (queue.passed ++ queue.left) ≡ false
  nothing_remains queue h e =
      rw e (any_remaining-append queue.passed [] h (unfold any_remaining in refl))

  pub pair_entries-Returns :
      Positive buys
      → Positive sells
      → Returns (pair_entries market price_ticks price buys sells total) (λ _. Unit {0})
  unfolding pair_entries is_unpaired
  pair_entries-Returns b>0 s>0 =
      let (last, ran, ends) =
        pair_loop-Ends (length buys + length sells) (state_of [] buys [] sells 0 [])
          (record {
            progress = start-Progress market price_ticks price buys sells;
            buys_positive = b>0;
            sells_positive = s>0;
          })
          (omega arith) in
      let g = ends.runs.progress in
      let (no_buys, no_sells) = both_empty last ends in
      let bought : filled_lots last.fills + entry_lots (λ _. true) last.buys.left ≡ total =
        g.bought (λ _. true) ∙ all_bought in
      let z : entry_lots (λ _. true) last.buys.left ≡ 0 = ap (entry_lots (λ _. true)) no_buys in
      let all : (last.paired_lots == total) ≡ true = ground (arith, bought, z, g.paired) in
      let b_done = nothing_remains last.buys g.buys_passed no_buys in
      let s_done = nothing_remains last.sells g.sells_passed no_sells in
      (last.fills, rw (ran, all, b_done, s_done), tt)
