-- ===== src/Auction/Optimal.antt =====
-- src/batch_auction.rs: `clear_batch` succeeds on valid batches, and chooses the best price.
use asteria.Base.{
  ℕ, ◌+◌, ◌*◌, ◌<◌, ◌≡◌, ◌⊎◌, ◌↔◌, refl, subst, true, inl, inr, List, [], ◌∷◌, Option, none, some,
  arith, Bool-cases, ◌==◌, length, All, All-map, ◌≢◌, u64_bound, Bytes,
}
use asteria.Base.Result.{ok, Returns, >>=-eq-ok}
use asteria.Auction.Types.{buy, limit, AuctionOrder, AuctionConfig, AuctionOutcome}
use asteria.Auction.Candidate.{CandidateOutcome, evaluate_candidate}
use asteria.Auction.Clear.{clear_batch, validate, candidate_prices, empty_outcome, outcome_of}
use asteria.Auction.Balanced.{Matched, executed}
use asteria.Auction.Validate.{validate_iff, IsValid, IsValid-IsBounded}
use asteria.Auction.Outcome.{IsCleared, outcome_of-IsCleared}
use asteria.Auction.Rounds.{evaluate_candidate-Matched}
use asteria.Auction.Prices.{HasLimit, limits-All, candidate_prices-All, candidate_prices-keeps}
use asteria.Auction.Ranking.{IsPreferred, is_better_than-IsPreferred}
use asteria.Auction.Best.{Unbeaten, AtLeastAsGood, IsChoice, AtPrice, best_candidate-optimal}

executed-empty :
    (orders : List AuctionOrder) (vs : List ℕ) → length orders ≡ 0 → executed buy orders vs ≡ 0
executed-empty [] vs h = refl
executed-empty (o ∷ os) vs h = absurd (omega arith)

module _ (sha256 : Bytes → Bytes) (config : AuctionConfig) (orders : List AuctionOrder) where
  -- The documented candidates: the reference price and the limit prices.
  abbrev pub IsCandidatePrice : ℕ → Type 0
  IsCandidatePrice price = (price ≡ config.reference_price) ⊎ HasLimit price orders

  candidate_prices-documented :
      All IsCandidatePrice (candidate_prices (config.reference_price ∷ []) orders)
  candidate_prices-documented =
      candidate_prices-keeps IsCandidatePrice (config.reference_price ∷ []) orders
        (limits-All IsCandidatePrice orders (λ p h. inr h)) (inl refl, tt)

  abbrev pub IsPreferredTo : Option CandidateOutcome → CandidateOutcome → Type 0
  IsPreferredTo none c = ⊥
  IsPreferredTo (some best) c = IsPreferred config.reference_price best c

  -- The choice is preferred to the outcome at the price, if that trades at all.
  abbrev pub IsPreferredAt : Option CandidateOutcome → ℕ → Type 0
  IsPreferredAt best price =
      (c : CandidateOutcome)
      → evaluate_candidate sha256 config orders price ≡ ok c
      → c.matched_quantity ≢ 0
      → IsPreferredTo best c

  Unbeaten-IsPreferredTo :
      (best : Option CandidateOutcome) (c : CandidateOutcome)
      → Unbeaten sha256 config orders best c
      → IsPreferredTo best c
  Unbeaten-IsPreferredTo none c h = h
  Unbeaten-IsPreferredTo (some best) c h =
      is_better_than-IsPreferred config.reference_price c best h

  AtLeastAsGood-IsPreferredAt :
      (best : Option CandidateOutcome) (price : ℕ)
      → AtLeastAsGood sha256 config orders best price
      → IsPreferredAt best price
  AtLeastAsGood-IsPreferredAt best price h c e nz = Unbeaten-IsPreferredTo best c (h c e nz)

  -- The choice behind an outcome: no candidate price does better.
  record IsBestOutcome (outcome : AuctionOutcome) : Type 0 where
    best : Option CandidateOutcome
    made : outcome ≡ outcome_of orders best
    choice : IsChoice sha256 config orders best
    at_candidate : AtPrice sha256 config orders IsCandidatePrice best
    unbeaten :
        All
          (AtLeastAsGood sha256 config orders best)
          (candidate_prices (config.reference_price ∷ []) orders)

  IsChoice-Matched :
      (best : Option CandidateOutcome)
      → IsChoice sha256 config orders best
      → (c : CandidateOutcome) → best ≡ some c
      → Matched orders c
  IsChoice-Matched none h c e = cc
  IsChoice-Matched (some b) h c e = let same : b ≡ c = cc in subst (Matched orders) same h.0

  module _ (valid : IsValid config orders) (small : length orders * 4 + 8 < u64_bound) where
    -- Without orders no price trades.
    no_orders :
        (length orders == 0) ≡ true
        → (prices : List ℕ) → All (AtLeastAsGood sha256 config orders none) prices
    no_orders z [] = tt
    no_orders z (p ∷ ps) = (
      λ c e nz.
          let (d, ran, (m, at)) =
            evaluate_candidate-Matched sha256 config orders p
              (IsValid-IsBounded config orders valid) small in
          let same : d ≡ c = cc in
          let empty : length orders ≡ 0 = ground arith in
          nz (rw (← same, ← m.bought) (executed-empty orders d.allocations empty)),
      no_orders z ps,
    )

    clear_batch-best : Returns (clear_batch sha256 config orders) IsBestOutcome
    unfolding clear_batch
    clear_batch-best =
        let accepted = (validate_iff config orders).1 valid in
        let (best, ran, (choice, unbeaten, _, at)) =
          best_candidate-optimal sha256 config orders (IsValid-IsBounded config orders valid) small
            IsCandidatePrice (candidate_prices (config.reference_price ∷ []) orders) none
            candidate_prices-documented tt tt in
        elim (Bool-cases (length orders == 0)) [
          | inl z ↦ (
            empty_outcome orders,
            rw (accepted, z),
            record {
              best = none;
              made = unfold outcome_of in refl;
              choice = tt;
              at_candidate = tt;
              unbeaten = no_orders z _;
            },
          )
          | inr nz ↦ (
            outcome_of orders best,
            rw (accepted, nz, ran),
            record {
              best = best;
              made = refl;
              choice = choice;
              at_candidate = at;
              unbeaten = unbeaten;
            },
          )
        ]

    -- A valid batch always clears: each order has one entry, in which it receives what it admits at
    -- the clearing price, and buys and sells both execute exactly the matched quantity.
    pub clear_batch-IsCleared : Returns (clear_batch sha256 config orders) (IsCleared orders)
    clear_batch-IsCleared =
        let (outcome, ran, b) = clear_batch-best in
        (
          outcome,
          ran,
          rw b.made (outcome_of-IsCleared orders b.best (IsChoice-Matched b.best b.choice)),
        )

    -- A valid batch of fewer than 2^62 - 2 orders has the outcome of a choice whose price is the
    -- reference price or a limit price of an order, and which trades. At the reference price and at
    -- every limit price, what is evaluated and trades does no better than the choice: the choice matches
    -- more; or as much, with a smaller imbalance; or with the same too, at a price nearer to the
    -- reference; or as near, and not higher. Where nothing is chosen, nothing trades at these prices.
    pub clear_batch-optimal : Returns (clear_batch sha256 config orders) (λ outcome.
        (best : Option CandidateOutcome) × (outcome ≡ outcome_of orders best)
        × IsChoice sha256 config orders best
        × AtPrice sha256 config orders IsCandidatePrice best
        × IsPreferredAt best config.reference_price
        × All (λ o. (p : ℕ) → o.kind ≡ limit p → IsPreferredAt best p) orders)
    clear_batch-optimal =
        let (outcome, ran, b) = clear_batch-best in
        let (before, limits) =
          candidate_prices-All (IsPreferredAt b.best) _ orders
            (All-map (AtLeastAsGood-IsPreferredAt b.best) _ b.unbeaten) in
        (outcome, ran, (b.best, b.made, b.choice, b.at_candidate, before.0, limits))

  -- A batch of fewer than 2^62 - 2 orders clears exactly if it is valid; every other batch is refused
  -- with an error.
  pub clear_batch-succeeds_iff :
      length orders * 4 + 8 < u64_bound
      → ((outcome : AuctionOutcome) × (clear_batch sha256 config orders ≡ ok outcome))
        ↔ IsValid config orders
  unfolding clear_batch
  clear_batch-succeeds_iff small = (
    λ (outcome, e).
        let (done, accepted, _) = >>=-eq-ok (validate config orders) _ e in
        (validate_iff config orders).0 accepted,
    λ valid. let (outcome, ran, _) = clear_batch-best valid small in (outcome, ran),
  )
