-- ===== src/Auction/Best.antt =====
-- src/batch_auction.rs: the choice among the candidate prices.
use asteria.Base.{
  ℕ, ◌+◌, ◌*◌, ◌<◌, ◌≡◌, ◌≢◌, refl, subst, Bool, true, false, inl, inr, List, [], ◌∷◌, Option, none,
  some, arith, Bool-cases, ◌==◌, length, All, u64_bound, if◌then◌else◌, Bytes,
}
use asteria.Base.Result.{ok, Returns}
use asteria.Auction.Types.{AuctionOrder, AuctionConfig}
use asteria.Auction.Candidate.{CandidateOutcome, is_better_than, evaluate_candidate}
use asteria.Auction.Clear.{best_candidate, improves}
use asteria.Auction.Balanced.{Matched}
use asteria.Auction.Rounds.{IsBounded, evaluate_candidate-Matched}
use asteria.Auction.Ranking.{is_better_than_irrefl, is_better_than_trans}

module _ (sha256 : Bytes → Bytes) (config : AuctionConfig) (orders : List AuctionOrder) where
  -- A candidate price whose outcome trades and beats the choice.
  abbrev pub Unbeaten : Option CandidateOutcome → CandidateOutcome → Type 0
  Unbeaten none c = ⊥
  Unbeaten (some best) c = is_better_than c best config.reference_price ≡ false

  -- The choice is at least as good as the outcome at the price, if that trades at all.
  abbrev pub AtLeastAsGood : Option CandidateOutcome → ℕ → Type 0
  AtLeastAsGood best price =
      (c : CandidateOutcome)
      → evaluate_candidate sha256 config orders price ≡ ok c
      → c.matched_quantity ≢ 0
      → Unbeaten best c

  -- What is chosen is the balanced outcome at one of the prices, and it trades.
  abbrev pub IsChoice : Option CandidateOutcome → Type 0
  IsChoice none = Unit
  IsChoice (some best) =
      Matched orders best
      × (best.matched_quantity ≢ 0)
      × (evaluate_candidate sha256 config orders best.price ≡ ok best)

  -- The price of the choice, if there is one, has a property.
  abbrev pub AtPrice : (ℕ → Type 0) → Option CandidateOutcome → Type 0
  AtPrice P none = Unit
  AtPrice P (some best) = P best.price

  -- One round of the loop.
  abbrev next_best : Option CandidateOutcome → CandidateOutcome → Option CandidateOutcome
  next_best best c =
      if c.matched_quantity == 0
      then best
      else if improves config.reference_price c best
      then some c
      else best

  keeps_Unbeaten :
      (best : Option CandidateOutcome) (c d : CandidateOutcome)
      → Unbeaten best d
      → Unbeaten (next_best best c) d
  unfolding improves
  keeps_Unbeaten none c d h = absurd h
  keeps_Unbeaten (some best) c d h =
      ground (arith, is_better_than_trans config.reference_price d c best)

  takes_Unbeaten :
      (best : Option CandidateOutcome) (c : CandidateOutcome)
      → c.matched_quantity ≢ 0
      → Unbeaten (next_best best c) c
  unfolding improves
  takes_Unbeaten none c h = ground (arith, is_better_than_irrefl config.reference_price c)
  takes_Unbeaten (some best) c h = ground (arith, is_better_than_irrefl config.reference_price c)

  takes_AtLeastAsGood :
      (best : Option CandidateOutcome) (c : CandidateOutcome) (price : ℕ)
      → evaluate_candidate sha256 config orders price ≡ ok c
      → AtLeastAsGood (next_best best c) price
  takes_AtLeastAsGood best c price ran d e nz =
      let same : c ≡ d = cc in
      subst (Unbeaten (next_best best c)) same (takes_Unbeaten best c (rw same nz))

  keeps_IsChoice :
      (best : Option CandidateOutcome) (c : CandidateOutcome)
      → IsChoice best
      → Matched orders c
      → evaluate_candidate sha256 config orders c.price ≡ ok c
      → IsChoice (next_best best c)
  unfolding improves
  keeps_IsChoice best c h m e = elim (Bool-cases (c.matched_quantity == 0)) [
    | inl z ↦ rw z h
    | inr nz ↦ rw nz (go (improves config.reference_price c best) nz)
  ]
    where
      go : (b : Bool) → (c.matched_quantity == 0) ≡ false → IsChoice (if b then some c else best)
      go true nz = (m, ground arith, e)
      go false nz = h

  keeps_AtPrice :
      (P : ℕ → Type 0) (best : Option CandidateOutcome) (c : CandidateOutcome)
      → AtPrice P best
      → P c.price
      → AtPrice P (next_best best c)
  unfolding improves
  keeps_AtPrice P best c h here = elim (Bool-cases (c.matched_quantity == 0)) [
    | inl z ↦ rw z h
    | inr nz ↦ rw nz (go (improves config.reference_price c best))
  ]
    where
      go : (b : Bool) → AtPrice P (if b then some c else best)
      go true = here
      go false = h

  module _ (bounded : IsBounded orders) (small : length orders * 4 + 8 < u64_bound) where
    -- The loop ends with a choice at one of the prices, which no candidate price beats.
    pub best_candidate-optimal :
        (P : ℕ → Type 0) (prices : List ℕ) (best : Option CandidateOutcome)
        → All P prices
        → AtPrice P best
        → IsChoice best
        → Returns (best_candidate sha256 config orders prices best) (λ r.
          IsChoice r
          × All (AtLeastAsGood r) prices
          × ((d : CandidateOutcome) → Unbeaten best d → Unbeaten r d)
          × AtPrice P r)
    unfolding best_candidate
    best_candidate-optimal P [] best hs k h = (best, refl, (h, tt, (λ d u. u), k))
    best_candidate-optimal P (p ∷ ps) best hs k h =
        let (c, ran, (m, at)) = evaluate_candidate-Matched sha256 config orders p bounded small in
        let chosen = keeps_IsChoice best c h m (rw at ran) in
        let (r, loop, (choice, others, keeps, priced)) =
          best_candidate-optimal P ps (next_best best c) hs.1
            (keeps_AtPrice P best c k (rw at hs.0)) chosen in
        (
          r,
          rw ran loop,
          (
            choice,
            (λ d e nz. keeps d (takes_AtLeastAsGood best c p ran d e nz), others),
            (λ d u. keeps d (keeps_Unbeaten best c d u)),
            priced,
          ),
        )
