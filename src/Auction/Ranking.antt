-- ===== src/Auction/Ranking.antt =====
-- src/batch_auction.rs: the comparison of candidates is a strict order.
use asteria.Base.{ℕ, abs_diff, ◌≡◌, ◌<◌, ◌≤◌, ◌⊎◌, true, false, arith}
use asteria.Auction.Candidate.{CandidateOutcome, is_better_than}

module _ (reference : ℕ) where
  pub is_better_than_irrefl : (a : CandidateOutcome) → is_better_than a a reference ≡ false
  unfolding is_better_than
  is_better_than_irrefl a = ground arith

  pub is_better_than_trans :
      (a b c : CandidateOutcome)
      → is_better_than a b reference ≡ true
      → is_better_than b c reference ≡ true
      → is_better_than a c reference ≡ true
  unfolding is_better_than
  is_better_than_trans a b c h k = ground arith

  -- More is matched; or as much, with a smaller imbalance; or that is the same too, and the price is
  -- nearer to the reference; or as near, and not higher.
  abbrev pub IsPreferred : CandidateOutcome → CandidateOutcome → Type 0
  IsPreferred best c =
      (c.matched_quantity < best.matched_quantity)
      ⊎ ((c.matched_quantity ≡ best.matched_quantity)
          × ((best.imbalance < c.imbalance)
              ⊎ ((best.imbalance ≡ c.imbalance)
                  × ((abs_diff best.price reference < abs_diff c.price reference)
                      ⊎ ((abs_diff best.price reference ≡ abs_diff c.price reference)
                          × (best.price ≤ c.price))))))

  pub is_better_than-IsPreferred :
      (c best : CandidateOutcome) → is_better_than c best reference ≡ false → IsPreferred best c
  unfolding is_better_than
  is_better_than-IsPreferred c best h = ground arith
