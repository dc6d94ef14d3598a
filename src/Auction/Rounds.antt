-- ===== src/Auction/Rounds.antt =====
-- src/batch_auction.rs: the evaluation of a candidate price never fails, and its outcome is balanced.
use asteria.Base.{
  ℕ, zero, suc, ◌+◌, ◌-◌, ◌*◌, ◌≤◌, ◌<◌, ◌≡◌, inl, inr, List, [], ◌∷◌, arith, Bool-cases, ◌==◌,
  lt→ltb, length, All, All-map, All-filter, Distinct-filter, filter, filter-holds, sum, sum_of,
  sum_of-filter-le, u64_bound, min, abs_diff, ==_iff, Bytes,
}
use asteria.Base.Result.{Returns}
use asteria.Auction.Types.{buy, sell, AuctionOrder, AuctionConfig, is_ioc, order_at, quantity_at}
use asteria.Auction.Allocate.{eligible_indices}
use asteria.Auction.Candidate.{
  CandidateOutcome, only_ioc, evaluate_candidate, evaluate_rounds, evaluate_ioc_fallback,
  nothing_matched,
}
use asteria.Auction.Fill.{checked_quantity-ok, checked_values-ok}
use asteria.Auction.Split.{is_ioc→ioc}
use asteria.Auction.Eligible.{Listed, side_total, eligible_indices-Listed}
use asteria.Auction.OneSide.{allocate_side-Fits}
use asteria.Auction.Balanced.{
  Matched, combine-Matched, nothing_matched-Matched, nothing_matched-price,
}

-- What `validate` establishes of a batch: positive quantities, and totals of both sides in `u64`.
pub record IsBounded (orders : List AuctionOrder) : Type 0 where
  pub positive : All (λ o. 0 < o.quantity) orders
  pub buys : side_total buy orders < u64_bound
  pub sells : side_total sell orders < u64_bound

quantity-le-total :
    (b : ℕ) (orders : List AuctionOrder)
    → side_total buy orders ≤ b
    → side_total sell orders ≤ b
    → All (λ o. o.quantity ≤ b) orders
quantity-le-total b [] h k = tt
quantity-le-total b (o ∷ os) h k =
    (ground arith, quantity-le-total b os (omega arith) (omega arith))

IsBounded-quantity :
    (orders : List AuctionOrder) → IsBounded orders → All (λ o. o.quantity < u64_bound) orders
IsBounded-quantity orders b =
    All-map (λ o h. omega arith) orders
      (quantity-le-total (u64_bound - 1) orders (omega (arith, b.buys)) (omega (arith, b.sells)))

-- A candidate at the price, balanced.
abbrev pub MatchedAt : List AuctionOrder → ℕ → CandidateOutcome → Type 0
MatchedAt orders price c = Matched orders c × (c.price ≡ price)

module _ (sha256 : Bytes → Bytes) (config : AuctionConfig) (orders : List AuctionOrder)
    (price imbalance : ℕ) (bounded : IsBounded orders) where
  module _ (eligible_buys eligible_sells : List ℕ) (buys : Listed buy price orders eligible_buys)
      (sells : Listed sell price orders eligible_sells) where
    evaluate_ioc_fallback-Matched :
        Returns
          (evaluate_ioc_fallback sha256 config orders price eligible_buys eligible_sells imbalance)
          (MatchedAt orders price)
    unfolding evaluate_ioc_fallback only_ioc
    evaluate_ioc_fallback-Matched =
        let p = λ (i : ℕ). is_ioc (order_at orders i).time_in_force in
        let q = quantity_at orders in
        let buy_le : sum_of q (filter p eligible_buys) < u64_bound =
          omega (arith, sum_of-filter-le q p eligible_buys, buys.total, bounded.buys) in
        let sell_le : sum_of q (filter p eligible_sells) < u64_bound =
          omega (arith, sum_of-filter-le q p eligible_sells, sells.total, bounded.sells) in
        let target = min (sum_of q (filter p eligible_buys)) (sum_of q (filter p eligible_sells)) in
        let bought_all = checked_quantity-ok orders _ buy_le in
        let sold_all = checked_quantity-ok orders _ sell_le in
        elim (Bool-cases (target == 0)) [
          | inl z ↦ (
            nothing_matched orders price imbalance,
            rw (bought_all, sold_all, z),
            (
              nothing_matched-Matched price orders imbalance,
              nothing_matched-price price orders imbalance,
            ),
          )
          | inr z ↦
              let (b, bought, (fits_b, le_b, exact_b)) =
                allocate_side-Fits sha256 config.allocation_commitment orders buy price _ target
                  (All-filter p _ eligible_buys buys.eligible)
                  (Distinct-filter p eligible_buys buys.distinct) buy_le in
              let (s, sold, (fits_s, le_s, exact_s)) =
                allocate_side-Fits sha256 config.allocation_commitment orders sell price _ target
                  (All-filter p _ eligible_sells sells.eligible)
                  (Distinct-filter p eligible_sells sells.distinct) sell_le in
              let (c, combined, (matched, at, _)) =
                combine-Matched price orders imbalance target b s
                  (IsBounded-quantity orders bounded) fits_b fits_s
                  (exact_b (All-map (λ i. is_ioc→ioc _) _ (filter-holds p eligible_buys))
                    (omega arith))
                  (exact_s (All-map (λ i. is_ioc→ioc _) _ (filter-holds p eligible_sells))
                    (omega arith)) in
              (c, rw (bought_all, sold_all, z, bought, sold) combined, (matched, at))
        ]

    -- Whatever the rounds left, the outcome is balanced.
    evaluate_rounds-Matched :
        (rounds target : ℕ)
        → target < u64_bound
        → Returns
            (evaluate_rounds sha256 rounds config orders price eligible_buys eligible_sells
              imbalance target)
            (MatchedAt orders price)
    unfolding evaluate_rounds
    evaluate_rounds-Matched zero target h = evaluate_ioc_fallback-Matched
    evaluate_rounds-Matched (suc rounds) target h =
        let (b, bought, (fits_b, le_b, _)) =
          allocate_side-Fits sha256 config.allocation_commitment orders buy price eligible_buys
            target buys.eligible buys.distinct (omega (arith, buys.total, bounded.buys)) in
        let (s, sold, (fits_s, le_s, _)) =
          allocate_side-Fits sha256 config.allocation_commitment orders sell price eligible_sells
            target sells.eligible sells.distinct (omega (arith, sells.total, bounded.sells)) in
        let bought_all = checked_values-ok b (omega arith) in
        let sold_all = checked_values-ok s (omega arith) in
        let next = min (sum b) (sum s) in
        elim (Bool-cases (next == target)) [
          | inl done ↦
              let same = (==_iff next target).0 done in
              let (c, combined, (matched, at, _)) =
                combine-Matched price orders imbalance target b s
                  (IsBounded-quantity orders bounded) fits_b fits_s (omega (arith, same))
                  (omega (arith, same)) in
              (c, rw (bought, sold, bought_all, sold_all, done) combined, (matched, at))
          | inr more ↦ elim (Bool-cases (next == 0)) [
            | inl z ↦ (
              nothing_matched orders price imbalance,
              rw (bought, sold, bought_all, sold_all, more, z),
              (
                nothing_matched-Matched price orders imbalance,
                nothing_matched-price price orders imbalance,
              ),
            )
            | inr nz ↦
                let (c, ran, good) = evaluate_rounds-Matched rounds next (omega arith) in
                (c, rw (bought, sold, bought_all, sold_all, more, nz) ran, good)
          ]
        ]

-- The evaluation of a candidate price succeeds on every batch in bounds, and its outcome is balanced.
pub evaluate_candidate-Matched :
    (sha256 : Bytes → Bytes) (config : AuctionConfig) (orders : List AuctionOrder) (price : ℕ)
    → IsBounded orders
    → length orders * 4 + 8 < u64_bound
    → Returns (evaluate_candidate sha256 config orders price) (MatchedAt orders price)
unfolding evaluate_candidate
evaluate_candidate-Matched sha256 config orders price bounded h =
    let buys = eligible_indices-Listed buy price orders bounded.positive in
    let sells = eligible_indices-Listed sell price orders bounded.positive in
    let q = quantity_at orders in
    let total_b = sum_of q (eligible_indices orders buy price) in
    let total_s = sum_of q (eligible_indices orders sell price) in
    let buy_le : total_b < u64_bound = omega (arith, buys.total, bounded.buys) in
    let sell_le : total_s < u64_bound = omega (arith, sells.total, bounded.sells) in
    let bought_all = checked_quantity-ok orders _ buy_le in
    let sold_all = checked_quantity-ok orders _ sell_le in
    let target = min total_b total_s in
    let imbalance = abs_diff total_b total_s in
    elim (Bool-cases (target == 0)) [
      | inl z ↦ (
        nothing_matched orders price imbalance,
        rw (bought_all, sold_all, z),
        (
          nothing_matched-Matched price orders imbalance,
          nothing_matched-price price orders imbalance,
        ),
      )
      | inr nz ↦
          let (c, ran, good) =
            evaluate_rounds-Matched sha256 config orders price imbalance bounded _ _ buys sells
              (length orders * 4 + 8) target (omega arith) in
          (
            c,
            rw
                (
                  bought_all,
                  sold_all,
                  nz,
                  lt→ltb (length orders * 4) u64_bound (omega arith),
                  lt→ltb (length orders * 4 + 8) u64_bound h,
                )
                ran,
            good,
          )
    ]
