-- ===== src/Auction/Listing.antt =====
-- src/batch_auction.rs: the order of the entries of an outcome.
use asteria.Base.{
  ◌≡◌, refl, subst, true, false, inl, inr, List, [], ◌∷◌, Option, none, some, arith, Bool-cases,
  ◌==◌, length, Ordering, is_gt, Sorted, sort_by-Sorted, Bytes,
}
use asteria.Base.Result.{ok, >>=-eq-ok}
use asteria.Auction.Types.{compare_bytes, AuctionOrder, AuctionConfig, Allocation, AuctionOutcome}
use asteria.Auction.Clear.{
  clear_batch, validate, empty_outcome, outcome_of, sort_allocations, best_candidate,
}
use asteria.Auction.Candidate.{CandidateOutcome}

compare_bytes-total :
    (a b : Bytes) → is_gt (compare_bytes a b) ≡ true → is_gt (compare_bytes b a) ≡ false
compare_bytes-total [] [] h = refl
compare_bytes-total [] (y ∷ b) h = cc
compare_bytes-total (x ∷ a) [] h = refl
compare_bytes-total (x ∷ a) (y ∷ b) h = ground (arith, compare_bytes-total a b)

compare_bytes_trans :
    (a b c : Bytes)
    → is_gt (compare_bytes a b) ≡ false
    → is_gt (compare_bytes b c) ≡ false
    → is_gt (compare_bytes a c) ≡ false
compare_bytes_trans [] b [] h k = refl
compare_bytes_trans [] b (z ∷ c) h k = refl
compare_bytes_trans (x ∷ a) [] c h k = cc
compare_bytes_trans (x ∷ a) (y ∷ b) [] h k = k
compare_bytes_trans (x ∷ a) (y ∷ b) (z ∷ c) h k = ground (arith, compare_bytes_trans a b c)

-- By order id.
abbrev pub compare_ids : Allocation → Allocation → Ordering
compare_ids left right = compare_bytes left.order_id right.order_id

sort_allocations-Sorted : (as' : List Allocation) → Sorted compare_ids (sort_allocations as')
unfolding sort_allocations
sort_allocations-Sorted as' =
    sort_by-Sorted compare_ids (λ x y. compare_bytes-total x.order_id y.order_id)
      (λ x y z. compare_bytes_trans x.order_id y.order_id z.order_id) as'

outcome_of-Sorted :
    (orders : List AuctionOrder) (best : Option CandidateOutcome)
    → Sorted compare_ids (outcome_of orders best).allocations
unfolding outcome_of empty_outcome
outcome_of-Sorted orders none = sort_allocations-Sorted _
outcome_of-Sorted orders (some c) = sort_allocations-Sorted _

-- The entries of every outcome are listed by ascending order id.
pub clear_batch-Sorted :
    (sha256 : Bytes → Bytes) (config : AuctionConfig) (orders : List AuctionOrder)
    {outcome : AuctionOutcome}
    → clear_batch sha256 config orders ≡ ok outcome
    → Sorted compare_ids outcome.allocations
unfolding clear_batch
clear_batch-Sorted sha256 config orders {outcome} h =
    let (done, accepted, rest) = >>=-eq-ok (validate config orders) _ h in
    elim (Bool-cases (length orders == 0)) [
      | inl z ↦
          let same : empty_outcome orders ≡ outcome = ground (arith, z) in
          subst (λ o. Sorted compare_ids o.allocations) same
            (unfold outcome_of in outcome_of-Sorted orders none)
      | inr nz ↦
          let k = rw nz at rest in
          let (best, ran, made) = >>=-eq-ok (best_candidate sha256 config orders _ none) _ k in
          let same : outcome_of orders best ≡ outcome = cc in
          subst (λ o. Sorted compare_ids o.allocations) same (outcome_of-Sorted orders best)
    ]
