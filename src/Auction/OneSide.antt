-- ===== src/Auction/OneSide.antt =====
-- src/batch_auction.rs: the allocation of one side never fails, and stays within the target.
use asteria.Base.{
  ℕ, ◌≤◌, ◌<◌, ◌≡◌, refl, ap, ◌∙◌, inl, inr, List, [], ◌∷◌, arith, Bool-cases, length, get_or,
  get_or-replicate, replicate, sum-replicate_zero, sum, sum_of, sum_of-sort_by, All, All-sort_by,
  Distinct, Distinct-sort_by, flatten, u64_bound, then_with, Bytes,
}
use asteria.Base.Result.{Returns}
use asteria.Auction.Types.{Side, AuctionOrder, order_at, quantity_at}
use asteria.Auction.Allocate.{economic_priority, compare_priority, price_group, same_group}
use asteria.Auction.Sides.{price_groups, join_group, allocate_side, by_economic_priority}
use asteria.Auction.Fits.{Admits, Admits-zero, Fits, Fits-replicate, IsEligible, Ready}
use asteria.Auction.ProRata.{IsIoc}
use asteria.Auction.Group.{allocate_groups-Progress}

flatten-join_group :
    (orders : List AuctionOrder) (i : ℕ) (gs : List (List ℕ))
    → flatten (join_group orders i gs) ≡ i ∷ flatten gs
unfolding join_group
flatten-join_group orders i [] = refl
flatten-join_group orders i ([] ∷ gs) = refl
flatten-join_group orders i ((j ∷ js) ∷ gs) =
    elim (Bool-cases
      (same_group (price_group (order_at orders j)) (price_group (order_at orders i)))) [
        | inl e ↦ rw e
        | inr e ↦ rw e
      ]

flatten-price_groups :
    (orders : List AuctionOrder) (is : List ℕ) → flatten (price_groups orders is) ≡ is
unfolding price_groups
flatten-price_groups orders [] = refl
flatten-price_groups orders (i ∷ is) =
    flatten-join_group orders i (price_groups orders is)
    ∙ ap (◌∷◌ i) (flatten-price_groups orders is)

zeros-empty : (n : ℕ) (is : List ℕ) → All (λ i. get_or {A = ℕ} (replicate n 0) i 0 ≡ 0) is
zeros-empty n [] = tt
zeros-empty n (i ∷ is) = (get_or-replicate n i, zeros-empty n is)

module _ (sha256 : Bytes → Bytes) (commitment : Bytes) (orders : List AuctionOrder) (side : Side)
    (price : ℕ) where
  -- The allocation of eligible indices: it fits, and hands out no more than the target.
  pub allocate_side-Fits :
      (is : List ℕ) (target : ℕ)
      → All (IsEligible orders side price) is
      → Distinct is
      → sum_of (quantity_at orders) is < u64_bound
      → Returns (allocate_side sha256 commitment orders is side target) (λ b.
        Fits (Admits side price) orders b
        × (sum b ≤ target)
        × (All (IsIoc orders) is → target ≤ sum_of (quantity_at orders) is → sum b ≡ target))
  unfolding allocate_side
  allocate_side-Fits is target e d h =
      let by = λ (i j : ℕ).
        then_with (economic_priority side (order_at orders i) (order_at orders j))
          (compare_priority sha256 commitment (order_at orders i) (order_at orders j)) in
      let sorted = by_economic_priority sha256 commitment orders side is in
      let zeros : List ℕ = replicate (length orders) 0 in
      let same = flatten-price_groups orders sorted in
      let ready : Ready orders side price sorted zeros = record {
        fits = Fits-replicate _ (Admits-zero side price) orders;
        eligible = All-sort_by by _ is e;
        distinct = Distinct-sort_by by is d;
        empty = zeros-empty (length orders) sorted;
      } in
      let total = sum_of-sort_by by (quantity_at orders) is in
      let ((b, left), ran, (p, exact)) =
        allocate_groups-Progress sha256 commitment orders side price (price_groups orders sorted)
          zeros target (rw same ready) (rw (same, total) h) in
      let zero = sum-replicate_zero (length orders) in
      (
        b,
        rw ran,
        (
          p.fits,
          omega (arith, p.moved, zero),
          λ t le. omega (
            arith,
            p.moved,
            zero,
            exact (rw same (All-sort_by by _ is t)),
            ap (sum_of (quantity_at orders)) same,
            total,
          ),
        ),
      )
