-- ===== src/Auction/Group.antt =====
-- src/batch_auction.rs: one price group, and one side, is allocated without failure.
use asteria.Base.{
  ℕ, ◌-◌, ◌<◌, ◌≡◌, ◌≢◌, refl, inl, inr, true, List, [], ◌∷◌, arith, leb, ◌==◌, Bool-cases,
  leb-eq-false→lt, sum_of, All, All-map, All-filter, All-zip, flatten, ◌++◌, All-append_left,
  All-append_right, Distinct-append_left, Distinct-append_right, Distinct-append_disjoint,
  sum_of-append, ◌∙◌, All-sort_by, sum_of-sort_by, Distinct-filter, Distinct-sort_by,
  sum_of-filter-le, filter, filter-holds, u64_bound, Bytes,
}
use asteria.Base.Result.{Returns}
use asteria.Auction.Types.{Side, AuctionOrder, TimeInForce, is_ioc, is_fok, order_at, quantity_at}
use asteria.Auction.Allocate.{by_priority, compare_priority}
use asteria.Auction.Sides.{allocate_group, allocate_groups}
use asteria.Auction.Fits.{Ready, Progress, Progress-refl, Progress-trans}
use asteria.Auction.Fill.{checked_quantity-ok, fill_all-Progress, fill_fok-Progress}
use asteria.Auction.ProRata.{IsIoc}
use asteria.Auction.Split.{is_ioc→ioc, allocate_pro_rata-Progress}

fok_ne_ioc : (t : TimeInForce) → is_fok t ≡ true → is_ioc t ≡ true → ⊥
fok_ne_ioc TimeInForce.ioc h k = cc
fok_ne_ioc TimeInForce.fok h k = cc

module _ (sha256 : Bytes → Bytes) (commitment : Bytes) (orders : List AuctionOrder) (side : Side)
    (price : ℕ) where
  -- In a group of immediate-or-cancel orders there is no fill-or-kill quantity.
  iocs-sum :
      (g : List ℕ)
      → All (IsIoc orders) g
      → (sum_of (quantity_at orders) (filter (λ i. is_fok (order_at orders i).time_in_force) g) ≡ 0)
        × (sum_of (quantity_at orders) (filter (λ i. is_ioc (order_at orders i).time_in_force) g)
            ≡ sum_of (quantity_at orders) g)
  iocs-sum [] t = (refl, refl)
  iocs-sum (i ∷ g) t =
      let (none_fok, all_ioc) = iocs-sum g t.1 in rw t.0 (none_fok, omega (arith, all_ioc))

  module _ (g a : List ℕ) (remaining : ℕ) (ready : Ready orders side price g a) where
    abbrev foks : List ℕ
    foks = filter (λ i. is_fok (order_at orders i).time_in_force) g

    abbrev iocs : List ℕ
    iocs = filter (λ i. is_ioc (order_at orders i).time_in_force) g

    -- The fill-or-kill orders of a group, in the order in which they are tried.
    foks-Ready : Ready orders side price (by_priority sha256 commitment orders foks) a
    foks-Ready =
        let by =
          λ (k j : ℕ). compare_priority sha256 commitment (order_at orders k) (order_at orders j) in
        let p = λ (i : ℕ). is_fok (order_at orders i).time_in_force in
        record {
          fits = ready.fits;
          eligible = All-sort_by by _ foks (All-filter p _ g ready.eligible);
          distinct = Distinct-sort_by by foks (Distinct-filter p g ready.distinct);
          empty = All-sort_by by _ foks (All-filter p _ g ready.empty);
        }

    foks-ne :
        (j : ℕ) → All (λ i. i ≢ j) g → All (λ i. i ≢ j) (by_priority sha256 commitment orders foks)
    foks-ne j n =
        All-sort_by
          (λ k l. compare_priority sha256 commitment (order_at orders k) (order_at orders l)) _ foks
          (All-filter (λ i. is_fok (order_at orders i).time_in_force) _ g n)

    -- No immediate-or-cancel order is among the fill-or-kill orders.
    foks-ne-ioc :
        (j : ℕ)
        → is_ioc (order_at orders j).time_in_force ≡ true
        → All (λ i. i ≢ j) (by_priority sha256 commitment orders foks)
    foks-ne-ioc j h =
        All-sort_by
          (λ k l. compare_priority sha256 commitment (order_at orders k) (order_at orders l)) _ foks
          (All-map (λ i fok e. fok_ne_ioc _ fok (rw e h)) foks
            (filter-holds (λ i. is_fok (order_at orders i).time_in_force) g))

    iocs-Ready :
        (b : List ℕ) (left : ℕ)
        → Progress orders side price (by_priority sha256 commitment orders foks) a remaining b left
        → Ready orders side price iocs b
    iocs-Ready b left p =
        let q = λ (i : ℕ). is_ioc (order_at orders i).time_in_force in
        record {
          fits = p.fits;
          eligible = All-filter q _ g ready.eligible;
          distinct = Distinct-filter q g ready.distinct;
          empty =
              All-map (λ j (z, h). p.kept j (foks-ne-ioc j h) ∙ z) iocs
                (All-zip _ _ iocs (All-filter q _ g ready.empty) (filter-holds q g));
        }

  pub allocate_group-Progress :
      (g a : List ℕ) (remaining : ℕ)
      → Ready orders side price g a
      → sum_of (quantity_at orders) g < u64_bound
      → Returns (allocate_group sha256 commitment orders g a remaining) (λ (b, left).
        Progress orders side price g a remaining b left
        × (All (IsIoc orders) g → left ≡ remaining - sum_of (quantity_at orders) g))
  unfolding allocate_group
  allocate_group-Progress g a remaining ready h =
      elim (Bool-cases (leb (sum_of (quantity_at orders) g) remaining)) [
        | inl e ↦
            let total = sum_of (quantity_at orders) g in
            let p = fill_all-Progress orders side price g a (remaining - total) ready in
            (
              (_, remaining - total),
              rw (checked_quantity-ok orders g h, e) refl,
              (record { fits = p.fits; moved = ground (arith, p.moved); kept = p.kept }, λ t. refl),
            )
        | inr e ↦
            let ((b, left), filled, (p, le, ge)) =
              fill_fok-Progress orders side price _ a remaining (foks-Ready g a remaining ready) in
            let q = λ (i : ℕ). is_ioc (order_at orders i).time_in_force in
            let by = λ (k l : ℕ).
              compare_priority sha256 commitment (order_at orders k) (order_at orders l) in
            let ((c, rest), split, (s, rest_left)) =
              allocate_pro_rata-Progress sha256 commitment orders side price
                (iocs g a remaining ready) b left (iocs-Ready g a remaining ready b left p)
                (All-map (λ i. is_ioc→ioc _) _ (filter-holds q g))
                (omega (arith, sum_of-filter-le (quantity_at orders) q g)) in
            (
              (c, rest),
              rw (checked_quantity-ok orders g h, e, filled, split) refl,
              (
                Progress-trans orders side price g _ _ a b c remaining left rest
                    (foks-ne g a remaining ready) (λ j. All-filter q _ g) p s,
                λ t. omega (
                  arith,
                  le,
                  ge,
                  rest_left,
                  leb-eq-false→lt (sum_of (quantity_at orders) g) remaining e,
                  iocs-sum g t,
                  sum_of-sort_by by (quantity_at orders) (foks g a remaining ready),
                ),
              ),
            )
      ]

  Ready-first :
      (xs ys a : List ℕ) → Ready orders side price (xs ++ ys) a → Ready orders side price xs a
  Ready-first xs ys a ready = record {
    fits = ready.fits;
    eligible = All-append_left _ xs ys ready.eligible;
    distinct = Distinct-append_left xs ys ready.distinct;
    empty = All-append_left _ xs ys ready.empty;
  }

  -- After a loop over the first indices the others are still untouched.
  Ready-second :
      (xs ys a b : List ℕ) (r s : ℕ)
      → Ready orders side price (xs ++ ys) a
      → Progress orders side price xs a r b s
      → Ready orders side price ys b
  Ready-second xs ys a b r s ready p = record {
    fits = p.fits;
    eligible = All-append_right _ xs ys ready.eligible;
    distinct = Distinct-append_right xs ys ready.distinct;
    empty =
        All-map (λ j (n, z). p.kept j n ∙ z) ys
          (All-zip _ _ ys (Distinct-append_disjoint xs ys ready.distinct)
            (All-append_right _ xs ys ready.empty));
  }

  -- The loop over the price groups.
  pub allocate_groups-Progress :
      (gs : List (List ℕ)) (a : List ℕ) (remaining : ℕ)
      → Ready orders side price (flatten gs) a
      → sum_of (quantity_at orders) (flatten gs) < u64_bound
      → Returns (allocate_groups sha256 commitment orders gs a remaining) (λ (b, left).
        Progress orders side price (flatten gs) a remaining b left
        × (All (IsIoc orders) (flatten gs)
            → left ≡ remaining - sum_of (quantity_at orders) (flatten gs)))
  unfolding allocate_groups
  allocate_groups-Progress [] a remaining ready h = (
    (a, remaining),
    refl,
    (Progress-refl orders side price [] a remaining ready.fits, λ t. omega arith),
  )
  allocate_groups-Progress (g ∷ gs) a remaining ready h = elim (Bool-cases (remaining == 0)) [
    | inl z ↦ (
      (a, remaining),
      rw z,
      (Progress-refl orders side price _ a remaining ready.fits, λ t. ground arith),
    )
    | inr z ↦
        let ((b, left), ran, (p, exact)) =
          allocate_group-Progress g a remaining (Ready-first g (flatten gs) a ready)
            (omega (arith, sum_of-append (quantity_at orders) g (flatten gs))) in
        let ((c, rest), loop, (s, exact')) =
          allocate_groups-Progress gs b left
            (Ready-second g (flatten gs) a b remaining left ready p)
            (omega (arith, sum_of-append (quantity_at orders) g (flatten gs))) in
        (
          (c, rest),
          rw (z, ran, loop) refl,
          (
            Progress-trans orders side price (g ++ flatten gs) g (flatten gs) a b c remaining left
                rest (λ j. All-append_left _ g (flatten gs))
                (λ j. All-append_right _ g (flatten gs)) p s,
            λ t. omega (
              arith,
              exact (All-append_left _ g (flatten gs) t),
              exact' (All-append_right _ g (flatten gs) t),
              sum_of-append (quantity_at orders) g (flatten gs),
            ),
          ),
        )
  ]
