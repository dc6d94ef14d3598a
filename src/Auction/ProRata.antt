-- ===== src/Auction/ProRata.antt =====
-- src/batch_auction.rs: the pro-rata split of what is left among immediate-or-cancel orders.
use native.Mathlib.Nat.{div-add-mod', mod-lt}
use asteria.Base.{
  ℕ, ◌+◌, ◌-◌, ◌*◌, ◌/◌, ◌≤◌, ◌<◌, ◌≡◌, ◌≢◌, refl, inl, inr, List, [], ◌∷◌, arith, lt→ltb,
  lt→leb_false, sym, All-map, ◌==◌, Bool-cases, length, get_or, get_or-set_ne, get_or-set_self, set,
  sum-set, sum_of, All, Distinct, u64_bound, u128_bound,
}
use asteria.Base.Result.{Returns}
use asteria.Auction.Types.{Side, AuctionOrder, ioc, order_at, quantity_at}
use asteria.Auction.Sides.{pro_rata_shares, spread_remainder}
use asteria.Auction.Fits.{
  Admits, Fits, Fits-length, Fits-set, Ready, Progress, Progress-refl, Ready-set, Ready-inside,
  Admits-part, IsEligible,
}

-- The floor of a share of `c` in proportion `q` to `t`.
div_bounds : (q c t : ℕ) → 0 < t → (q * c / t * t ≤ q * c) × (q * c < q * c / t * t + t)
div_bounds q c t h =
    (omega (arith, div-add-mod' (q * c) t), omega (arith, div-add-mod' (q * c) t, mod-lt (q * c) h))

share_lt : (q c t : ℕ) → 0 < q → c < t → q * c / t < q
share_lt q c t h k = grind (arith, div_bounds q c t)

product_bound : (q c : ℕ) → q < u64_bound → c < u64_bound → q * c < u128_bound
product_bound q c h k = grind arith

module _ (orders : List AuctionOrder) where
  -- An immediate-or-cancel order that can take at least one unit more.
  abbrev pub HasRoom : List ℕ → ℕ → Type 0
  HasRoom a i = get_or a i 0 < quantity_at orders i

  abbrev pub IsIoc : ℕ → Type 0
  IsIoc i = (order_at orders i).time_in_force ≡ ioc

  room-set :
      (i v : ℕ) (is a : List ℕ)
      → All (λ j. i ≢ j) is
      → All (HasRoom a) is
      → All (HasRoom (set a i v)) is
  room-set i v [] a n h = tt
  room-set i v (j ∷ is) a n h = (rw (get_or-set_ne a i j v 0 n.0) h.0, room-set i v is a n.1 h.1)

module _ (orders : List AuctionOrder) (side : Side) (price : ℕ) where
  -- The loop over the remainder places it all, one unit to an order, if there are enough orders.
  pub spread_remainder-Progress :
      (is a : List ℕ) (r : ℕ)
      → Fits (Admits side price) orders a
      → All (IsEligible orders side price) is
      → Distinct is
      → All (IsIoc orders) is
      → All (λ i. quantity_at orders i < u64_bound) is
      → All (HasRoom orders a) is
      → r ≤ length is
      → Returns
          (spread_remainder orders is a r)
          (λ (b, left). (left ≡ 0) × Progress orders side price is a r b 0)
  unfolding spread_remainder
  spread_remainder-Progress [] a r f e d t w m h =
      ((a, r), refl, (omega arith, record { fits = f; moved = omega arith; kept = λ j n. refl }))
  spread_remainder-Progress (i ∷ is) a r f e d t w m h = elim (Bool-cases (r == 0)) [
    | inl z ↦ (
      (a, r),
      rw z refl,
      (ground arith, record { fits = f; moved = ground arith; kept = λ j n. refl }),
    )
    | inr z ↦
        let more = get_or a i 0 + 1 in
        let inside : i < length a =
          omega (arith, e.0.0, Fits-length (Admits side price) orders a f) in
        let (res, ran, (none_left, p)) =
          spread_remainder-Progress is (set a i more) (r - 1)
            (Fits-set (Admits side price) orders a i more f
              (omega (arith, m.0), inr (e.0.2, e.0.3), inl t.0))
            e.1 d.1 t.1 w.1 (room-set orders i more is a d.0 m.1) (ground arith) in
        (
          res,
          rw (z, lt→ltb _ _ m.0, lt→ltb (get_or a i 0 + 1) u64_bound (omega (arith, m.0, w.0))) ran,
          (
            none_left,
            record {
              fits = p.fits;
              moved = ground (arith, p.moved, sum-set a i more inside);
              kept = λ j n. rw (p.kept j n.1) (get_or-set_ne a i j more 0 n.0);
            },
          ),
        )
  ]

pub le_cancel : (a b t : ℕ) → 0 < t → a * t ≤ b * t → a ≤ b
le_cancel a b t h k = grind arith

module _ (orders : List AuctionOrder) (side : Side) (price : ℕ) (capacity total : ℕ) where
  -- After the floor shares: what was assigned, and the bounds on it that the remainder rests on.
  pub record Shared (is a : List ℕ) (assigned : ℕ) (b : List ℕ) (done : ℕ) : Type 0 where
    pub progress : Progress orders side price is a done b assigned
    pub room : All (HasRoom orders b) is
    pub enough :
        sum_of (quantity_at orders) is * capacity + assigned * total ≤ (done + length is) * total
    pub bounded : done * total ≤ assigned * total + sum_of (quantity_at orders) is * capacity

  module _ (capacity_lt : capacity < total) (capacity_u64 : capacity < u64_bound) where
    pub pro_rata_shares-Shared :
        (is a : List ℕ) (assigned : ℕ)
        → Ready orders side price is a
        → All (IsIoc orders) is
        → All (λ i. quantity_at orders i < u64_bound) is
        → assigned * total + sum_of (quantity_at orders) is * capacity ≤ capacity * total
        → Returns
            (pro_rata_shares orders capacity total is a assigned)
            (λ (b, done). Shared is a assigned b done)
    unfolding pro_rata_shares
    pro_rata_shares-Shared [] a assigned ready t w h = (
      (a, assigned),
      refl,
      record {
        progress = Progress-refl orders side price [] a assigned ready.fits;
        room = tt;
        enough = omega arith;
        bounded = omega arith;
      },
    )
    pro_rata_shares-Shared (i ∷ is) a assigned ready t w h =
        let q = quantity_at orders i in
        let share = q * capacity / total in
        let below : share < q = share_lt q capacity total ready.eligible.0.1 capacity_lt in
        let (floor, ceiling) = div_bounds q capacity total (omega arith) in
        let fits_next : (assigned + share) * total + sum_of (quantity_at orders) is * capacity
            ≤ capacity * total =
          omega (arith, floor) in
        let next_le : assigned + share ≤ capacity =
          le_cancel (assigned + share) capacity total (omega arith) (omega (arith, fits_next)) in
        let admits = Admits-part orders side price i is a share ready t.0 (omega (arith, below)) in
        let (res, ran, s) =
          pro_rata_shares-Shared is (set a i share) (assigned + share)
            (Ready-set orders side price i is a share ready admits) t.1 w.1 fits_next in
        (
          res,
          rw
              (
                lt→ltb (q * capacity) u128_bound (product_bound q capacity w.0 capacity_u64),
                lt→leb_false u64_bound share (omega (arith, below, w.0)),
                lt→ltb (assigned + share) u64_bound (omega (arith, next_le)),
              )
              ran,
          record {
            progress = record {
              fits = s.progress.fits;
              moved = omega (
                arith,
                s.progress.moved,
                sum-set a i share (Ready-inside orders side price i is a share ready),
                ready.empty.0,
              );
              kept = λ j n. rw (s.progress.kept j n.1) (get_or-set_ne a i j share 0 n.0);
            };
            room = (
              rw
                  (
                    s.progress.kept i (All-map (λ j n e. n (sym e)) is ready.distinct.0),
                    get_or-set_self a i share 0 (Ready-inside orders side price i is a share ready),
                  )
                  below,
              s.room,
            );
            enough = omega (arith, ceiling, s.enough);
            bounded = omega (arith, floor, s.bounded);
          },
        )
