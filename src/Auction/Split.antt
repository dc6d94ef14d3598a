-- ===== src/Auction/Split.antt =====
-- src/batch_auction.rs: the pro-rata split never fails, and keeps the books.
use native.Mathlib.Nat.{mul_comm}
use asteria.Base.{
  ℕ, ◌+◌, ◌-◌, ◌≤◌, ◌<◌, ◌≡◌, refl, inl, inr, true, List, [], ◌∷◌, arith, leb, ◌==◌, Bool-cases,
  leb-eq-false→lt, le→leb, length, sum_of, All, All-sort_by, Distinct-sort_by, length-sort_by,
  u64_bound, Bytes,
}
use asteria.Base.Result.{Returns}
use asteria.Auction.Types.{Side, AuctionOrder, TimeInForce, ioc, is_ioc, order_at, quantity_at}
use asteria.Auction.Allocate.{by_priority, compare_priority}
use asteria.Auction.Sides.{allocate_pro_rata}
use asteria.Auction.Fits.{Ready, Progress, Progress-refl}
use asteria.Auction.Fill.{checked_quantity-ok, fill_all-Progress}
use asteria.Auction.ProRata.{IsIoc, le_cancel, pro_rata_shares-Shared, spread_remainder-Progress}

each_below : (f : ℕ → ℕ) (bound : ℕ) (is : List ℕ) → sum_of f is < bound → All (λ i. f i < bound) is
each_below f bound [] h = tt
each_below f bound (i ∷ is) h = (omega arith, each_below f bound is (omega arith))

pub is_ioc→ioc : (t : TimeInForce) → is_ioc t ≡ true → t ≡ ioc
is_ioc→ioc TimeInForce.ioc h = refl
is_ioc→ioc TimeInForce.fok h = cc

module _ (sha256 : Bytes → Bytes) (commitment : Bytes) (orders : List AuctionOrder) (side : Side)
    (price : ℕ) where
  pub allocate_pro_rata-Progress :
      (is a : List ℕ) (remaining : ℕ)
      → Ready orders side price is a
      → All (IsIoc orders) is
      → sum_of (quantity_at orders) is < u64_bound
      → Returns (allocate_pro_rata sha256 commitment orders is a remaining) (λ (b, left).
        Progress orders side price is a remaining b left
        × (left ≡ remaining - sum_of (quantity_at orders) is))
  unfolding allocate_pro_rata
  allocate_pro_rata-Progress [] a remaining ready t h = (
    (a, remaining),
    refl,
    (Progress-refl orders side price [] a remaining ready.fits, omega arith),
  )
  allocate_pro_rata-Progress (i ∷ is) a remaining ready t h = elim (Bool-cases (remaining == 0)) [
    | inl z ↦ (
      (a, remaining),
      rw z,
      (Progress-refl orders side price (i ∷ is) a remaining ready.fits, ground arith),
    )
    | inr z ↦ elim (Bool-cases (leb (sum_of (quantity_at orders) (i ∷ is)) remaining)) [
      | inl e ↦
          let total = sum_of (quantity_at orders) (i ∷ is) in
          let p = fill_all-Progress orders side price (i ∷ is) a (remaining - total) ready in
          (
            (_, remaining - total),
            rw (z, checked_quantity-ok orders (i ∷ is) h, e) refl,
            (record { fits = p.fits; moved = ground (arith, p.moved); kept = p.kept }, refl),
          )
      | inr e ↦
          let total = sum_of (quantity_at orders) (i ∷ is) in
          let less : remaining < total = leb-eq-false→lt _ _ e in
          let rank = by_priority sha256 commitment orders (i ∷ is) in
          let by = λ (k j : ℕ).
            compare_priority sha256 commitment (order_at orders k) (order_at orders j) in
          let small = each_below (quantity_at orders) u64_bound (i ∷ is) h in
          let ((b, done), shared, s) =
            pro_rata_shares-Shared orders side price remaining total less (omega arith) (i ∷ is) a 0
              ready t small (omega (arith, mul_comm remaining total)) in
          let done_le : done ≤ remaining =
            le_cancel done remaining total (omega arith)
              (omega (arith, s.bounded, mul_comm remaining total)) in
          let enough : remaining ≤ done + length (i ∷ is) =
            le_cancel remaining (done + length (i ∷ is)) total (omega arith)
              (omega (arith, s.enough, mul_comm remaining total)) in
          let ((c, left), spread, (none_left, p)) =
            spread_remainder-Progress orders side price rank b (remaining - done) s.progress.fits
              (All-sort_by by _ (i ∷ is) ready.eligible)
              (Distinct-sort_by by (i ∷ is) ready.distinct) (All-sort_by by _ (i ∷ is) t)
              (All-sort_by by _ (i ∷ is) small) (All-sort_by by _ (i ∷ is) s.room)
              (rw (length-sort_by by (i ∷ is)) (omega (arith, enough))) in
          (
            (c, 0),
            rw
                (
                  z,
                  checked_quantity-ok orders (i ∷ is) h,
                  e,
                  shared,
                  le→leb done remaining done_le,
                  spread,
                  none_left,
                )
                refl,
            (
              record {
                fits = p.fits;
                moved = omega (arith, p.moved, s.progress.moved, done_le);
                kept = λ j n. rw (p.kept j (All-sort_by by _ (i ∷ is) n)) (s.progress.kept j n);
              },
              omega (arith, less),
            ),
          )
    ]
  ]
