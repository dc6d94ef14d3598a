-- ===== src/Auction/Fill.antt =====
-- src/batch_auction.rs: the totals that are checked for overflow, and the loops that fill orders whole.
use asteria.Base.{
  ℕ, ◌+◌, ◌-◌, ◌≤◌, ◌<◌, ◌≡◌, refl, inl, inr, List, [], ◌∷◌, arith, leb, Bool-cases, set, sum,
  sum_of, u64_bound,
}
use asteria.Base.Result.{ok, Returns}
use asteria.Auction.Types.{Side, AuctionOrder, quantity_at}
use asteria.Auction.Allocate.{checked_quantity, add_quantities, checked_values, add_values}
use asteria.Auction.Sides.{fill_all, fill_fok}
use asteria.Auction.Fits.{
  Ready, Progress, Progress-refl, Progress-set, Ready-set, Ready-tail, Admits-full,
}

module _ (orders : List AuctionOrder) where
  add_quantities-ok :
      (total : ℕ) (is : List ℕ)
      → total + sum_of (quantity_at orders) is < u64_bound
      → add_quantities orders total is ≡ ok (total + sum_of (quantity_at orders) is)
  unfolding add_quantities
  add_quantities-ok total [] h = ground arith
  add_quantities-ok total (i ∷ is) h =
      ground (arith, add_quantities-ok (total + quantity_at orders i) is)

  pub checked_quantity-ok :
      (is : List ℕ)
      → sum_of (quantity_at orders) is < u64_bound
      → checked_quantity orders is ≡ ok (sum_of (quantity_at orders) is)
  unfolding checked_quantity
  checked_quantity-ok is h = ground (arith, add_quantities-ok 0 is)

add_values-ok :
    (total : ℕ) (vs : List ℕ)
    → total + sum vs < u64_bound
    → add_values total vs ≡ ok (total + sum vs)
unfolding add_values
add_values-ok total [] h = ground arith
add_values-ok total (v ∷ vs) h = ground (arith, add_values-ok (total + v) vs)

pub checked_values-ok : (vs : List ℕ) → sum vs < u64_bound → checked_values vs ≡ ok (sum vs)
unfolding checked_values
checked_values-ok vs h = ground (arith, add_values-ok 0 vs)

module _ (orders : List AuctionOrder) (side : Side) (price : ℕ) where
  -- A group that fits is filled, and the remaining quantity falls by its total.
  pub fill_all-Progress :
      (is a : List ℕ) (r : ℕ)
      → Ready orders side price is a
      → Progress orders side price is a
          (sum_of (quantity_at orders) is + r)
          (fill_all orders is a)
          r
  unfolding fill_all
  fill_all-Progress [] a r ready = record {
    fits = ready.fits;
    moved = omega arith;
    kept = λ j n. refl;
  }
  fill_all-Progress (i ∷ is) a r ready =
      let q = quantity_at orders i in
      let rest = fill_all-Progress is (set a i q) r (
        Ready-set orders side price i is a q ready
          (Admits-full orders side price i is a q ready)) in
      let p = Progress-set orders side price i is a q ready _ r _ rest in
      record { fits = p.fits; moved = omega (arith, p.moved); kept = p.kept }

  -- The loop over fill-or-kill orders never fails, and fills each order whole or not at all.
  pub fill_fok-Progress :
      (is a : List ℕ) (r : ℕ)
      → Ready orders side price is a
      → Returns (fill_fok orders is a r) (λ (b, left).
        Progress orders side price is a r b left
        × (left ≤ r)
        × (r ≤ left + sum_of (quantity_at orders) is))
  unfolding fill_fok
  fill_fok-Progress [] a r ready =
      ((a, r), refl, (Progress-refl orders side price [] a r ready.fits, omega arith, omega arith))
  fill_fok-Progress (i ∷ is) a r ready =
      let q = quantity_at orders i in
      elim (Bool-cases (leb q r)) [
        | inl e ↦
            let (res, ran, (p, le, ge)) = fill_fok-Progress is (set a i q) (r - q) (
              Ready-set orders side price i is a q ready
                (Admits-full orders side price i is a q ready)) in
            let w = Progress-set orders side price i is a q ready _ _ _ p in
            (
              res,
              rw e ran,
              (
                record { fits = w.fits; moved = ground (arith, w.moved); kept = w.kept },
                ground (arith, le),
                ground (arith, ge),
              ),
            )
        | inr e ↦
            let (res, ran, (p, le, ge)) =
              fill_fok-Progress is a r (Ready-tail orders side price i is a 0 ready) in
            (
              res,
              rw e ran,
              (
                record { fits = p.fits; moved = p.moved; kept = λ j n. p.kept j n.1 },
                le,
                omega (arith, ge),
              ),
            )
      ]
