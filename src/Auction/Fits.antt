-- ===== src/Auction/Fits.antt =====
-- src/batch_auction.rs: what a vector of allocations may hold, and single writes to it.
use asteria.Base.{
  ℕ, zero, suc, ◌+◌, ◌≤◌, ◌<◌, ◌≡◌, refl, ◌≢◌, ◌⊎◌, inl, inr, true, List, [], ◌∷◌, arith, length,
  set, get_or, replicate, All, Distinct, sum, sum-set, get_or-set_ne,
}
use asteria.Auction.Types.{Side, AuctionOrder, ioc, order_at, quantity_at}
use asteria.Auction.Allocate.{crosses}

-- What an order may receive: at most its quantity, something only on its side and if it crosses the
-- price, and all or nothing unless it is immediate-or-cancel.
abbrev pub Admits : Side → ℕ → AuctionOrder → ℕ → Type 0
Admits side price o v =
    (v ≤ o.quantity)
    × ((v ≡ 0) ⊎ ((o.side ≡ side) × (crosses o price ≡ true)))
    × ((o.time_in_force ≡ ioc) ⊎ ((v ≡ 0) ⊎ (v ≡ o.quantity)))

-- One value for each order, each as the order admits.
abbrev pub Fits : (AuctionOrder → ℕ → Type 0) → List AuctionOrder → List ℕ → Type 0
Fits P [] [] = Unit
Fits P (o ∷ os) (v ∷ vs) = P o v × Fits P os vs
Fits P _ _ = ⊥

module _ (P : AuctionOrder → ℕ → Type 0) where
  pub Fits-length : (os : List AuctionOrder) (vs : List ℕ) → Fits P os vs → length vs ≡ length os
  Fits-length [] [] h = refl
  Fits-length (o ∷ os) (v ∷ vs) h = omega (arith, Fits-length os vs h.1)
  Fits-length [] (v ∷ vs) h = absurd h
  Fits-length (o ∷ os) [] h = absurd h

  pub Fits-set :
      (os : List AuctionOrder) (vs : List ℕ) (i v : ℕ)
      → Fits P os vs
      → P (order_at os i) v
      → Fits P os (set vs i v)
  Fits-set [] [] i v h p = tt
  Fits-set (o ∷ os) (x ∷ vs) zero v h p = (p, h.1)
  Fits-set (o ∷ os) (x ∷ vs) (suc i) v h p = (h.0, Fits-set os vs i v h.1 p)
  Fits-set [] (x ∷ vs) i v h p = absurd h
  Fits-set (o ∷ os) [] i v h p = absurd h

  pub Fits-replicate :
      ((o : AuctionOrder) → P o 0) → (os : List AuctionOrder) → Fits P os (replicate (length os) 0)
  Fits-replicate p [] = tt
  Fits-replicate p (o ∷ os) = (p o, Fits-replicate p os)

pub Admits-zero : (side : Side) (price : ℕ) (o : AuctionOrder) → Admits side price o 0
Admits-zero side price o = (omega arith, inl refl, inr (inl refl))

module _ (orders : List AuctionOrder) (side : Side) (price : ℕ) where
  -- An index of an order with a positive quantity, on the side, that crosses the price.
  abbrev pub IsEligible : ℕ → Type 0
  IsEligible i =
      (i < length orders)
      × (0 < quantity_at orders i)
      × ((order_at orders i).side ≡ side)
      × (crosses (order_at orders i) price ≡ true)

  -- The state before a loop over the indices: their allocations are still zero.
  pub record Ready (indices : List ℕ) (allocations : List ℕ) : Type 0 where
    pub fits : Fits (Admits side price) orders allocations
    pub eligible : All IsEligible indices
    pub distinct : Distinct indices
    pub empty : All (λ i. get_or allocations i 0 ≡ 0) indices

  -- What a loop over the indices does: what it takes from the remaining quantity it has allocated,
  -- and it leaves all other indices alone.
  pub record Progress (indices before : List ℕ) (available : ℕ) (after : List ℕ) (left : ℕ)
      : Type 0 where
    pub fits : Fits (Admits side price) orders after
    pub moved : sum after + left ≡ sum before + available
    pub kept : (j : ℕ) → All (λ i. i ≢ j) indices → get_or after j 0 ≡ get_or before j 0

  pub Progress-refl :
      (indices a : List ℕ) (r : ℕ) → Fits (Admits side price) orders a → Progress indices a r a r
  Progress-refl indices a r h = record { fits = h; moved = refl; kept = λ j n. refl }

  -- Two loops in a row, over parts of the same indices.
  pub Progress-trans :
      (whole first second a b c : List ℕ) (r s t : ℕ)
      → ((j : ℕ) → All (λ i. i ≢ j) whole → All (λ i. i ≢ j) first)
      → ((j : ℕ) → All (λ i. i ≢ j) whole → All (λ i. i ≢ j) second)
      → Progress first a r b s
      → Progress second b s c t
      → Progress whole a r c t
  Progress-trans whole first second a b c r s t f g p q = record {
    fits = q.fits;
    moved = omega (arith, p.moved, q.moved);
    kept = λ j n. rw (q.kept j (g j n)) (p.kept j (f j n));
  }

  empty-set :
      (i v : ℕ) (is a : List ℕ)
      → All (λ j. i ≢ j) is
      → All (λ j. get_or a j 0 ≡ 0) is
      → All (λ j. get_or (set a i v) j 0 ≡ 0) is
  empty-set i v [] a n h = tt
  empty-set i v (j ∷ is) a n h = (rw (get_or-set_ne a i j v 0 n.0) h.0, empty-set i v is a n.1 h.1)

  module _ (i : ℕ) (is a : List ℕ) (v : ℕ) (ready : Ready (i ∷ is) a) where
    -- The next index of the loop may be written.
    pub Ready-set : Admits side price (order_at orders i) v → Ready is (set a i v)
    Ready-set p = record {
      fits = Fits-set (Admits side price) orders a i v ready.fits p;
      eligible = ready.eligible.1;
      distinct = ready.distinct.1;
      empty = empty-set i v is a ready.distinct.0 ready.empty.1;
    }

    pub Ready-tail : Ready is a
    Ready-tail = record {
      fits = ready.fits;
      eligible = ready.eligible.1;
      distinct = ready.distinct.1;
      empty = ready.empty.1;
    }

    pub Ready-inside : i < length a
    Ready-inside =
        omega (arith, Fits-length (Admits side price) orders a ready.fits, ready.eligible.0.0)

    pub Progress-set :
        (c : List ℕ) (r s : ℕ) → Progress is (set a i v) s c r → Progress (i ∷ is) a (s + v) c r
    Progress-set c r s p = record {
      fits = p.fits;
      moved = omega (arith, p.moved, sum-set a i v Ready-inside, ready.empty.0);
      kept = λ j n. rw (p.kept j n.1) (get_or-set_ne a i j v 0 n.0);
    }

    -- A full allocation is admitted.
    pub Admits-full : Admits side price (order_at orders i) (quantity_at orders i)
    Admits-full = (omega arith, inr (ready.eligible.0.2, ready.eligible.0.3), inr (inr refl))

    pub Admits-part :
        (order_at orders i).time_in_force ≡ ioc
        → v ≤ quantity_at orders i
        → Admits side price (order_at orders i) v
    Admits-part e h = (h, inr (ready.eligible.0.2, ready.eligible.0.3), inl e)
