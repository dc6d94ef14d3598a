-- ===== src/Auction/Eligible.antt =====
-- src/batch_auction.rs: the indices of the eligible orders of a side.
use asteria.Base.{
  ℕ, suc, ◌+◌, ◌≤◌, ◌<◌, ◌≡◌, ◌≢◌, refl, ap, inl, inr, Bool, true, false, ◌&&◌, List, [], ◌∷◌, map,
  arith, Bool-cases, if◌then◌else◌, sum_of, All, All-map, Distinct, enumerate,
}
use asteria.Auction.Types.{Side, buy, sell, AuctionOrder, same_side, quantity_at}
use asteria.Auction.Allocate.{crosses, eligible_in, eligible_indices}
use asteria.Auction.Fits.{IsEligible}

-- The submitted quantity of a side.
abbrev pub side_total : Side → List AuctionOrder → ℕ
side_total side [] = 0
side_total side (o ∷ os) = (if same_side o.side side then o.quantity else 0) + side_total side os

All-map-suc {κ} : (P : ℕ → Type κ) (is : List ℕ) → All (λ i. P (suc i)) is → All P (map suc is)
All-map-suc P [] h = tt
All-map-suc P (i ∷ is) h = (h.0, All-map-suc P is h.1)

Distinct-map-suc : (is : List ℕ) → Distinct is → Distinct (map suc is)
Distinct-map-suc [] d = tt
Distinct-map-suc (i ∷ is) d = (
  All-map-suc (λ j. suc i ≢ j) is (All-map (λ j n e. n (omega arith)) is d.0),
  Distinct-map-suc is d.1,
)

sum_of-map-suc : (f : ℕ → ℕ) (is : List ℕ) → sum_of f (map suc is) ≡ sum_of (λ i. f (suc i)) is
sum_of-map-suc f [] = refl
sum_of-map-suc f (i ∷ is) = omega (arith, sum_of-map-suc f is)

zero-ne-map-suc : (is : List ℕ) → All (λ j. 0 ≢ j) (map suc is)
zero-ne-map-suc [] = tt
zero-ne-map-suc (i ∷ is) = (omega arith, zero-ne-map-suc is)

same_side→eq : (s t : Side) → same_side s t ≡ true → s ≡ t
same_side→eq buy buy h = refl
same_side→eq sell sell h = refl
same_side→eq buy sell h = cc
same_side→eq sell buy h = cc

module _ (side : Side) (price : ℕ) where
  eligible_in-map :
      (xs : List (ℕ × AuctionOrder))
      → eligible_in side price (map (λ (i, o). (suc i, o)) xs) ≡ map suc (eligible_in side price xs)
  unfolding eligible_in
  eligible_in-map [] = refl
  eligible_in-map ((i, o) ∷ xs) = elim (Bool-cases (same_side o.side side && crosses o price)) [
    | inl e ↦ rw e (ap (◌∷◌ (suc i)) (eligible_in-map xs))
    | inr e ↦ rw e (eligible_in-map xs)
  ]

  -- The indices of a longer batch, from those of its tail.
  eligible_indices-cons :
      (o : AuctionOrder) (os : List AuctionOrder)
      → eligible_indices (o ∷ os) side price ≡ (
          if same_side o.side side && crosses o price
          then 0 ∷ map suc (eligible_indices os side price)
          else map suc (eligible_indices os side price))
  unfolding eligible_indices
  eligible_indices-cons o os = rw (eligible_in-map (enumerate os))

  -- Eligible indices, each once, with no more than the quantity of the side.
  pub record Listed (os : List AuctionOrder) (is : List ℕ) : Type 0 where
    pub eligible : All (IsEligible os side price) is
    pub distinct : Distinct is
    pub total : sum_of (quantity_at os) is ≤ side_total side os

  Listed-step :
      (o : AuctionOrder) (os : List AuctionOrder) (is : List ℕ)
      → 0 < o.quantity
      → Listed os is
      → Listed
          (o ∷ os)
          (if same_side o.side side && crosses o price then 0 ∷ map suc is else map suc is)
  Listed-step o os is pos l = go (same_side o.side side) (crosses o price) refl refl
    where
      tail_eligible : All (IsEligible (o ∷ os) side price) (map suc is)
      tail_eligible =
          All-map-suc _ is (All-map (λ i e. (omega (arith, e.0), e.1, e.2, e.3)) is l.eligible)

      go :
          (s c : Bool)
          → same_side o.side side ≡ s
          → crosses o price ≡ c
          → Listed (o ∷ os) (if s && c then 0 ∷ map suc is else map suc is)
      go true true p q = record {
        eligible = ((omega arith, pos, same_side→eq _ _ p, q), tail_eligible);
        distinct = (zero-ne-map-suc is, Distinct-map-suc is l.distinct);
        total = rw p (omega (arith, l.total, sum_of-map-suc (quantity_at (o ∷ os)) is));
      }
      go true false p q = record {
        eligible = tail_eligible;
        distinct = Distinct-map-suc is l.distinct;
        total = omega (arith, l.total, sum_of-map-suc (quantity_at (o ∷ os)) is);
      }
      go false c p q = record {
        eligible = tail_eligible;
        distinct = Distinct-map-suc is l.distinct;
        total = omega (arith, l.total, sum_of-map-suc (quantity_at (o ∷ os)) is);
      }

  pub eligible_indices-Listed :
      (os : List AuctionOrder)
      → All (λ o. 0 < o.quantity) os
      → Listed os (eligible_indices os side price)
  eligible_indices-Listed [] h =
      unfold eligible_indices in record { eligible = tt; distinct = tt; total = omega arith }
  eligible_indices-Listed (o ∷ os) h =
      rw (eligible_indices-cons o os) (Listed-step o os _ h.0 (eligible_indices-Listed os h.1))
