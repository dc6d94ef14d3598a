-- ===== src/Auction/Prices.antt =====
-- src/batch_auction.rs: the candidate prices are the prices given and the limit prices of the orders.
use asteria.Base.{ℕ, ◌≡◌, ◌⊎◌, refl, subst, inl, inr, List, [], ◌∷◌, arith, All, Ordering, compare}
use asteria.Auction.Types.{OrderKind, limit, market, AuctionOrder}
use asteria.Auction.Clear.{candidate_prices, insert_price, add_candidate}

Ordering-cases : (o : Ordering) → (o ≡ Ordering.lt) ⊎ ((o ≡ Ordering.eq) ⊎ (o ≡ Ordering.gt))
Ordering-cases Ordering.lt = inl refl
Ordering-cases Ordering.eq = inr (inl refl)
Ordering-cases Ordering.gt = inr (inr refl)

insert_price-All :
    (P : ℕ → Type 0) (p : ℕ) (prices : List ℕ) → All P (insert_price p prices) → P p × All P prices
unfolding insert_price
insert_price-All P p [] h = h
insert_price-All P p (q ∷ qs) h = elim (Ordering-cases (compare p q)) [
  | inl e ↦ rw (e, insert_price) at h
  | inr (inl e) ↦
      let k : All P (q ∷ qs) = rw (e, insert_price) at h in
      let same : q ≡ p = ground arith in (subst P same k.0, k)
  | inr (inr e) ↦
      let k : All P (q ∷ insert_price p qs) = rw (e, insert_price) at h in
      let rest = insert_price-All P p qs k.1 in (rest.0, (k.0, rest.1))
]

add_candidate-All :
    (P : ℕ → Type 0) (kind : OrderKind) (prices : List ℕ)
    → All P (add_candidate kind prices)
    → All P prices × ((p : ℕ) → kind ≡ limit p → P p)
add_candidate-All P (limit price) prices h =
    let (at, rest) = insert_price-All P price prices h in
    (rest, λ p e. let same : price ≡ p = ground arith in subst P same at)
add_candidate-All P (market _) prices h = (h, λ p e. cc)

-- What holds at all candidate prices holds at every limit price, and at the prices before.
pub candidate_prices-All :
    (P : ℕ → Type 0) (prices : List ℕ) (orders : List AuctionOrder)
    → All P (candidate_prices prices orders)
    → All P prices × All (λ o. (p : ℕ) → o.kind ≡ limit p → P p) orders
unfolding candidate_prices
candidate_prices-All P prices [] h = (h, tt)
candidate_prices-All P prices (o ∷ os) h =
    let (added, rest) = candidate_prices-All P (add_candidate o.kind prices) os h in
    let (before, here) = add_candidate-All P o.kind prices added in (before, (here, rest))

insert_price-keeps :
    (P : ℕ → Type 0) (p : ℕ) (prices : List ℕ) → P p → All P prices → All P (insert_price p prices)
unfolding insert_price
insert_price-keeps P p [] here h = (here, h)
insert_price-keeps P p (q ∷ qs) here h = elim (Ordering-cases (compare p q)) [
  | inl e ↦ rw (e, insert_price) (here, h)
  | inr (inl e) ↦ rw (e, insert_price) h
  | inr (inr e) ↦ rw (e, insert_price) (h.0, insert_price-keeps P p qs here h.1)
]

add_candidate-keeps :
    (P : ℕ → Type 0) (kind : OrderKind) (prices : List ℕ)
    → ((p : ℕ) → kind ≡ limit p → P p)
    → All P prices
    → All P (add_candidate kind prices)
add_candidate-keeps P (limit price) prices here h =
    insert_price-keeps P price prices (here price refl) h
add_candidate-keeps P (market _) prices here h = h

pub candidate_prices-keeps :
    (P : ℕ → Type 0) (prices : List ℕ) (orders : List AuctionOrder)
    → All (λ o. (p : ℕ) → o.kind ≡ limit p → P p) orders
    → All P prices
    → All P (candidate_prices prices orders)
unfolding candidate_prices
candidate_prices-keeps P prices [] here h = h
candidate_prices-keeps P prices (o ∷ os) here h =
    candidate_prices-keeps P (add_candidate o.kind prices) os here.1
      (add_candidate-keeps P o.kind prices here.0 h)

-- One of the orders is limited to the price.
abbrev pub HasLimit : ℕ → List AuctionOrder → Type 0
HasLimit price [] = ⊥
HasLimit price (o ∷ orders) = (o.kind ≡ limit price) ⊎ HasLimit price orders

pub limits-All :
    (P : ℕ → Type 0) (orders : List AuctionOrder)
    → ((p : ℕ) → HasLimit p orders → P p)
    → All (λ o. (p : ℕ) → o.kind ≡ limit p → P p) orders
limits-All P [] h = tt
limits-All P (o ∷ orders) h = ((λ p e. h p (inl e)), limits-All P orders (λ p k. h p (inr k)))
