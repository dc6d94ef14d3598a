-- ===== src/Auction/Balanced.antt =====
-- src/batch_auction.rs: the allocations of both sides together.
use asteria.Base.{
  ℕ, zero, suc, ◌+◌, ◌≤◌, ◌<◌, ◌≡◌, refl, ◌∙◌, ap, ◌⊎◌, inl, inr, true, List, [], ◌∷◌, arith,
  lt→ltb, length, replicate, All, sum, u64_bound, if◌then◌else◌,
}
use asteria.Base.Result.{Returns}
use asteria.Auction.Types.{Side, buy, sell, AuctionOrder, ioc, same_side}
use asteria.Auction.Allocate.{crosses}
use asteria.Auction.Candidate.{
  CandidateOutcome, write_values, add_to_values, combine, nothing_matched,
}
use asteria.Auction.Fits.{Admits, Fits, Fits-length, Fits-replicate}

-- What an order may receive when the batch clears at a price: at most its quantity, something only
-- if it crosses the price, and all or nothing unless it is immediate-or-cancel.
abbrev pub Cleared : ℕ → AuctionOrder → ℕ → Type 0
Cleared price o v =
    (v ≤ o.quantity)
    × ((v ≡ 0) ⊎ (crosses o price ≡ true))
    × ((o.time_in_force ≡ ioc) ⊎ ((v ≡ 0) ⊎ (v ≡ o.quantity)))

-- The quantity that the orders of a side receive.
abbrev pub executed : Side → List AuctionOrder → List ℕ → ℕ
executed side [] vs = 0
executed side (o ∷ os) [] = 0
executed side (o ∷ os) (v ∷ vs) = (if same_side o.side side then v else 0) + executed side os vs

-- A candidate whose allocations are admitted at its price, and whose sides both trade the matched
-- quantity.
pub record Matched (orders : List AuctionOrder) (c : CandidateOutcome) : Type 0 where
  pub fits : Fits (Cleared c.price) orders c.allocations
  pub bought : executed buy orders c.allocations ≡ c.matched_quantity
  pub sold : executed sell orders c.allocations ≡ c.matched_quantity

Admits→Cleared :
    (side : Side) (price : ℕ) (o : AuctionOrder) (v : ℕ) → Admits side price o v → Cleared price o v
Admits→Cleared side price o v (le, inl z, whole) = (le, inl z, whole)
Admits→Cleared side price o v (le, inr x, whole) = (le, inr x.1, whole)

write_values-zeros : (n : ℕ) (vs : List ℕ) → length vs ≡ n → write_values (replicate n 0) vs ≡ vs
unfolding write_values
write_values-zeros zero [] h = refl
write_values-zeros zero (v ∷ vs) h = absurd (omega arith)
write_values-zeros (suc n) [] h = absurd (omega arith)
write_values-zeros (suc n) (v ∷ vs) h = ap (◌∷◌ v) (write_values-zeros n vs (omega arith))

pub executed-zeros :
    (side : Side) (orders : List AuctionOrder)
    → executed side orders (replicate (length orders) 0) ≡ 0
executed-zeros side [] = refl
executed-zeros side (o ∷ os) = ground (arith, executed-zeros side os)

module _ (price : ℕ) where
  -- One order: a buy has nothing from the sells, and the other way round.
  one_side :
      (o : AuctionOrder) (v w : ℕ)
      → Admits buy price o v
      → Admits sell price o w
      → Cleared price o (v + w)
        × ((if same_side o.side buy then v + w else 0) ≡ v)
        × ((if same_side o.side sell then v + w else 0) ≡ w)
  one_side o v w a b = ground arith

  add_to_values-Cleared :
      (os : List AuctionOrder) (vs ws : List ℕ)
      → All (λ o. o.quantity < u64_bound) os
      → Fits (Admits buy price) os vs
      → Fits (Admits sell price) os ws
      → Returns (add_to_values vs ws) (λ xs.
        Fits (Cleared price) os xs × (executed buy os xs ≡ sum vs) × (executed sell os xs ≡ sum ws))
  unfolding add_to_values
  add_to_values-Cleared [] [] [] q a b = ([], refl, (tt, refl, refl))
  add_to_values-Cleared [] (v ∷ vs) ws q a b = absurd a
  add_to_values-Cleared [] [] (w ∷ ws) q a b = absurd b
  add_to_values-Cleared (o ∷ os) [] ws q a b = absurd a
  add_to_values-Cleared (o ∷ os) (v ∷ vs) [] q a b = absurd b
  add_to_values-Cleared (o ∷ os) (v ∷ vs) (w ∷ ws) q a b =
      let (rest, ran, (fits, bought, sold)) = add_to_values-Cleared os vs ws q.1 a.1 b.1 in
      let (cleared, is_bought, is_sold) = one_side o v w a.0 b.0 in
      (
        (v + w) ∷ rest,
        rw (lt→ltb (v + w) u64_bound (omega (arith, cleared.0, q.0)), ran),
        ((cleared, fits), omega (arith, is_bought, bought), omega (arith, is_sold, sold)),
      )

  pub combine-Matched :
      (orders : List AuctionOrder) (imbalance target : ℕ) (buys sells : List ℕ)
      → All (λ o. o.quantity < u64_bound) orders
      → Fits (Admits buy price) orders buys
      → Fits (Admits sell price) orders sells
      → sum buys ≡ target
      → sum sells ≡ target
      → Returns
          (combine orders price imbalance target buys sells)
          (λ c. Matched orders c × (c.price ≡ price) × (c.matched_quantity ≡ target))
  unfolding combine
  combine-Matched orders imbalance target buys sells q a b p r =
      let (xs, ran, (fits, bought, sold)) = add_to_values-Cleared orders buys sells q a b in
      (
        record {
          price = price;
          matched_quantity = target;
          imbalance = imbalance;
          allocations = xs;
        },
        rw (write_values-zeros (length orders) buys (Fits-length _ orders buys a), ran),
        (record { fits = fits; bought = bought ∙ p; sold = sold ∙ r }, refl, refl),
      )

  pub nothing_matched-Matched :
      (orders : List AuctionOrder) (imbalance : ℕ)
      → Matched orders (nothing_matched orders price imbalance)
  unfolding nothing_matched
  nothing_matched-Matched orders imbalance = record {
    fits = Fits-replicate _ (λ o. (omega arith, inl refl, inr (inl refl))) orders;
    bought = executed-zeros buy orders;
    sold = executed-zeros sell orders;
  }

  pub nothing_matched-price :
      (orders : List AuctionOrder) (imbalance : ℕ)
      → (nothing_matched orders price imbalance).price ≡ price
  unfolding nothing_matched
  nothing_matched-price orders imbalance = refl
