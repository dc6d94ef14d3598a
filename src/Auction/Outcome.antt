-- ===== src/Auction/Outcome.antt =====
-- src/batch_auction.rs: what an outcome of `clear_batch` is.
use mathlib.Core.List.{Perm}
use asteria.Base.{
  ℕ, ◌≡◌, refl, List, [], ◌∷◌, map, Option, none, some, length, replicate, sort_by-perm,
}
use asteria.Auction.Types.{buy, sell, AuctionOrder, AuctionOutcome, unfilled}
use asteria.Auction.Candidate.{CandidateOutcome}
use asteria.Auction.Clear.{empty_outcome, outcome_of, sort_allocations, allocation_list}
use asteria.Auction.Fits.{Fits, Fits-replicate}
use asteria.Auction.Balanced.{Cleared, Matched, executed, executed-zeros}

-- At no price nothing trades.
abbrev pub ClearedAt : Option ℕ → AuctionOrder → ℕ → Type 0
ClearedAt none o v = v ≡ 0
ClearedAt (some price) o v = Cleared price o v

-- An outcome lists, for each order once, an executed quantity that the order admits at the clearing
-- price, and the buys and the sells both execute the matched quantity.
pub record IsCleared (orders : List AuctionOrder) (outcome : AuctionOutcome) : Type 0 where
  pub quantities : List ℕ
  pub listed : Perm outcome.allocations (allocation_list orders quantities)
  pub fits : Fits (ClearedAt outcome.clearing_price) orders quantities
  pub bought : executed buy orders quantities ≡ outcome.matched_quantity
  pub sold : executed sell orders quantities ≡ outcome.matched_quantity

unfilled_list :
    (orders : List AuctionOrder)
    → map
        (λ (order : AuctionOrder). record {
          order_id = order.id;
          executed_quantity = 0;
          status = unfilled;
        })
        orders
      ≡ allocation_list orders (replicate (length orders) 0)
unfolding allocation_list
unfilled_list [] = refl
unfilled_list (o ∷ os) = rw (unfilled_list os)

empty_outcome-IsCleared : (orders : List AuctionOrder) → IsCleared orders (empty_outcome orders)
unfolding empty_outcome sort_allocations
empty_outcome-IsCleared orders = record {
  quantities = replicate (length orders) 0;
  listed = rw (unfilled_list orders) (sort_by-perm _ _);
  fits = Fits-replicate _ (λ o. refl) orders;
  bought = executed-zeros buy orders;
  sold = executed-zeros sell orders;
}

pub outcome_of-IsCleared :
    (orders : List AuctionOrder) (best : Option CandidateOutcome)
    → ((c : CandidateOutcome) → best ≡ some c → Matched orders c)
    → IsCleared orders (outcome_of orders best)
unfolding outcome_of sort_allocations
outcome_of-IsCleared orders none h = empty_outcome-IsCleared orders
outcome_of-IsCleared orders (some c) h =
    let m = h c refl in
    record {
      quantities = c.allocations;
      listed = sort_by-perm _ _;
      fits = m.fits;
      bought = m.bought;
      sold = m.sold;
    }
