-- ===== src/Auction/Validate.antt =====
-- src/batch_auction.rs: exactly which batches `validate` accepts.
use asteria.Base.{
  ℕ, ◌+◌, ◌<◌, ◌≡◌, ◌≢◌, ◌↔◌, refl, false, List, [], ◌∷◌, arith, All, All-map, All-zip, u64_bound,
  Ordering, if◌then◌else◌, Bytes,
}
use asteria.Base.Result.{ok}
use asteria.Auction.Types.{
  compare_bytes, OrderId, buy, sell, same_side, OrderKind, limit, market, AuctionOrder,
  AuctionConfig,
}
use asteria.Auction.Clear.{seen, validate, validate_orders, is_zero_limit}
use asteria.Auction.Eligible.{side_total}
use asteria.Auction.Rounds.{IsBounded}

pub compare_bytes-eq : (a b : Bytes) → compare_bytes a b ≡ Ordering.eq → a ≡ b
compare_bytes-eq [] [] h = refl
compare_bytes-eq [] (y ∷ b) h = cc
compare_bytes-eq (x ∷ a) [] h = cc
compare_bytes-eq (x ∷ a) (y ∷ b) h = ground (arith, compare_bytes-eq a b)

pub compare_bytes_refl : (a : Bytes) → compare_bytes a a ≡ Ordering.eq
compare_bytes_refl [] = refl
compare_bytes_refl (x ∷ a) = ground (arith, compare_bytes_refl a)

-- No two orders share an id.
abbrev pub DistinctIds : List AuctionOrder → Type 0
DistinctIds [] = Unit
DistinctIds (o ∷ os) = All (λ p. p.id ≢ o.id) os × DistinctIds os

-- A batch that the auction accepts.
pub record IsValid (config : AuctionConfig) (orders : List AuctionOrder) : Type 0 where
  pub reference : 0 < config.reference_price
  pub positive : All (λ o. 0 < o.quantity) orders
  pub priced : All (λ o. o.kind ≢ limit 0) orders
  pub distinct : DistinctIds orders
  pub buys : side_total buy orders < u64_bound
  pub sells : side_total sell orders < u64_bound

pub IsValid-IsBounded :
    (config : AuctionConfig) (orders : List AuctionOrder) → IsValid config orders → IsBounded orders
IsValid-IsBounded config orders v = record { positive = v.positive; buys = v.buys; sells = v.sells }

seen_iff : (id : OrderId) (ids : List OrderId) → (seen id ids ≡ false) ↔ All (λ j. id ≢ j) ids
unfolding seen
seen_iff id [] = (λ h. tt, λ h. refl)
seen_iff id (j ∷ ids) = (
  λ h. ((λ e. ground (arith, compare_bytes_refl j)), ground (arith, (seen_iff id ids).0)),
  λ h. ground (arith, compare_bytes-eq id j, (seen_iff id ids).1 h.1),
)

-- The state in the middle of the loop: the ids seen so far and both running totals.
record ValidFrom (ids : List OrderId) (b s : ℕ) (orders : List AuctionOrder) : Type 0 where
  positive : All (λ o. 0 < o.quantity) orders
  priced : All (λ o. o.kind ≢ limit 0) orders
  fresh : All (λ o. All (λ j. o.id ≢ j) ids) orders
  distinct : DistinctIds orders
  buys : b + side_total buy orders < u64_bound
  sells : s + side_total sell orders < u64_bound

is_zero_limit_iff : (k : OrderKind) → (is_zero_limit k ≡ false) ↔ (k ≢ limit 0)
unfolding is_zero_limit
is_zero_limit_iff (limit p) = ground arith
is_zero_limit_iff (market p) = ground arith

abbrev bought : AuctionOrder → ℕ
bought o = if same_side o.side buy then o.quantity else 0

abbrev sold : AuctionOrder → ℕ
sold o = if same_side o.side sell then o.quantity else 0

-- One round of the loop passes exactly if its order is in order.
record StepOk (ids : List OrderId) (b s : ℕ) (o : AuctionOrder) (os : List AuctionOrder)
    : Type 0 where
  positive : 0 < o.quantity
  priced : is_zero_limit o.kind ≡ false
  fresh : seen o.id ids ≡ false
  buys : b + bought o < u64_bound
  sells : s + sold o < u64_bound
  rest : validate_orders (o.id ∷ ids) (b + bought o) (s + sold o) os ≡ ok tt

module _ (ids : List OrderId) (b s : ℕ) (o : AuctionOrder) (os : List AuctionOrder) where
  validate_step_sound :
      b < u64_bound → s < u64_bound → validate_orders ids b s (o ∷ os) ≡ ok tt → StepOk ids b s o os
  unfolding validate_orders
  validate_step_sound hb hs h = ground arith

  validate_step_complete : StepOk ids b s o os → validate_orders ids b s (o ∷ os) ≡ ok tt
  unfolding validate_orders
  validate_step_complete h = ground arith

fresh_and_distinct :
    (id : OrderId) (ids : List OrderId) (os : List AuctionOrder)
    → All (λ o. All (λ j. o.id ≢ j) (id ∷ ids)) os
    → (All (λ o. o.id ≢ id) os) × (All (λ o. All (λ j. o.id ≢ j) ids) os)
fresh_and_distinct id ids os h = (All-map (λ o k. k.0) os h, All-map (λ o k. k.1) os h)

validate_orders_sound :
    (ids : List OrderId) (b s : ℕ) (orders : List AuctionOrder)
    → b < u64_bound
    → s < u64_bound
    → validate_orders ids b s orders ≡ ok tt
    → ValidFrom ids b s orders
validate_orders_sound ids b s [] hb hs h = record {
  positive = tt;
  priced = tt;
  fresh = tt;
  distinct = tt;
  buys = omega arith;
  sells = omega arith;
}
validate_orders_sound ids b s (o ∷ os) hb hs h =
    let first = validate_step_sound ids b s o os hb hs h in
    let rest = validate_orders_sound (o.id ∷ ids) _ _ os first.buys first.sells first.rest in
    let (distinct, fresh) = fresh_and_distinct o.id ids os rest.fresh in
    record {
      positive = (first.positive, rest.positive);
      priced = ((is_zero_limit_iff o.kind).0 first.priced, rest.priced);
      fresh = ((seen_iff o.id ids).0 first.fresh, fresh);
      distinct = (distinct, rest.distinct);
      buys = omega (arith, rest.buys);
      sells = omega (arith, rest.sells);
    }

validate_orders_complete :
    (ids : List OrderId) (b s : ℕ) (orders : List AuctionOrder)
    → ValidFrom ids b s orders
    → validate_orders ids b s orders ≡ ok tt
validate_orders_complete ids b s [] v = unfold validate_orders in refl
validate_orders_complete ids b s (o ∷ os) v = validate_step_complete ids b s o os (record {
  positive = v.positive.0;
  priced = (is_zero_limit_iff o.kind).1 v.priced.0;
  fresh = (seen_iff o.id ids).1 v.fresh.0;
  buys = omega (arith, v.buys);
  sells = omega (arith, v.sells);
  rest = validate_orders_complete (o.id ∷ ids) _ _ os (record {
    positive = v.positive.1;
    priced = v.priced.1;
    fresh = All-zip _ (λ p. All (λ j. p.id ≢ j) ids) os v.distinct.0 v.fresh.1;
    distinct = v.distinct.1;
    buys = omega (arith, v.buys);
    sells = omega (arith, v.sells);
  });
})

no_ids : (os : List AuctionOrder) → All (λ o. All (λ j. o.id ≢ j) []) os
no_ids [] = tt
no_ids (o ∷ os) = (tt, no_ids os)

-- `validate` accepts exactly the batches with a positive reference price whose orders have positive
-- quantities, positive limit prices, distinct ids, and totals on each side that fit in `u64`.
pub validate_iff :
    (config : AuctionConfig) (orders : List AuctionOrder)
    → (validate config orders ≡ ok tt) ↔ IsValid config orders
unfolding validate
validate_iff config orders = (
  λ h.
      let loop : validate_orders [] 0 0 orders ≡ ok tt = ground arith in
      let v = validate_orders_sound [] 0 0 orders (omega arith) (omega arith) loop in
      record {
        reference = ground arith;
        positive = v.positive;
        priced = v.priced;
        distinct = v.distinct;
        buys = omega (arith, v.buys);
        sells = omega (arith, v.sells);
      },
  λ v.
      let loop = validate_orders_complete [] 0 0 orders (record {
        positive = v.positive;
        priced = v.priced;
        fresh = no_ids orders;
        distinct = v.distinct;
        buys = omega (arith, v.buys);
        sells = omega (arith, v.sells);
      }) in
      ground (arith, loop, v.reference),
)
