-- ===== src/PrivateMarket/Cleared.antt =====
-- src/private_market.rs: what `clear_private_batch` returns settles the batch.
use mathlib.Core.List.{Perm}
use asteria.Base.{
  ℕ, ◌+◌, ◌<◌, ◌≡◌, ◌⊎◌, inl, inr, refl, sym, ap, ◌∙◌, subst, true, false, not, Bool-cases, List,
  [], ◌∷◌, map, Option, none, some, Bytes, ◌==◌, ==_iff, ◌||◌, or-false, not-eq-false, All,
  checked_add, u64_bound, arith, if◌then◌else◌,
}
use asteria.Base.Result.{ok, >>=-eq-ok, fail_if, fail_if-eq-ok, ok_or, ok-inj, some-inj, map_err}
use asteria.Auction.Types.{AuctionOutcome, Allocation}
use asteria.Auction.Clear.{clear_batch}
use asteria.Domain.{Side, buy, sell, same_side, MarketConfig}
use asteria.PrivateMarket.Types.{
  FixedDecimal, BatchParticipant, BatchContext, ParticipantAllocation, PrivateBatchOutcome,
  BatchFill, PrivateMarketError, allocation_conservation, missing_allocation, arithmetic_overflow,
}
use asteria.PrivateMarket.Units.{price_to_ticks, ticks_to_price, quantity_to_lots, lots_to_quantity}
use asteria.PrivateMarket.Orders.{validate_market_steps}
use asteria.PrivateMarket.Pairing.{pair_fills}
use asteria.PrivateMarket.Shares.{executed_lots}
use asteria.PrivateMarket.Settlement.{IsSettled, pair_fills-IsSettled}
use asteria.PrivateMarket.Ordered.{Ascending, ids_of, participants_by_id-Ordered}
use asteria.PrivateMarket.ById.{ById, find_by_id, remove_by_id}
use asteria.PrivateMarket.Clearing.{
  is_fok, add_lots, participants_by_id, check_distinct, index_allocations, check_used,
  allocation_commitment, collect_orders, check_atomic, restore, to_clearing_price, settle_batch,
  clear_private_batch,
}

module _ {D : Type 0} ⦃fixed : FixedDecimal D⦄ (config : MarketConfig D) where
  -- An allocation as a participant gets it: its quantity is what its lots convert to, and a fill-or-kill order is executed
  -- in full or not at all.
  pub record IsRestored (a : ParticipantAllocation D) : Type 0 where
    pub exact : lots_to_quantity a.executed_lots config ≡ ok a.executed_quantity
    pub atomic :
        is_fok a.participant.time_in_force ≡ true
        → (a.executed_lots ≡ 0)
          ⊎ (quantity_to_lots a.participant.quantity config ≡ ok a.executed_lots)

  check_atomic-executed :
      (participant : BatchParticipant D) (executed : ℕ)
      → check_atomic config participant executed ≡ ok tt
      → is_fok participant.time_in_force ≡ true
      → (executed ≡ 0) ⊎ (quantity_to_lots participant.quantity config ≡ ok executed)
  unfolding check_atomic
  check_atomic-executed participant executed h e = elim (Bool-cases (executed == 0)) [
    | inl zero_ ↦ inl ((==_iff _ _).0 zero_)
    | inr nonzero ↦
        let h' = rw (e, nonzero) at h in
        let (lots, converted, same) =
          >>=-eq-ok (quantity_to_lots participant.quantity config) _ h' in
        let equal : executed ≡ lots = (==_iff _ _).0 (not-eq-false _ (fail_if-eq-ok _ _ same)) in
        inr (converted ∙ ap ok (sym equal))
  ]

  -- The lots that count for a side.
  abbrev on_side : Side → Side → ℕ → ℕ
  on_side target side lots = if same_side side target then lots else 0

  checked_sum :
      (a b c : ℕ) (e : PrivateMarketError D)
      → ok_or (checked_add u64_bound a b) e ≡ ok c
      → c ≡ a + b
  checked_sum a b c e h = ground arith

  add_lots-sums :
      (side : Side) (lots b s b' s' : ℕ)
      → add_lots {D = D} side lots (b, s) ≡ ok (b', s')
      → (b' ≡ b + on_side buy side lots) × (s' ≡ s + on_side sell side lots)
  unfolding add_lots
  add_lots-sums buy lots b s b' s' h =
      let (total, added, same) =
        >>=-eq-ok (ok_or (checked_add u64_bound b lots) arithmetic_overflow) _ h in
      let sum = checked_sum b lots total arithmetic_overflow added in
      let bought : total ≡ b' = ap (λ x. x.0) (ok-inj same) in
      let sold : s ≡ s' = ap (λ x. x.1) (ok-inj same) in
      (omega (arith, sum, bought), omega (arith, sold))
  add_lots-sums sell lots b s b' s' h =
      let (total, added, same) =
        >>=-eq-ok (ok_or (checked_add u64_bound s lots) arithmetic_overflow) _ h in
      let sum = checked_sum s lots total arithmetic_overflow added in
      let bought : b ≡ b' = ap (λ x. x.0) (ok-inj same) in
      let sold : total ≡ s' = ap (λ x. x.1) (ok-inj same) in
      (omega (arith, bought), omega (arith, sum, sold))

  -- What the loop over the participants leaves, from the lots that it starts with.
  record HasRestored (participants : ById (BatchParticipant D)) (b s : ℕ)
      (restored : List (ParticipantAllocation D)) (b' s' : ℕ) : Type 0 where
    each : All IsRestored restored
    whose : map (λ a. a.participant) restored ≡ map (λ (_, p). p) participants
    bought : b' ≡ b + executed_lots (λ _. true) buy restored
    sold : s' ≡ s + executed_lots (λ _. true) sell restored

  restore-HasRestored :
      (participants : ById (BatchParticipant D)) (entries unused : ById Allocation) (b s b' s' : ℕ)
      (restored : List (ParticipantAllocation D))
      → restore config participants entries (b, s) ≡ ok (restored, (unused, (b', s')))
      → HasRestored participants b s restored b' s'
  unfolding restore
  restore-HasRestored [] entries unused b s b' s' restored h =
      let e = ok-inj h in
      subst (λ x. HasRestored [] b s x.0 x.1.1.0 x.1.1.1) e
        (record { each = tt; whose = refl; bought = omega arith; sold = omega arith })
  restore-HasRestored ((id, p) ∷ participants) entries unused b s b' s' restored h =
      let (a, found, h1) = >>=-eq-ok (ok_or (find_by_id id entries) (missing_allocation id)) _ h in
      let (_, atomic, h2) = >>=-eq-ok (check_atomic config p a.executed_quantity) _ h1 in
      let ((b1, s1), added, h3) = >>=-eq-ok (add_lots p.side a.executed_quantity (b, s)) _ h2 in
      let (executed, exact, h4) = >>=-eq-ok (lots_to_quantity a.executed_quantity config) _ h3 in
      let ((others, (unused', (b2, s2))), ran, h5) =
        >>=-eq-ok (restore config participants (remove_by_id id entries) (b1, s1)) _ h4 in
      let k =
        restore-HasRestored participants (remove_by_id id entries) unused' b1 s1 b2 s2 others ran in
      let (bought, sold) = add_lots-sums p.side a.executed_quantity b s b1 s1 added in
      subst (λ x. HasRestored ((id, p) ∷ participants) b s x.0 x.1.1.0 x.1.1.1) (ok-inj h5)
        (record {
          each = (
            record { exact = exact; atomic = check_atomic-executed p a.executed_quantity atomic },
            k.each,
          );
          whose = ap (λ ps. p ∷ ps) k.whose;
          bought = omega (arith, bought, k.bought);
          sold = omega (arith, sold, k.sold);
        })

  -- Fills at the clearing price, where something was matched.
  pub record HasFills (outcome : PrivateBatchOutcome D) : Type 0 where
    pub ticks : ℕ
    pub price : D
    pub at_ticks : outcome.clearing_price_ticks ≡ some ticks
    pub at_price : outcome.clearing_price ≡ some price
    pub exact_price : ticks_to_price ticks config ≡ ok price
    pub settled :
        IsSettled config outcome.allocations ticks price outcome.matched_lots outcome.fills

  -- A batch that is settled: the participants, each with one allocation, by ascending ids; both sides
  -- with the matched lots; and fills that carry them out.
  pub record IsSettledBatch (participants : List (BatchParticipant D))
      (outcome : PrivateBatchOutcome D) : Type 0 where
    pub each : All IsRestored outcome.allocations
    pub whose : Perm (map (λ a. a.participant) outcome.allocations) participants
    pub ascending : Ascending (ids_of (map (λ a. a.participant) outcome.allocations))
    pub bought : executed_lots (λ _. true) buy outcome.allocations ≡ outcome.matched_lots
    pub sold : executed_lots (λ _. true) sell outcome.allocations ≡ outcome.matched_lots
    pub exact : lots_to_quantity outcome.matched_lots config ≡ ok outcome.matched_quantity
    pub fills : 0 < outcome.matched_lots → HasFills outcome
    pub idle : outcome.matched_lots ≡ 0 → outcome.fills ≡ []

  converted :
      (ticks : ℕ) (price : Option D) (value : D) (found : Option ℕ)
      → to_clearing_price config found ≡ ok price
      → found ≡ some ticks
      → price ≡ some value
      → ticks_to_price ticks config ≡ ok value
  unfolding to_clearing_price
  converted ticks price value none h e e' = absurd cc
  converted ticks price value (some n) h e e' =
      let (v, exact, same) = >>=-eq-ok (ticks_to_price n config) _ h in
      let at_n : n ≡ ticks = some-inj e in
      let is_value : v ≡ value = some-inj (ok-inj same ∙ e') in
      subst (λ k. ticks_to_price k config ≡ ok value) at_n (exact ∙ ap ok is_value)

  no_fills :
      (allocations : List (ParticipantAllocation D)) (ticks : Option ℕ) (price : Option D)
      (fills : List (BatchFill D))
      → pair_fills config allocations ticks price 0 ≡ ok fills
      → fills ≡ []
  unfolding pair_fills
  no_fills allocations none none fills h = sym (ok-inj h)
  no_fills allocations none (some _) fills h = absurd cc
  no_fills allocations (some _) price fills h = absurd cc

  conserved : (b s n : ℕ) → (not (b == s) || not (b == n)) ≡ false → (b ≡ n) × (s ≡ n)
  conserved b s n h =
      let (first, second) = or-false _ _ h in
      let same : b ≡ s = (==_iff _ _).0 (not-eq-false _ first) in
      let matched : b ≡ n = (==_iff _ _).0 (not-eq-false _ second) in (matched, sym same ∙ matched)

  settle_batch-IsSettledBatch :
      (participants : List (BatchParticipant D)) (commitment : Bytes) (auction : AuctionOutcome)
      (outcome : PrivateBatchOutcome D)
      → settle_batch config participants commitment auction ≡ ok outcome
      → IsSettledBatch participants outcome
  unfolding settle_batch
  settle_batch-IsSettledBatch participants commitment auction outcome h =
      let by_id = participants_by_id participants [] in
      let (_, distinct, h1) = >>=-eq-ok (check_distinct participants by_id) _ h in
      let (entries, _, h2) = >>=-eq-ok (index_allocations by_id auction.allocations []) _ h1 in
      let ((restored, (unused, (b, s))), ran, h3) =
        >>=-eq-ok (restore config by_id entries (0, 0)) _ h2 in
      let (_, _, h4) = >>=-eq-ok (check_used unused) _ h3 in
      let (_, balanced, h5) =
        >>=-eq-ok
          (fail_if (not (b == s) || not (b == auction.matched_quantity)) allocation_conservation) _
          h4 in
      let (price, priced, h6) = >>=-eq-ok (to_clearing_price config auction.clearing_price) _ h5 in
      let (fills, paired, h7) =
        >>=-eq-ok (pair_fills config restored auction.clearing_price price auction.matched_quantity)
          _ h6 in
      let (matched, exact, h8) =
        >>=-eq-ok (lots_to_quantity auction.matched_quantity config) _ h7 in
      let (listed, ascending) = participants_by_id-Ordered participants distinct in
      let k = restore-HasRestored by_id entries unused 0 0 b s restored ran in
      let (bought, sold) = conserved b s auction.matched_quantity (fail_if-eq-ok _ _ balanced) in
      subst (IsSettledBatch participants) (ok-inj h8) (record {
        each = k.each;
        whose = subst (λ l. Perm l participants) (sym k.whose) listed;
        ascending = subst (λ l. Ascending (ids_of l)) (sym k.whose) ascending;
        bought = omega (arith, bought, k.bought);
        sold = omega (arith, sold, k.sold);
        exact = exact;
        fills = λ positive.
            let (ticks, value, at_ticks, at_price, settled) =
              pair_fills-IsSettled config restored auction.clearing_price price
                auction.matched_quantity fills positive paired in
            record {
              ticks = ticks;
              price = value;
              at_ticks = at_ticks;
              at_price = at_price;
              exact_price =
                  converted ticks price value auction.clearing_price priced at_ticks at_price;
              settled = settled;
            };
        idle = λ none_. no_fills restored auction.clearing_price price fills (
            subst (λ n. pair_fills config restored auction.clearing_price price n ≡ ok fills) none_
              paired);
      })

  -- Whenever a private batch clears, it is settled: the participants of the allocations are those of
  -- the batch, each once, and their ids ascend; each allocation has the quantity that its lots convert
  -- to, and that of a fill-or-kill order is all of the order or nothing. Buys and sells both execute the
  -- matched lots. Where these are not zero, the fills carry out each allocation, in positive lots at the
  -- price that the clearing price in ticks converts to; otherwise there are no fills.
  pub clear_private_batch-IsSettledBatch :
      (sha256 : Bytes → Bytes) (context : BatchContext D) (participants : List (BatchParticipant D))
      (outcome : PrivateBatchOutcome D)
      → clear_private_batch config sha256 context participants ≡ ok outcome
      → IsSettledBatch participants outcome
  unfolding clear_private_batch
  clear_private_batch-IsSettledBatch sha256 context participants outcome h =
      let (_, _, h1) = >>=-eq-ok (validate_market_steps config) _ h in
      let (reference_price, _, h2) =
        >>=-eq-ok (price_to_ticks context.reference_price config) _ h1 in
      let (orders, _, h3) =
        >>=-eq-ok (collect_orders config reference_price participants []) _ h2 in
      let (commitment, _, h4) =
        >>=-eq-ok
          (allocation_commitment sha256 context.chain_id context.height config.symbol
            context.threshold_beacon)
          _ h3 in
      let (auction, _, h5) =
        >>=-eq-ok
          (map_err PrivateMarketError.auction (
            clear_batch sha256
              (record { reference_price = reference_price; allocation_commitment = commitment })
              orders))
          _ h4 in
      settle_batch-IsSettledBatch participants commitment auction outcome h5
