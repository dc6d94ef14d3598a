-- ===== src/OrderBook/Step.antt =====
-- src/orderbook.rs: what the matching loop keeps true in each pass.
use asteria.Base.{
  ◌≡◌, ◌⊎◌, ◌<◌, sym, ◌∙◌, ap, subst, ◌∷◌, [], some, none, All, All-map, All-append, inl, inr, true,
  false, Bool-cases, length, lookup, bytes_eq,
}
use mathlib.Core.List.{map-append}
use asteria.Domain.{Uuid, opposite, Order}
use asteria.Decimal.{Decimal, DecimalLaws, leb_dec, ltb_dec}
use asteria.OrderBook.Types.{Book, ok}
use asteria.OrderBook.Cancel.{crosses, best_opposite}
use asteria.OrderBook.Match.{Matching, match_step, prevent_self_trade, note_cancelled}
use asteria.OrderBook.WellFormed.{Holds, Holds-price, levels_of, WellFormed}
use asteria.OrderBook.Pushed.{NotCrossing}
use asteria.OrderBook.Best.{
  NoWorse, IsBest, best_opposite_cases, NotCrossing-of_best, NotCrossing-of_none,
}
use asteria.OrderBook.Fills.{FillOf, fill_of, after_fill, fill_maker_lem}
use asteria.OrderBook.Report.{
  consume, consume-append, GoodFill, BestFirst, BestFirst-append, quantities, taker_releases,
}
use asteria.OrderBook.Passed.{
  Follows, StoodIn, without-Follows, length-without, cancel_internal_found, settle_maker-Follows,
}

module _ {D : Type 0} ⦃decimal : Decimal D⦄ where
  -- The state of the loop, for the book before and the order that came in.
  pub record LoopInv (before : Book D) (start : Order D) (m : Matching D) : Type 0 where
    pub ok_book : WellFormed m.book
    pub absent : lookup start.id m.book.orders ≡ none
    pub stood : (j : Uuid) (q : Order D) → lookup j m.book.orders ≡ some q → StoodIn before j q
    pub same : m.incoming ≡ record start {
      remaining = m.incoming.remaining;
      reserved_margin = m.incoming.reserved_margin;
    }
    pub left_low : leb_dec decimal.zero m.incoming.remaining ≡ true
    pub left_high : leb_dec m.incoming.remaining start.quantity ≡ true
    pub margin_low : leb_dec decimal.zero m.incoming.reserved_margin ≡ true
    pub good : All (GoodFill before start) m.fills
    pub best_first : BestFirst start.side m.fills
    pub behind :
        All
          (λ f. All (λ e. NoWorse start.side f.price e.0) (levels_of m.book (opposite start.side)))
          m.fills
    pub spent : consume start.remaining (quantities m.fills) ≡ some m.incoming.remaining
    pub spent_margin :
        consume start.reserved_margin (taker_releases m.fills) ≡ some m.incoming.reserved_margin

  -- How a pass ends: the loop breaks where nothing crosses, or goes on in a state that is nearer to
  -- the end.
  pub data StepEnds (before : Book D) (start : Order D) (m : Matching D) : Type 0 where
    breaks :
        match_step m ≡ ok none
        → NotCrossing m.book start.side start.limit_price
        → StepEnds before start m
    goes_on :
        (next : Matching D)
        → match_step m ≡ ok (some next)
        → LoopInv before start next
        → (length next.book.orders < length m.book.orders)
          ⊎ (next.incoming.remaining ≡ decimal.zero)
        → StepEnds before start m

  module _ (laws : DecimalLaws decimal) (before : Book D) (start : Order D) (m : Matching D)
      (inv : LoopInv before start m) where
    side_is : m.incoming.side ≡ start.side
    side_is = ap (λ o. o.side) inv.same

    limit_is : m.incoming.limit_price ≡ start.limit_price
    limit_is = ap (λ o. o.limit_price) inv.same

    stood-Follows :
        (next : Book D)
        → Follows m.book next
        → (j : Uuid) (q : Order D) → lookup j next.orders ≡ some q
        → StoodIn before j q
    stood-Follows next follows j q h =
        let (o, found, (a, s, p, l)) = follows.stood j q h in
        let (first, stands, (a', s', p', l')) = inv.stood j o found in
        (first, stands, (a ∙ a', s ∙ s', p ∙ p', l ∙ l'))

    -- The fills so far stay as they are while the levels only lose prices.
    behind-Follows :
        (next : Book D)
        → Follows m.book next
        → All
            (λ f. All (λ e. NoWorse start.side f.price e.0) (levels_of next (opposite start.side)))
            m.fills
    behind-Follows next follows =
        All-map (λ f h. follows.prices (NoWorse start.side f.price) (opposite start.side) h) m.fills
          inv.behind

    self_trade :
        (id : Uuid) (maker : Order D)
        → lookup id m.book.orders ≡ some maker
        → LoopInv before start (prevent_self_trade m id)
          × (length (prevent_self_trade m id).book.orders < length m.book.orders)
    unfolding prevent_self_trade
    self_trade id maker found =
        let follows = without-Follows laws m.book id maker inv.ok_book found in
        subst
          (λ c.
            LoopInv before start (note_cancelled m c)
            × (length (note_cancelled m c).book.orders < length m.book.orders))
          (sym (cancel_internal_found laws m.book id maker inv.ok_book found))
          (
            record {
              ok_book = follows.ok_book;
              absent = follows.absent start.id inv.absent;
              stood = stood-Follows _ follows;
              same = inv.same;
              left_low = inv.left_low;
              left_high = inv.left_high;
              margin_low = inv.margin_low;
              good = inv.good;
              best_first = inv.best_first;
              behind = behind-Follows _ follows;
              spent = inv.spent;
              spent_margin = inv.spent_margin;
            },
            length-without laws m.book id maker inv.ok_book found,
          )

    -- A fill at the best price keeps the invariant.
    fill_keeps :
        (price : D) (id : Uuid) (maker : Order D)
        → IsBest m.book m.incoming.side price id
        → lookup id m.book.orders ≡ some maker
        → crosses m.incoming.side m.incoming.limit_price price ≡ true
        → bytes_eq maker.account_id m.incoming.account_id ≡ false
        → (f : FillOf m price id maker)
        → LoopInv before start (after_fill f)
          × ((length (after_fill f).book.orders < length m.book.orders)
              ⊎ (f.taker_left ≡ decimal.zero))
    fill_keeps price id maker best found crossing other f =
        let (follows, nearer) =
          settle_maker-Follows laws m id maker inv.ok_book found price maker_price f in
        (
          record {
            ok_book = follows.ok_book;
            absent = follows.absent start.id inv.absent;
            stood = stood-Follows _ follows;
            same =
                ap {B = Order D}
                  (λ o. record o { remaining = f.taker_left; reserved_margin = f.taker_margin })
                  inv.same;
            left_low = f.takes.left_low;
            left_high =
                leb_trans f.taker_left m.incoming.remaining start.quantity f.takes.left_high
                  inv.left_high;
            margin_low = f.takes_margin.left_low;
            good =
                All-append (GoodFill before start) m.fills (fill_of f ∷ []) inv.good
                  (good_fill, tt);
            best_first = BestFirst-append start.side m.fills (fill_of f) inv.best_first no_better;
            behind = All-append _ m.fills (fill_of f ∷ []) (behind-Follows _ follows) (
              follows.prices (NoWorse start.side price) (opposite start.side) first_for_start,
              tt,
            );
            spent = rw (map-append) (
                consume-append start.remaining (quantities m.fills) f.quantity _ f.taker_left
                  inv.spent f.takes.subtracts);
            spent_margin = rw (map-append) (
                consume-append start.reserved_margin (taker_releases m.fills) f.taker_release _
                  f.taker_margin inv.spent_margin f.takes_margin.subtracts);
          },
          nearer,
        )
      where
        open laws use {compare_trans as leb_trans}

        is_maker : (q : Order D) → lookup id m.book.orders ≡ some q → q ≡ maker
        is_maker q e = cc

        maker_price : maker.limit_price ≡ price
        maker_price =
            ap (λ o. o.limit_price) (sym (is_maker best.queued.order best.queued.found))
            ∙ best.queued.at_price

        maker_side : maker.side ≡ opposite start.side
        maker_side =
            ap (λ o. o.side) (sym (is_maker best.queued.order best.queued.found))
            ∙ (best.queued.on_side ∙ ap opposite side_is)

        good_fill : GoodFill before start (fill_of f)
        good_fill = record {
          maker =
              let (o, stands, (a, s, p, l)) = inv.stood id maker found in
              (o, stands, a, s, sym maker_price ∙ p, l);
          other_account = other;
          of_taker = (ap (λ o. o.id) inv.same, ap (λ o. o.account_id) inv.same);
          sides = (side_is, maker_side);
          admitted = cc (side_is, limit_is);
          positive = f.positive;
          releases = (f.makes_margin.part_low, f.takes_margin.part_low);
        }

        first_for_start :
            All (λ e. NoWorse start.side price e.0) (levels_of m.book (opposite start.side))
        first_for_start =
            subst (λ s. All (λ e. NoWorse s price e.0) (levels_of m.book (opposite s))) side_is
              best.first

        held : Holds price id (levels_of m.book (opposite start.side))
        held =
            subst (λ s. Holds price id (levels_of m.book s)) maker_side
              (subst (λ p. Holds p id (levels_of m.book maker.side)) maker_price
                (inv.ok_book.placed id maker found).held)

        no_better : All (λ g. NoWorse start.side g.price price) m.fills
        no_better =
            All-map
              (λ g h.
                Holds-price (λ p. NoWorse start.side g.price p) price id
                  (levels_of m.book (opposite start.side)) held h)
              m.fills inv.behind

    taken_step :
        (price : D) (id : Uuid)
        → best_opposite m.book m.incoming.side ≡ ok (some (price, id))
        → IsBest m.book m.incoming.side price id
        → crosses m.incoming.side m.incoming.limit_price price ≡ true
        → ltb_dec decimal.zero m.incoming.remaining ≡ true
        → StepEnds before start m
    unfolding match_step
    taken_step price id is best crossing left =
        let maker = best.queued.order in
        let found = best.queued.found in
        elim (Bool-cases (bytes_eq maker.account_id m.incoming.account_id)) [
          | inl e ↦
              let (kept, smaller) = self_trade id maker found in
              goes_on (prevent_self_trade m id) (rw (is, match_step, crossing, found, e)) kept
                (inl smaller)
          | inr e ↦
              let (f, fills) =
                fill_maker_lem laws m price id maker left inv.margin_low
                  (inv.ok_book.placed id maker found).resting in
              let (kept, nearer) = fill_keeps price id maker best found crossing e f in
              goes_on (after_fill f) (rw (is, match_step, crossing, found, e, fills)) kept nearer
        ]

    -- A pass never panics.
    pub match_step_lem : ltb_dec decimal.zero m.incoming.remaining ≡ true → StepEnds before start m
    unfolding match_step
    match_step_lem left = elim (best_opposite_cases laws m.book m.incoming.side inv.ok_book) [
      | inl (is, empty) ↦
          breaks (rw (is, match_step)) (
            at_start (NotCrossing-of_none laws m.book m.incoming.side m.incoming.limit_price empty))
      | inr (price, id, is, best) ↦
          elim (Bool-cases (crosses m.incoming.side m.incoming.limit_price price)) [
            | inl crossing ↦ taken_step price id is best crossing left
            | inr away ↦ breaks (rw (is, match_step, away)) (
                at_start (
                  NotCrossing-of_best laws m.book m.incoming.side m.incoming.limit_price price away
                    best.first))
          ]
    ]
      where
        at_start :
            NotCrossing m.book m.incoming.side m.incoming.limit_price
            → NotCrossing m.book start.side start.limit_price
        at_start h = subst (λ o. NotCrossing m.book o.side o.limit_price) inv.same h
