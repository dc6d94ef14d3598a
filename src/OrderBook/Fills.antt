-- ===== src/OrderBook/Fills.antt =====
-- src/orderbook.rs: what one fill of the matching loop does to the two orders and to the book.
use asteria.Base.{◌≡◌, ◌⊎◌, subst, ◌∷◌, [], ◌++◌, some, inl, inr, true}
use asteria.Domain.{Uuid, Order}
use asteria.Decimal.{Decimal, DecimalLaws, leb_dec, ltb_dec, min_dec}
use asteria.Decimal.Order.{ltb→leb, min_cases, min-le_left, min-le_right, min_positive}
use asteria.OrderBook.Types.{ok, RawFill}
use asteria.OrderBook.ReleaseBounds.{proportional_release-Within}
use asteria.OrderBook.Match.{Matching, settle_maker, fill_maker}
use asteria.OrderBook.WellFormed.{Resting}

module _ {D : Type 0} ⦃decimal : Decimal D⦄ where
  -- A part that was taken from a number: neither below zero nor above it, and what is left.
  pub record Taken (total part left : D) : Type 0 where
    pub subtracts : decimal.checked_sub total part ≡ some left
    pub part_low : leb_dec decimal.zero part ≡ true
    pub part_high : leb_dec part total ≡ true
    pub left_low : leb_dec decimal.zero left ≡ true
    pub left_high : leb_dec left total ≡ true

  module _ (laws : DecimalLaws decimal) where
    pub taken :
        (total part : D)
        → leb_dec decimal.zero part ≡ true
        → leb_dec part total ≡ true
        → (left : D) × Taken total part left
    taken total part low high =
        let (left, e, l, h) = laws.sub_bounds total part low high in
        (
          left,
          record { subtracts = e; part_low = low; part_high = high; left_low = l; left_high = h },
        )

    Taken-all : {total left : D} → Taken total total left → left ≡ decimal.zero
    Taken-all {total} t = let e = laws.sub_self total in let f = t.subtracts in cc

    exhausted :
        (a b : D) {a_left b_left : D}
        → Taken a (min_dec a b) a_left
        → Taken b (min_dec a b) b_left
        → (a_left ≡ decimal.zero) ⊎ (b_left ≡ decimal.zero)
    exhausted a b {a_left} {b_left} t u = elim (min_cases laws a b) [
      | inl (e, h) ↦ inl (Taken-all (subst (λ q. Taken a q a_left) e t))
      | inr (e, h) ↦ inr (Taken-all (subst (λ q. Taken b q b_left) e u))
    ]

  -- The fill between the incoming order and the maker, and both orders after it.
  pub record FillOf (m : Matching D) (price : D) (id : Uuid) (maker : Order D) : Type 0 where
    pub quantity : D
    pub taker_release : D
    pub maker_release : D
    pub taker_left : D
    pub taker_margin : D
    pub maker_left : D
    pub maker_margin : D
    pub takes : Taken m.incoming.remaining quantity taker_left
    pub takes_margin : Taken m.incoming.reserved_margin taker_release taker_margin
    pub makes : Taken maker.remaining quantity maker_left
    pub makes_margin : Taken maker.reserved_margin maker_release maker_margin
    -- One of the two orders is used up.
    pub exhausts : (taker_left ≡ decimal.zero) ⊎ (maker_left ≡ decimal.zero)
    pub positive : ltb_dec decimal.zero quantity ≡ true

  abbrev pub fill_of :
      {m : Matching D} {price : D} {id : Uuid} {maker : Order D}
      → FillOf m price id maker
      → RawFill D
  fill_of {m} {price} {id} {maker} f = record {
    maker_order_id = id;
    taker_order_id = m.incoming.id;
    maker_account_id = maker.account_id;
    taker_account_id = m.incoming.account_id;
    maker_side = maker.side;
    taker_side = m.incoming.side;
    maker_leverage = maker.leverage;
    taker_leverage = m.incoming.leverage;
    price = price;
    quantity = f.quantity;
    maker_margin_release = f.maker_release;
    taker_margin_release = f.taker_release;
  }

  abbrev pub maker_after :
      {m : Matching D} {price : D} {id : Uuid} {maker : Order D} → FillOf m price id maker → Order D
  maker_after {maker} f = record maker {
    remaining = f.maker_left;
    reserved_margin = f.maker_margin;
  }

  abbrev pub after_fill :
      {m : Matching D} {price : D} {id : Uuid} {maker : Order D}
      → FillOf m price id maker
      → Matching D
  after_fill {m} {price} {id} {maker} f = record (settle_maker m price id (maker_after f)) {
    incoming = record (m.incoming) { remaining = f.taker_left; reserved_margin = f.taker_margin };
    fills = m.fills ++ fill_of f ∷ [];
  }

  module _ (laws : DecimalLaws decimal) where
    -- The quantities that `fill_maker` computes, and its result: it neither panics nor fails.
    pub fill_maker_lem :
        (m : Matching D) (price : D) (id : Uuid) (maker : Order D)
        → ltb_dec decimal.zero m.incoming.remaining ≡ true
        → leb_dec decimal.zero m.incoming.reserved_margin ≡ true
        → Resting maker
        → (f : FillOf m price id maker) × (fill_maker m price id maker ≡ ok (after_fill f))
    unfolding fill_maker
    fill_maker_lem m price id maker left_pos margin_pos rests =
        let left = m.incoming.remaining in
        let q = min_dec left maker.remaining in
        let q_pos = min_positive laws left maker.remaining left_pos rests.positive in
        let q_low = ltb→leb laws decimal.zero q q_pos in
        let taker_within =
          proportional_release-Within laws m.incoming.reserved_margin left q margin_pos in
        let maker_within =
          proportional_release-Within laws maker.reserved_margin maker.remaining q rests.margin in
        let (taker_left, takes) = taken laws left q q_low (min-le_left laws left maker.remaining) in
        let (taker_margin, takes_margin) = taken laws _ _ taker_within.0 taker_within.1 in
        let (maker_left, makes) =
          taken laws maker.remaining q q_low (min-le_right laws left maker.remaining) in
        let (maker_margin, makes_margin) = taken laws _ _ maker_within.0 maker_within.1 in
        (
          record {
            quantity = q;
            taker_release = _;
            maker_release = _;
            taker_left = taker_left;
            taker_margin = taker_margin;
            maker_left = maker_left;
            maker_margin = maker_margin;
            takes = takes;
            takes_margin = takes_margin;
            makes = makes;
            makes_margin = makes_margin;
            exhausts = exhausted laws left maker.remaining takes makes;
            positive = q_pos;
          },
          rw (takes.subtracts, takes_margin.subtracts, makes.subtracts, makes_margin.subtracts),
        )
