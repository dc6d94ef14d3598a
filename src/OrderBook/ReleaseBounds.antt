-- ===== src/OrderBook/ReleaseBounds.antt =====
-- src/orderbook.rs: a release lies between nothing and the whole reservation.
use asteria.Base.{◌≡◌, refl, Option, none, some, true, arith, Bool-cases, inl, inr, Option-cases}
use asteria.Decimal.{Decimal, DecimalLaws, leb_dec, ltb_dec}
use asteria.Decimal.Order.{leb_refl, ltb→leb, leb_antisym}
use asteria.OrderBook.Release.{
  unwrap_or_zero, bounded_proportion, partial_release, proportional_release,
}

module _ {D : Type 0} ⦃decimal : Decimal D⦄ where
  -- Strictly between zero and the total.
  abbrev pub Inside : D → D → Type 0
  Inside total value = (ltb_dec decimal.zero value ≡ true) × (ltb_dec value total ≡ true)

  -- Between zero and the total, which both count.
  abbrev pub Within : D → D → Type 0
  Within total value = (leb_dec decimal.zero value ≡ true) × (leb_dec value total ≡ true)

  pub bounded_proportion-Inside :
      (total numerator denominator : D) {value : D}
      → bounded_proportion total numerator denominator ≡ some value
      → Inside total value
  unfolding bounded_proportion
  bounded_proportion-Inside total numerator denominator h = ground arith

  module _ (laws : DecimalLaws decimal) where
    open laws use {sub_bounds}

    -- What is left over when a part is kept, or nothing.
    unwrap_sub-Within :
        (reserved retained : D)
        → Inside reserved retained
        → Within reserved (unwrap_or_zero (decimal.checked_sub reserved retained))
    unwrap_sub-Within reserved retained h =
        let (c, e, low, high) =
          sub_bounds reserved retained (ltb→leb laws _ _ h.0) (ltb→leb laws _ _ h.1) in
        rw e (low, high)

    unwrap-Within :
        (reserved : D) (found : Option D)
        → leb_dec decimal.zero reserved ≡ true
        → ((v : D) → found ≡ some v → Inside reserved v)
        → Within reserved (unwrap_or_zero found)
    unwrap-Within reserved none pos h = (leb_refl laws _, pos)
    unwrap-Within reserved (some v) pos h =
        (ltb→leb laws _ _ (h v refl).0, ltb→leb laws _ _ (h v refl).1)

    partial_release-Within :
        (reserved before filled remaining : D)
        → leb_dec decimal.zero reserved ≡ true
        → Within reserved (partial_release reserved before filled remaining)
    unfolding partial_release
    partial_release-Within reserved before filled remaining pos =
        let direct : Within reserved (unwrap_or_zero (bounded_proportion reserved filled before)) =
          unwrap-Within reserved _ pos
            (λ v e. bounded_proportion-Inside reserved filled before e) in
        elim (Bool-cases (leb_dec filled remaining)) [
          | inl e ↦ rw e direct
          | inr e ↦ elim (Option-cases (bounded_proportion reserved remaining before)) [
            | inl n ↦ rw (e, n) direct
            | inr (v, f) ↦
                rw (e, f)
                  (unwrap_sub-Within reserved v
                    (bounded_proportion-Inside reserved remaining before f))
          ]
        ]

    pub proportional_release-Within :
        (reserved before filled : D)
        → leb_dec decimal.zero reserved ≡ true
        → Within reserved (proportional_release reserved before filled)
    unfolding proportional_release
    proportional_release-Within reserved before filled pos =
        let nothing : Within reserved decimal.zero = (leb_refl laws _, pos) in
        let all : Within reserved reserved = (pos, leb_refl laws _) in
        elim (Option-cases (decimal.checked_sub before filled)) [
          | inl e ↦ ground (arith, nothing, all)
          | inr (r, e) ↦
              ground (arith, nothing, all, partial_release-Within reserved before filled r pos)
        ]

    -- The whole reservation goes with the last part of the order.
    pub proportional_release-all :
        (reserved before : D)
        → leb_dec decimal.zero reserved ≡ true
        → ltb_dec decimal.zero before ≡ true
        → proportional_release reserved before before ≡ reserved
    unfolding proportional_release
    proportional_release-all reserved before pos some_left =
        elim (Bool-cases (leb_dec reserved decimal.zero)) [
          | inl e ↦ rw e (leb_antisym laws _ _ pos e)
          | inr e ↦ ground (arith, leb_refl laws before)
        ]
