-- ===== src/OrderBook/Release.antt =====
-- src/orderbook.rs: the share of a reservation that a fill releases.
use asteria.Base.{Option, none, some, ◌&&◌, ◌||◌, if◌then◌else◌}
use asteria.Decimal.{Decimal, leb_dec, ltb_dec}

infixl 5 ◌>>=?◌
abbrev pub ◌>>=?◌ : {A B : Type 0} → Option A → (A → Option B) → Option B
none >>=? f = none
some a >>=? f = f a

abbrev pub or_else : {A : Type 0} → Option A → Option A → Option A
or_else (some a) b = some a
or_else none b = b

module _ {D : Type 0} ⦃decimal : Decimal D⦄ where
  -- A value strictly between zero and the total, or nothing.
  abbrev pub inside : D → Option D → Option D
  inside total none = none
  inside total (some value) =
      if ltb_dec decimal.zero value && ltb_dec value total then some value else none

  abbrev pub unwrap_or_zero : Option D → D
  unwrap_or_zero (some d) = d
  unwrap_or_zero none = decimal.zero

  unfoldable pub bounded_proportion : D → D → D → Option D
  bounded_proportion total numerator denominator =
      or_else
        (inside total (
          decimal.checked_mul total numerator >>=? λ product.
          decimal.checked_div product denominator))
        (decimal.checked_div numerator denominator >>=? λ ratio.
          inside total (decimal.checked_mul total ratio))

  -- The release while a part of the order remains.
  unfoldable pub partial_release : D → D → D → D → D
  partial_release reserved quantity_before filled remaining =
      if leb_dec filled remaining
      then unwrap_or_zero (bounded_proportion reserved filled quantity_before)
      else elim (bounded_proportion reserved remaining quantity_before) [
        | some retained ↦ unwrap_or_zero (decimal.checked_sub reserved retained)
        | none ↦ unwrap_or_zero (bounded_proportion reserved filled quantity_before)
      ]

  unfoldable pub proportional_release : D → D → D → D
  proportional_release reserved quantity_before filled =
      if leb_dec reserved decimal.zero
        || leb_dec quantity_before decimal.zero
        || leb_dec filled decimal.zero
      then decimal.zero
      else if leb_dec quantity_before filled
      then reserved
      else elim (decimal.checked_sub quantity_before filled) [
        | none ↦ decimal.zero
        | some remaining ↦ partial_release reserved quantity_before filled remaining
      ]
