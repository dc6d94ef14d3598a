-- ===== src/Decimal.antt =====
-- `rust_decimal::Decimal`, as the program uses it: an ordered type with checked arithmetic. A value is
-- the number that it stands for, so `1.0` and `1.00` are one value, as they are for `==`.
pub mod Order
use asteria.Base.{◌≡◌, Bool, true, false, not, Option, some, Ordering, is_gt, if◌then◌else◌}

pub record Decimal (D : Type 0) : Type 0 where
  pub zero : D
  pub compare : D → D → Ordering
  pub checked_add : D → D → Option D
  pub checked_sub : D → D → Option D
  pub checked_mul : D → D → Option D
  pub checked_div : D → D → Option D

module _ {D : Type 0} ⦃decimal : Decimal D⦄ where
  -- `a <= b`, `a < b`, `a == b`
  abbrev pub leb_dec : D → D → Bool
  leb_dec a b = not (is_gt (decimal.compare a b))

  abbrev pub ltb_dec : D → D → Bool
  ltb_dec a b = not (leb_dec b a)

  abbrev pub eq_dec : D → D → Bool
  eq_dec a b = elim (decimal.compare a b) [ Ordering.eq ↦ true | _ ↦ false ]

  abbrev pub is_zero : D → Bool
  is_zero a = eq_dec a decimal.zero

  abbrev pub min_dec : D → D → D
  min_dec a b = if leb_dec a b then a else b

-- `Ordering::reverse`
abbrev pub reversed : Ordering → Ordering
reversed Ordering.lt = Ordering.gt
reversed Ordering.eq = Ordering.eq
reversed Ordering.gt = Ordering.lt

-- The documented behaviour that the proofs rest on: the order is total, `==` is equality of numbers,
-- a number minus itself is zero, and taking from a number what lies between zero and it neither
-- overflows nor leaves that range.
pub record DecimalLaws {D : Type 0} (decimal : Decimal D) : Type 0 where
  pub compare_refl : (a : D) → decimal.compare a a ≡ Ordering.eq
  pub compare_eq : (a b : D) → decimal.compare a b ≡ Ordering.eq → a ≡ b
  pub compare_swap : (a b : D) → decimal.compare b a ≡ reversed (decimal.compare a b)
  pub compare_trans :
      (a b c : D)
      → leb_dec ⦃decimal = decimal⦄ a b ≡ true
      → leb_dec ⦃decimal = decimal⦄ b c ≡ true
      → leb_dec ⦃decimal = decimal⦄ a c ≡ true
  pub sub_self : (a : D) → decimal.checked_sub a a ≡ some decimal.zero
  pub sub_bounds :
      (a b : D)
      → leb_dec ⦃decimal = decimal⦄ decimal.zero b ≡ true
      → leb_dec ⦃decimal = decimal⦄ b a ≡ true
      → (c : D) × (decimal.checked_sub a b ≡ some c)
        × (leb_dec ⦃decimal = decimal⦄ decimal.zero c ≡ true)
        × (leb_dec ⦃decimal = decimal⦄ c a ≡ true)
