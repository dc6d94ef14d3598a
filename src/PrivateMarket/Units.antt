-- ===== src/PrivateMarket/Units.antt =====
-- src/private_market.rs: exact conversions between decimals and integer ticks and lots.
use asteria.Base.{
  ℕ, zero, suc, ◌-◌, ◌^◌, ◌/◌, ◌%◌, Bool, true, false, some, none, Option, Ordering, compare, ◌==◌,
  not, if◌then◌else◌, checked_mul, u64_bound, u128_bound, ltb,
}
use asteria.Base.Result.{Result, ok, err, ◌>>=◌, ◌>>◌, ok_or, fail_if}
use asteria.Domain.{MarketConfig}
use asteria.PrivateMarket.Types.{
  ℤ, pos, negsuc, FixedDecimal, Field, price, quantity, PrivateMarketError, non_positive_step,
  negative_value, not_step_aligned, unit_overflow, decimal_overflow, arithmetic_overflow,
}

-- The `while` loop of `gcd`. Each pass lowers the right number, so the number itself is enough fuel.
unfoldable pub gcd_loop : ℕ → ℕ → ℕ → ℕ
gcd_loop zero left right = left
gcd_loop (suc fuel) left zero = left
gcd_loop (suc fuel) left (suc r) = gcd_loop fuel (suc r) (left % suc r)

unfoldable pub gcd : ℕ → ℕ → ℕ
gcd left right = gcd_loop right left right

-- `checked_pow` at the width of a `u128`
unfoldable pub power_of_ten : {D : Type 0} → ℕ → Result (PrivateMarketError D) ℕ
power_of_ten exponent =
    ok_or (if ltb (10 ^ exponent) u128_bound then some (10 ^ exponent) else none)
      arithmetic_overflow

-- `u64::try_from`
abbrev pub to_u64 : ℕ → Option ℕ
to_u64 n = if ltb n u64_bound then some n else none

-- `mantissa() <= 0`
abbrev pub is_positive : ℤ → Bool
is_positive (pos zero) = false
is_positive (pos (suc n)) = true
is_positive (negsuc n) = false

-- `u128::try_from`
abbrev pub to_u128 : ℤ → Option ℕ
to_u128 (pos n) = some n
to_u128 (negsuc n) = none

module _ {D : Type 0} ⦃fixed : FixedDecimal D⦄ where
  unfoldable pub validate_step : D → Field → Result (PrivateMarketError D) (Unit {0})
  validate_step step field =
      fail_if (not (is_positive (fixed.mantissa step))) (non_positive_step field)

  -- The arms of the `match` on the two scales, for a numerator and a denominator that are reduced:
  -- the step has more decimal places, or fewer, or as many.
  unfoldable pub align_up : ℕ → ℕ → D → D → Field → Result (PrivateMarketError D) ℕ
  unfolding gcd power_of_ten
  align_up numerator denominator value step field = do
    scale_factor ← power_of_ten (fixed.scale step - fixed.scale value)
    fail_if (not (denominator / gcd denominator scale_factor == 1))
        (not_step_aligned field value step)
    ok_or (checked_mul u128_bound numerator (scale_factor / gcd denominator scale_factor))
        (unit_overflow field)

  unfoldable pub align_down : ℕ → ℕ → D → D → Field → Result (PrivateMarketError D) ℕ
  unfolding gcd power_of_ten
  align_down numerator denominator value step field = do
    scale_factor ← power_of_ten (fixed.scale value - fixed.scale step)
    fail_if
        (if denominator == 1 then not (scale_factor / gcd numerator scale_factor == 1) else true)
        (not_step_aligned field value step)
    ok (numerator / gcd numerator scale_factor)

  unfoldable pub align_same : ℕ → ℕ → D → D → Field → Result (PrivateMarketError D) ℕ
  align_same numerator denominator value step field = do
    fail_if (not (denominator == 1)) (not_step_aligned field value step)
    ok numerator

  unfoldable pub align_scales : ℕ → ℕ → D → D → Field → Result (PrivateMarketError D) ℕ
  unfolding align_up align_down align_same
  align_scales numerator denominator value step field =
      elim (compare (fixed.scale step) (fixed.scale value)) [
        | Ordering.gt ↦ align_up numerator denominator value step field
        | Ordering.lt ↦ align_down numerator denominator value step field
        | Ordering.eq ↦ align_same numerator denominator value step field
      ]

  unfoldable pub convert_units : ℕ → D → D → Field → Result (PrivateMarketError D) ℕ
  unfolding gcd align_scales
  convert_units value_mantissa value step field = do
    denominator ← ok_or (to_u128 (fixed.mantissa step)) (non_positive_step field)
    let common = gcd value_mantissa denominator
    units ← align_scales (value_mantissa / common) (denominator / common) value step field
    ok_or (to_u64 units) (unit_overflow field)

  unfoldable pub decimal_to_units : D → D → Field → Result (PrivateMarketError D) ℕ
  unfolding validate_step convert_units
  decimal_to_units value step field = do
    validate_step step field
    elim (fixed.mantissa value) [
      | negsuc _ ↦ err (negative_value field)
      | pos n ↦ if n == 0 then ok 0 else convert_units n value step field
    ]

  unfoldable pub units_to_decimal : ℕ → D → Field → Result (PrivateMarketError D) D
  unfolding validate_step
  units_to_decimal units step field = do
    validate_step step field
    ok_or (fixed.decimal.checked_mul (fixed.from units) step) (decimal_overflow field)

  unfoldable pub price_to_ticks : D → MarketConfig D → Result (PrivateMarketError D) ℕ
  unfolding decimal_to_units
  price_to_ticks value market = decimal_to_units value market.tick_size price

  unfoldable pub ticks_to_price : ℕ → MarketConfig D → Result (PrivateMarketError D) D
  unfolding units_to_decimal
  ticks_to_price ticks market = units_to_decimal ticks market.tick_size price

  unfoldable pub quantity_to_lots : D → MarketConfig D → Result (PrivateMarketError D) ℕ
  unfolding decimal_to_units
  quantity_to_lots value market = decimal_to_units value market.quantity_step quantity

  unfoldable pub lots_to_quantity : ℕ → MarketConfig D → Result (PrivateMarketError D) D
  unfolding units_to_decimal
  lots_to_quantity lots market = units_to_decimal lots market.quantity_step quantity
