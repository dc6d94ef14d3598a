-- ===== src/PrivateMarket/Rounding.antt =====
-- src/private_market.rs: the protection price of a market order keeps within the slippage limit.
use native.Mathlib.Nat.{
  mul_assoc, mul_left_comm, mul-add, add-mul, one-mul, mul-le-mul_left, mul-pos,
  mul-lt-mul_of_pos_left, div-add-mod', mod-lt, pos_of_dvd_of_pos, dvd-mul_right, dvd-mul_left,
}
use asteria.Base.{
  ℕ, ◌+◌, ◌*◌, ◌/◌, ◌%◌, ◌^◌, ◌≤◌, ◌<◌, ◌≡◌, inl, inr, refl, sym, ap, ◌∙◌, arith, Bool, true, false,
  ◌==◌, some, u128_bound, checked_add, checked_mul, Bool-cases,
}
use asteria.Base.Result.{ok_or-some, ok, >>=-eq-ok, ok_or, ok-inj}
use asteria.Domain.{Side, buy, sell}
use asteria.PrivateMarket.Types.{ℤ, pos, negsuc, FixedDecimal}
use asteria.PrivateMarket.Units.{gcd, power_of_ten, to_u128}
use asteria.PrivateMarket.Orders.{
  divide, scale_fraction, scale_price_ticks, slippage_factor, market_protection_price, is_sell,
}
use asteria.PrivateMarket.Fractions.{left_part, right_part}
use asteria.PrivateMarket.Aligned.{ten_pos, ok_or-checked_mul}
use asteria.PrivateMarket.Exact.{ok_or-to_u64}

-- `n` is the quotient of `x` by `y`, rounded upward or downward: it misses by less than one.
abbrev pub Rounded : Bool → ℕ → ℕ → ℕ → Type 0
Rounded true x y n = (x ≤ n * y) × (n * y < x + y)
Rounded false x y n = (n * y ≤ x) × (x < n * y + y)

next_multiple : (q y n : ℕ) → q + 1 ≡ n → n * y ≡ q * y + y
next_multiple q y n e = ap (λ m. m * y) (sym e) ∙ add-mul q 1 y ∙ ap (λ m. q * y + m) (one-mul y)

ok_or-checked_next :
    {E : Type 0} (e : E) (bound a c : ℕ) → ok_or (checked_add bound a 1) e ≡ ok c → a + 1 ≡ c
ok_or-checked_next e bound a c h = ground arith

divide-Rounded :
    {D : Type 0} (round_up : Bool) (x y n : ℕ)
    → 0 < y
    → divide {D = D} round_up x y ≡ ok n
    → Rounded round_up x y n
unfolding divide
divide-Rounded false x y n y>0 h =
    let e = ap (λ m. m * y) (ok-inj h) in
    let split = div-add-mod' x y in
    let small = mod-lt x y>0 in (omega (arith, e, split, small), omega (arith, e, split, small))
divide-Rounded true x y n y>0 h =
    let split = div-add-mod' x y in
    let small = mod-lt x y>0 in
    elim (Bool-cases (x % y == 0)) [
      | inl z ↦
          let h1 = rw z at h in
          let e = ap (λ m. m * y) (ok-inj h1) in
          let none_left : x % y ≡ 0 = ground arith in
          (omega (arith, e, split, none_left), omega (arith, e, split, none_left))
      | inr nz ↦
          let h1 = rw nz at h in
          let e = next_multiple (x / y) y n (ok_or-checked_next _ _ _ _ h1) in
          let some_left : 0 < x % y = ground arith in
          (omega (arith, e, split, small), omega (arith, e, split, some_left))
    ]

-- Cancelled factors do not change the rounding.
Rounded-times :
    (round_up : Bool) (k x y n : ℕ)
    → 0 < k
    → Rounded round_up x y n
    → Rounded round_up (k * x) (k * y) n
Rounded-times true k x y n k>0 (low, high) =
    let e = mul_left_comm n k y in
    let low' = mul-le-mul_left k low in
    let high' = mul-lt-mul_of_pos_left high k>0 in
    let sum = mul-add k x y in (omega (arith, e, low'), omega (arith, e, high', sum))
Rounded-times false k x y n k>0 (low, high) =
    let e = mul_left_comm n k y in
    let low' = mul-le-mul_left k low in
    let high' = mul-lt-mul_of_pos_left high k>0 in
    let sum = mul-add k (n * y) y in (omega (arith, e, low'), omega (arith, e, high', sum))

Rounded-eq :
    (round_up : Bool) {x x' y y' n n' : ℕ}
    → x ≡ x'
    → y ≡ y'
    → n ≡ n'
    → Rounded round_up x y n
    → Rounded round_up x' y' n'
Rounded-eq round_up ex ey en h = rw (← ex, ← ey, ← en) h

pos-factor : (a b c : ℕ) → a * b ≡ c → 0 < c → (0 < a) × (0 < b)
pos-factor a b c e c>0 =
    let product : 0 < a * b = omega (arith, e) in
    (pos_of_dvd_of_pos (dvd-mul_right a b) product, pos_of_dvd_of_pos (dvd-mul_left b a) product)

scale_fraction-Rounded :
    {D : Type 0} (r a b : ℕ) (round_up : Bool) (n : ℕ)
    → 0 < b
    → scale_fraction {D = D} r a b round_up ≡ ok n
    → Rounded round_up (r * a) b n
unfolding scale_fraction
scale_fraction-Rounded r a b round_up n b>0 h =
    let g = gcd a b in
    let c = gcd r (b / g) in
    let (product, multiplied, h1) =
      >>=-eq-ok (ok_or (checked_mul u128_bound (r / c) (a / g)) _) _ h in
    let (scaled, divided, last) = >>=-eq-ok (divide round_up product (b / g / c)) _ h1 in
    let (g>0, b'>0) = pos-factor g (b / g) b (right_part a b) b>0 in
    let (c>0, b''>0) = pos-factor c (b / g / c) (b / g) (right_part r (b / g)) b'>0 in
    let same : r / c * (a / g) ≡ product = ok_or-checked_mul _ _ _ _ _ multiplied in
    let rounded = divide-Rounded round_up product (b / g / c) scaled b''>0 divided in
    let times =
      Rounded-times round_up (c * g) product (b / g / c) scaled (mul-pos c>0 g>0) rounded in
    let at_x : c * g * product ≡ r * a =
      ap (λ m. c * g * m) (sym same)
      ∙ mul_assoc c g (r / c * (a / g))
      ∙ ap (λ m. c * m) (mul_left_comm g (r / c) (a / g))
      ∙ sym (mul_assoc c (r / c) (g * (a / g)))
      ∙ ap (λ m. m * (g * (a / g))) (left_part r (b / g))
      ∙ ap (λ m. r * m) (left_part a b) in
    let at_y : c * g * (b / g / c) ≡ b =
      mul_assoc c g (b / g / c)
      ∙ mul_left_comm c g (b / g / c)
      ∙ ap (λ m. g * m) (right_part r (b / g))
      ∙ right_part a b in
    Rounded-eq round_up at_x at_y ((ok_or-to_u64 _ scaled n last).0) times

to_u128-eq-ok : {E : Type 0} (e : E) (z : ℤ) (a : ℕ) → ok_or (to_u128 z) e ≡ ok a → z ≡ pos a
to_u128-eq-ok e (pos n) a h = ap pos (ok-inj h)
to_u128-eq-ok e (negsuc n) a h = cc

power_of_ten-value : {D : Type 0} (k b : ℕ) → power_of_ten {D = D} k ≡ ok b → 10 ^ k ≡ b
unfolding power_of_ten
power_of_ten-value k b h = ground arith

module _ {D : Type 0} ⦃fixed : FixedDecimal D⦄ where
  scale_price_ticks-Rounded :
      (reference_price : ℕ) (factor : D) (round_up : Bool) (n : ℕ)
      → scale_price_ticks reference_price factor round_up ≡ ok n
      → (a : ℕ) × (fixed.mantissa factor ≡ pos a)
        × Rounded round_up (reference_price * a) (10 ^ fixed.scale factor) n
  unfolding scale_price_ticks
  scale_price_ticks-Rounded reference_price factor round_up n h =
      let (a, mantissa, h1) = >>=-eq-ok (ok_or (to_u128 (fixed.mantissa factor)) _) _ h in
      let (b, power, h2) = >>=-eq-ok (power_of_ten (fixed.scale factor)) _ h1 in
      let is_power = power_of_ten-value {D = D} (fixed.scale factor) b power in
      let b>0 : 0 < b = omega (arith, is_power, ten_pos (fixed.scale factor)) in
      (
        a,
        to_u128-eq-ok _ _ a mantissa,
        Rounded-eq round_up refl (sym is_power) refl
            (scale_fraction-Rounded {D = D} reference_price a b round_up n b>0 h2),
      )

  -- One plus the slippage limit for a buy, one minus it for a sell.
  abbrev pub IsFactor : D → Side → D → Type 0
  IsFactor slippage_limit buy factor =
      fixed.decimal.checked_add fixed.one slippage_limit ≡ some factor
  IsFactor slippage_limit sell factor =
      fixed.decimal.checked_sub fixed.one slippage_limit ≡ some factor

  slippage_factor-IsFactor :
      (slippage_limit : D) (side : Side) (factor : D)
      → slippage_factor slippage_limit side ≡ some factor
      → IsFactor slippage_limit side factor
  unfolding slippage_factor
  slippage_factor-IsFactor slippage_limit buy factor h = h
  slippage_factor-IsFactor slippage_limit sell factor h = h

  -- The protection price of a market order is the reference price times one plus the slippage limit
  -- for a buy, and times one minus the limit for a sell; it is rounded downward for a buy and upward
  -- for a sell, so that it never lies beyond the limit and is less than one tick from it.
  pub market_protection_price-Rounded :
      (reference_price : ℕ) (slippage_limit : D) (side : Side) (n : ℕ)
      → market_protection_price reference_price slippage_limit side ≡ ok n
      → (factor : D) × (a : ℕ) × IsFactor slippage_limit side factor
        × (fixed.mantissa factor ≡ pos a)
        × Rounded (is_sell side) (reference_price * a) (10 ^ fixed.scale factor) n
  unfolding market_protection_price
  market_protection_price-Rounded reference_price slippage_limit side n h =
      let (factor, chosen, h1) = >>=-eq-ok (ok_or (slippage_factor slippage_limit side) _) _ h in
      let (a, mantissa, rounded) =
        scale_price_ticks-Rounded reference_price factor (is_sell side) n h1 in
      (
        factor,
        a,
        slippage_factor-IsFactor slippage_limit side factor (ok_or-some _ _ factor chosen),
        mantissa,
        rounded,
      )
