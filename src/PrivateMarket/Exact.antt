-- ===== src/PrivateMarket/Exact.antt =====
-- src/private_market.rs: `decimal_to_units` is exact.
use native.Mathlib.Nat.{mul_assoc, mul_comm, mul_left_comm, zero-mul}
use asteria.Base.{
  ℕ, zero, suc, ◌-◌, ◌*◌, ◌/◌, ◌^◌, ◌≤◌, ◌<◌, ◌≡◌, ◌⊎◌, ◌↔◌, inl, inr, refl, sym, ap, ◌∙◌, arith,
  true, not, ◌==◌, some, u64_bound, u128_bound, compare, Ordering-cases, Bool-cases,
}
use asteria.Base.Result.{ok, >>=-eq-ok, ok_or, fail_if-eq-ok, ok-inj}
use asteria.PrivateMarket.Types.{ℤ, pos, negsuc, FixedDecimal, Field}
use asteria.PrivateMarket.Units.{
  gcd, align_scales, convert_units, decimal_to_units, validate_step, to_u64, is_positive,
}
use asteria.PrivateMarket.Gcd.{Coprime}
use asteria.PrivateMarket.Fractions.{Coprime-reduced, mul_cancel, gcd_pos, left_part, right_part}
use asteria.PrivateMarket.Aligned.{
  max_scale, ten_pos, ten_split, align_up_iff, align_down_iff, align_same_iff,
}

-- Both sides of an equation times a positive number.
times_iff : (p x y : ℕ) → 0 < p → (x ≡ y) ↔ (x * p ≡ y * p)
times_iff p x y p>0 = (ap (λ m. m * p), λ e. mul_cancel p x y p>0 (mul_comm p x ∙ e ∙ mul_comm y p))

iff_trans : {A B C : Type 0} → A ↔ B → B ↔ C → A ↔ C
iff_trans f g = (λ a. g.0 (f.0 a), λ c. f.1 (g.1 c))

iff_eq : {a b c d : ℕ} → a ≡ c → b ≡ d → (a ≡ b) ↔ (c ≡ d)
iff_eq e e' = (λ h. sym e ∙ h ∙ e', λ h. e ∙ h ∙ sym e')

pub ok_or-to_u64 :
    {E : Type 0} (e : E) (units n : ℕ)
    → ok_or (to_u64 units) e ≡ ok n
    → (units ≡ n) × (n < u64_bound)
ok_or-to_u64 e units n h = (ground arith, ground arith)

both_zero : (a n x y : ℕ) → a ≡ 0 → n ≡ 0 → a * x ≡ n * y
both_zero a n x y e e' = ap (λ m. m * x) e ∙ zero-mul x ∙ sym (ap (λ m. m * y) e' ∙ zero-mul y)

no_units : (a n x b y : ℕ) → a ≡ 0 → a * x ≡ n * (b * y) → 0 < b → 0 < y → n ≡ 0
no_units a n x b y e exact b>0 y>0 =
    let zero_units : n * b * y ≡ 0 * y =
      mul_assoc n b y ∙ sym exact ∙ ap (λ m. m * x) e ∙ zero-mul x ∙ sym (zero-mul y) in
    (times_iff b n 0 b>0).1 ((times_iff y (n * b) 0 y>0).1 zero_units ∙ sym (zero-mul b))

ℤ-cases : (z : ℤ) → ((n : ℕ) × (z ≡ pos n)) ⊎ ((n : ℕ) × (z ≡ negsuc n))
ℤ-cases (pos n) = inl (n, refl)
ℤ-cases (negsuc n) = inr (n, refl)

is_positive-cases : (z : ℤ) → is_positive z ≡ true → (n : ℕ) × (z ≡ pos n) × (0 < n)
is_positive-cases (pos zero) h = cc
is_positive-cases (pos (suc n)) h = (suc n, refl, omega arith)
is_positive-cases (negsuc n) h = cc

pos-is_positive : (n : ℕ) → 0 < n → is_positive (pos n) ≡ true
pos-is_positive zero h = absurd (omega arith)
pos-is_positive (suc n) h = refl

-- `n` units are the value: `value == n * step` as numbers, for a step above zero, in range.
pub record IsUnits {D : Type 0} ⦃fixed : FixedDecimal D⦄ (value step : D) (n : ℕ) : Type 0 where
  pub numerator : ℕ
  pub denominator : ℕ
  pub at_value : fixed.mantissa value ≡ pos numerator
  pub at_step : fixed.mantissa step ≡ pos denominator
  pub positive : 0 < denominator
  pub exact : numerator * 10 ^ fixed.scale step ≡ n * (denominator * 10 ^ fixed.scale value)
  pub small : n < u64_bound

module _ {D : Type 0} ⦃fixed : FixedDecimal D⦄ (value step : D) (field : Field)
    (value_scale : fixed.scale value ≤ max_scale) (step_scale : fixed.scale step ≤ max_scale) where
  align_scales_iff :
      (v d : ℕ)
      → Coprime v d
      → (n : ℕ) → n < u128_bound
      → (align_scales v d value step field ≡ ok n)
        ↔ (v * 10 ^ fixed.scale step ≡ n * (d * 10 ^ fixed.scale value))
  unfolding align_scales
  align_scales_iff v d coprime n small =
      let vs = fixed.scale value in
      let ss = fixed.scale step in
      elim (Ordering-cases (compare ss vs)) [
        | inl e ↦
            let split = ten_split ss vs (ground arith) in
            rw (e, align_scales)
              (iff_trans
                (align_down_iff v d value step field coprime value_scale step_scale n
                  (ground arith))
                (iff_trans (times_iff (10 ^ ss) v (n * (d * 10 ^ (vs - ss))) (ten_pos ss)) (
                  iff_eq refl (
                    mul_assoc n _ (10 ^ ss)
                    ∙ ap (λ m. n * m) (mul_assoc d _ (10 ^ ss) ∙ ap (λ m. d * m) (sym split))))))
        | inr (inl e) ↦
            let same : ss ≡ vs = ground arith in
            rw (e, align_scales)
              (iff_trans (align_same_iff v d value step field coprime value_scale step_scale n) (
                iff_trans (times_iff (10 ^ vs) v (n * d) (ten_pos vs))
                  (iff_eq (ap (λ k. v * 10 ^ k) (sym same)) (mul_assoc n d (10 ^ vs)))))
        | inr (inr e) ↦
            let split = ten_split vs ss (ground arith) in
            rw (e, align_scales)
              (iff_trans
                (align_up_iff v d value step field coprime value_scale step_scale n (ground arith)
                  small)
                (iff_trans (times_iff (10 ^ vs) (v * 10 ^ (ss - vs)) (n * d) (ten_pos vs)) (
                  iff_eq (mul_assoc v _ (10 ^ vs) ∙ ap (λ m. v * m) (sym split))
                    (mul_assoc n d (10 ^ vs)))))
      ]

  -- The numerator and the denominator are divided by a common divisor.
  reduced_iff :
      (a b n : ℕ)
      → 0 < b
      → (a / gcd a b * 10 ^ fixed.scale step ≡ n * (b / gcd a b * 10 ^ fixed.scale value))
        ↔ (a * 10 ^ fixed.scale step ≡ n * (b * 10 ^ fixed.scale value))
  reduced_iff a b n b>0 =
      let g = gcd a b in
      let p = 10 ^ fixed.scale step in
      let q = 10 ^ fixed.scale value in
      iff_trans (times_iff g _ _ (gcd_pos a b b>0)) (
        iff_eq (mul_comm _ g ∙ sym (mul_assoc g (a / g) p) ∙ ap (λ m. m * p) (left_part a b)) (
          mul_comm _ g
          ∙ mul_left_comm g n (b / g * q)
          ∙ ap (λ m. n * m) (sym (mul_assoc g (b / g) q) ∙ ap (λ m. m * q) (right_part a b))))

  convert_units_iff :
      (a b : ℕ)
      → fixed.mantissa step ≡ pos b
      → 0 < b
      → (n : ℕ)
      → (convert_units a value step field ≡ ok n)
        ↔ ((a * 10 ^ fixed.scale step ≡ n * (b * 10 ^ fixed.scale value)) × (n < u64_bound))
  unfolding convert_units
  convert_units_iff a b at b>0 n =
      let aligned = align_scales_iff (a / gcd a b) (b / gcd a b) (Coprime-reduced a b b>0) in
      (
        λ h.
            let h1 = rw at at h in
            let (units, ran, last) =
              >>=-eq-ok (align_scales (a / gcd a b) (b / gcd a b) value step field) _ h1 in
            let (same, small) = ok_or-to_u64 _ units n last in
            let exact = (aligned n (omega arith)).0 (ran ∙ ap ok same) in
            ((reduced_iff a b n b>0).0 exact, small),
        λ (e, small).
            let ran = (aligned n (omega arith)).1 ((reduced_iff a b n b>0).1 e) in
            let fits : to_u64 n ≡ some n = ground arith in rw (at, ran, fits),
      )

  validate_step-accepts :
      validate_step step field ≡ ok tt → (b : ℕ) × (fixed.mantissa step ≡ pos b) × (0 < b)
  unfolding validate_step
  validate_step-accepts h =
      let rejected = fail_if-eq-ok (not (is_positive (fixed.mantissa step))) _ h in
      is_positive-cases (fixed.mantissa step) (ground arith)

  decimal_to_units-IsUnits :
      (n : ℕ) → decimal_to_units value step field ≡ ok n → IsUnits value step n
  unfolding decimal_to_units
  decimal_to_units-IsUnits n h =
      let (_, valid, h1) = >>=-eq-ok (validate_step step field) _ h in
      let (b, at_step, b>0) = validate_step-accepts valid in
      elim (ℤ-cases (fixed.mantissa value)) [
        | inr (m, e) ↦ let h2 = rw e at h1 in absurd cc
        | inl (a, e) ↦ elim (Bool-cases (a == 0)) [
          | inl z ↦
              let h2 = rw (e, z) at h1 in
              let zero_units : 0 ≡ n = ok-inj h2 in
              record {
                numerator = a;
                denominator = b;
                at_value = e;
                at_step = at_step;
                positive = b>0;
                exact = both_zero a n _ _ (ground arith) (sym zero_units);
                small = omega (arith, zero_units);
              }
          | inr nz ↦
              let h2 = rw (e, nz) at h1 in
              let (exact, small) = (convert_units_iff a b at_step b>0 n).0 h2 in
              record {
                numerator = a;
                denominator = b;
                at_value = e;
                at_step = at_step;
                positive = b>0;
                exact = exact;
                small = small;
              }
        ]
      ]

  IsUnits-accepted : (n : ℕ) → IsUnits value step n → decimal_to_units value step field ≡ ok n
  unfolding decimal_to_units
  IsUnits-accepted n u =
      let valid : validate_step step field ≡ ok tt =
        unfold validate_step in rw (u.at_step, pos-is_positive u.denominator u.positive) in
      elim (Bool-cases (u.numerator == 0)) [
        | inl z ↦
            let zero_units =
              no_units u.numerator n _ u.denominator _ (ground arith) u.exact u.positive
                (ten_pos (fixed.scale value)) in
            rw (valid, u.at_value, z) (ap ok (sym zero_units))
        | inr nz ↦
            let ran =
              (convert_units_iff u.numerator u.denominator u.at_step u.positive n).1
                (u.exact, u.small) in
            rw (valid, u.at_value, nz, ran)
      ]

  -- For decimals of at most 28 decimal places, as the library's are, `decimal_to_units` returns a
  -- number exactly if that number of steps, which fits in `u64`, is the value: nothing is rounded, and
  -- no multiple of a positive step is refused.
  pub decimal_to_units_iff :
      (n : ℕ) → (decimal_to_units value step field ≡ ok n) ↔ IsUnits value step n
  decimal_to_units_iff n = (decimal_to_units-IsUnits n, IsUnits-accepted n)
