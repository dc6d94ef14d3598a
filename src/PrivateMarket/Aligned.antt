-- ===== src/PrivateMarket/Aligned.antt =====
-- src/private_market.rs: the arms of `decimal_to_units`, for decimals in the range of the library.
use native.Mathlib.Nat.{
  mul_assoc, mul-one, one-mul, one-le-pow, pow-le-pow_right, pow-succ', zero-add, suc-add,
}
use asteria.Base.{
  ℕ, zero, suc, ◌+◌, ◌-◌, ◌*◌, ◌/◌, ◌^◌, ◌≤◌, ◌<◌, ◌≡◌, ◌↔◌, sym, ap, ◌∙◌, arith, true, not, ◌==◌,
  if◌then◌else◌, some, checked_mul, u128_bound, ltb, ==_iff,
}
use asteria.Base.Result.{fail_if-eq-ok, ok-inj, ok, >>=-eq-ok, ok_or, fail_if}
use asteria.PrivateMarket.Types.{FixedDecimal, Field, not_step_aligned}
use asteria.PrivateMarket.Units.{gcd, power_of_ten, align_up, align_down, align_same}
use asteria.PrivateMarket.Gcd.{Coprime}
use asteria.PrivateMarket.Fractions.{scaled_up_iff, scaled_down_iff, whole-one}

-- The largest scale of a `rust_decimal::Decimal`.
abbrev pub max_scale : ℕ
max_scale = 28

pub ok_or-checked_mul :
    {E : Type 0} (e : E) (bound a b c : ℕ) → ok_or (checked_mul bound a b) e ≡ ok c → a * b ≡ c
ok_or-checked_mul e bound a b c h = ground arith

checked_mul-eq-some : (a b c : ℕ) → a * b ≡ c → c < u128_bound → checked_mul u128_bound a b ≡ some c
checked_mul-eq-some a b c e small = ground arith

pub ten_pos : (n : ℕ) → 0 < 10 ^ n
ten_pos n = one-le-pow n 10 (omega arith)

ten_fits : (n : ℕ) → n ≤ max_scale → 10 ^ n < u128_bound
ten_fits n h =
    let below = pow-le-pow_right {n = 10} (omega arith) {i = n} {j = max_scale} h in
    omega (arith, below)

ten_add : (m n : ℕ) → 10 ^ (m + n) ≡ 10 ^ m * 10 ^ n
ten_add zero n = ap (λ k. 10 ^ k) (zero-add n) ∙ sym (one-mul (10 ^ n))
ten_add (suc m) n =
    ap (λ k. 10 ^ k) (suc-add m n)
    ∙ pow-succ' 10 (m + n)
    ∙ ap (λ k. 10 * k) (ten_add m n)
    ∙ sym (mul_assoc 10 (10 ^ m) (10 ^ n))
    ∙ ap (λ k. k * 10 ^ n) (sym (pow-succ' 10 m))

pub ten_split : (m n : ℕ) → m ≤ n → 10 ^ n ≡ 10 ^ (n - m) * 10 ^ m
ten_split m n h = ap (λ k. 10 ^ k) (omega arith) ∙ ten_add (n - m) m

power_of_ten-eq-ok : {D : Type 0} (n : ℕ) → n ≤ max_scale → power_of_ten {D = D} n ≡ ok (10 ^ n)
unfolding power_of_ten
power_of_ten-eq-ok n h =
    let fits = ten_fits n h in let e : ltb (10 ^ n) u128_bound ≡ true = ground arith in rw e

module _ {D : Type 0} ⦃fixed : FixedDecimal D⦄ (v d : ℕ) (value step : D) (field : Field)
    (coprime : Coprime v d) (value_scale : fixed.scale value ≤ max_scale)
    (step_scale : fixed.scale step ≤ max_scale) where
  pub align_up_iff :
      (n : ℕ)
      → fixed.scale value ≤ fixed.scale step
      → n < u128_bound
      → (align_up v d value step field ≡ ok n)
        ↔ (v * 10 ^ (fixed.scale step - fixed.scale value) ≡ n * d)
  unfolding align_up
  align_up_iff n le small =
      let f = 10 ^ (fixed.scale step - fixed.scale value) in
      let power = power_of_ten-eq-ok {D = D} (fixed.scale step - fixed.scale value) (omega arith) in
      let whole = scaled_up_iff v d coprime f n (ten_pos _) in
      (
        λ h.
            let h1 = rw (power) at h in
            let (_, checked, last) =
              >>=-eq-ok (fail_if (not (d / gcd d f == 1)) (not_step_aligned field value step)) _
                h1 in
            let aligned = fail_if-eq-ok _ _ checked in
            whole.1 (ground arith, ok_or-checked_mul _ _ _ _ _ last),
        λ e.
            let (one, units) = whole.0 e in
            let one' = (==_iff (d / gcd d f) 1).1 one in
            let fits : checked_mul u128_bound v (f / gcd d f) ≡ some n =
              checked_mul-eq-some v (f / gcd d f) n units small in
            rw (power, one', fits),
      )

  pub align_down_iff :
      (n : ℕ)
      → fixed.scale step ≤ fixed.scale value
      → (align_down v d value step field ≡ ok n)
        ↔ (v ≡ n * (d * 10 ^ (fixed.scale value - fixed.scale step)))
  unfolding align_down
  align_down_iff n le =
      let f = 10 ^ (fixed.scale value - fixed.scale step) in
      let power = power_of_ten-eq-ok {D = D} (fixed.scale value - fixed.scale step) (omega arith) in
      let whole = scaled_down_iff v d coprime f n (ten_pos _) in
      (
        λ h.
            let h1 = rw (power) at h in
            let (_, checked, last) =
              >>=-eq-ok
                (fail_if (if d == 1 then not (f / gcd v f == 1) else true)
                  (not_step_aligned field value step))
                _ h1 in
            let aligned = fail_if-eq-ok _ _ checked in
            whole.1 (ground arith, ground arith, ok-inj last),
        λ e.
            let (one, one', units) = whole.0 e in
            let one2 = (==_iff d 1).1 one in
            let one3 = (==_iff (f / gcd v f) 1).1 one' in rw (power, one2, one3, units),
      )

  pub align_same_iff : (n : ℕ) → (align_same v d value step field ≡ ok n) ↔ (v ≡ n * d)
  unfolding align_same
  align_same_iff n = (
    λ h.
        let (_, checked, last) =
          >>=-eq-ok (fail_if (not (d == 1)) (not_step_aligned field value step)) _ h in
        let aligned = fail_if-eq-ok _ _ checked in
        let one : d ≡ 1 = ground arith in ok-inj last ∙ sym (mul-one n) ∙ ap (λ m. n * m) (sym one),
    λ e.
        let one = whole-one v d coprime n e in
        let one' = (==_iff d 1).1 one in
        let units : v ≡ n = e ∙ ap (λ m. n * m) one ∙ mul-one n in rw (one', units),
  )
