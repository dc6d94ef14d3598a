-- ===== src/PrivateMarket/Fractions.antt =====
-- src/private_market.rs: when a fraction that `decimal_to_units` reduces is a whole number.
use native.Mathlib.Nat.{
  dvd-mul_left, mul-div_cancel', dvd_of_mul-dvd-mul_right, dvd_refl, mul-dvd-mul_right,
  eq-one_of_dvd-one, dvd_antisymm, pos_of_dvd_of_pos, mul_assoc, mul_comm, mul_left_comm, mul-one,
  one-mul, mul-div_cancel_left,
}
use Prim.Native.Nat.{◌∣◌}
use asteria.Base.{ℕ, ◌*◌, ◌/◌, ◌<◌, ◌≡◌, ◌↔◌, sym, ap, ◌∙◌, subst}
use asteria.PrivateMarket.Units.{gcd}
use asteria.PrivateMarket.Gcd.{gcd_iff, Coprime, dvd_of_Coprime}

gcd-dvd : (a b : ℕ) → (gcd a b ∣ a) × (gcd a b ∣ b)
gcd-dvd a b = (gcd_iff (gcd a b) a b).0 (dvd_refl (gcd a b))

pub left_part : (a b : ℕ) → gcd a b * (a / gcd a b) ≡ a
left_part a b = mul-div_cancel' (gcd a b) (gcd-dvd a b).0

pub right_part : (a b : ℕ) → gcd a b * (b / gcd a b) ≡ b
right_part a b = mul-div_cancel' (gcd a b) (gcd-dvd a b).1

pub gcd_pos : (a b : ℕ) → 0 < b → 0 < gcd a b
gcd_pos a b b>0 = pos_of_dvd_of_pos (gcd-dvd a b).1 b>0

one_of_dvd-Coprime : (k a b : ℕ) → Coprime a b → k ∣ a → k ∣ b → k ≡ 1
one_of_dvd-Coprime k a b h ka kb =
    eq-one_of_dvd-one (subst (λ n. k ∣ n) h ((gcd_iff k a b).1 (ka, kb)))

-- Divided by their greatest common divisor, two numbers have no common divisor.
pub Coprime-reduced : (a b : ℕ) → 0 < b → Coprime (a / gcd a b) (b / gcd a b)
Coprime-reduced a b b>0 =
    let g = gcd a b in
    let k = gcd (a / g) (b / g) in
    let (ka, kb) = gcd-dvd (a / g) (b / g) in
    let left : k * g ∣ a =
      subst (λ n. k * g ∣ n) (mul_comm (a / g) g ∙ left_part a b) (mul-dvd-mul_right k ka g) in
    let right : k * g ∣ b =
      subst (λ n. k * g ∣ n) (mul_comm (b / g) g ∙ right_part a b) (mul-dvd-mul_right k kb g) in
    let both : k * g ∣ 1 * g =
      subst (λ n. k * g ∣ n) (sym (one-mul g)) ((gcd_iff (k * g) a b).1 (left, right)) in
    eq-one_of_dvd-one (dvd_of_mul-dvd-mul_right k (gcd_pos a b b>0) both)

pub mul_cancel : (c a b : ℕ) → 0 < c → c * a ≡ c * b → a ≡ b
mul_cancel c a b c>0 e =
    sym (mul-div_cancel_left a {n = c} c>0) ∙ ap (λ m. m / c) e ∙ mul-div_cancel_left b {n = c} c>0

module _ (v d : ℕ) (coprime : Coprime v d) where
  pub whole-one : (n : ℕ) → v ≡ n * d → d ≡ 1
  whole-one n e =
      one_of_dvd-Coprime d v d coprime (subst (λ m. d ∣ m) (sym e) (dvd-mul_left d n)) (dvd_refl d)

  -- The step has more decimal places than the value.
  -- The step has more decimal places than the value.
  pub scaled_up_iff :
      (f n : ℕ) → 0 < f → (v * f ≡ n * d) ↔ ((d / gcd d f ≡ 1) × (v * (f / gcd d f) ≡ n))
  scaled_up_iff f n f>0 =
      let c = gcd d f in
      let d' = d / c in
      let f' = f / c in
      let outside_v : c * (v * f') ≡ v * f =
        mul_left_comm c v f' ∙ ap (λ m. v * m) (right_part d f) in
      let outside_n : c * (n * d') ≡ n * d =
        mul_left_comm c n d' ∙ ap (λ m. n * m) (left_part d f) in
      (
        λ e.
            let reduced : v * f' ≡ n * d' =
              mul_cancel c _ _ (gcd_pos d f f>0) (outside_v ∙ e ∙ sym outside_n) in
            let divides : d' ∣ f' * v =
              subst (λ m. d' ∣ m) (sym reduced ∙ mul_comm v f') (dvd-mul_left d' n) in
            let in_v = dvd_of_Coprime d' f' v (Coprime-reduced d f f>0) divides in
            let in_d : d' ∣ d = subst (λ m. d' ∣ m) (left_part d f) (dvd-mul_left d' c) in
            let one = one_of_dvd-Coprime d' v d coprime in_v in_d in
            (one, reduced ∙ ap (λ m. n * m) one ∙ mul-one n),
        λ (one, e).
            sym outside_v
            ∙ ap (λ m. c * m) (e ∙ sym (mul-one n) ∙ ap (λ m. n * m) (sym one))
            ∙ outside_n,
      )

  -- The value has more decimal places than the step.
  pub scaled_down_iff :
      (f n : ℕ) → 0 < f → (v ≡ n * (d * f)) ↔ ((d ≡ 1) × (f / gcd v f ≡ 1) × (v / gcd v f ≡ n))
  scaled_down_iff f n f>0 =
      let c = gcd v f in
      (
        λ e.
            let one =
              whole-one (n * f) (e ∙ ap (λ m. n * m) (mul_comm d f) ∙ sym (mul_assoc n f d)) in
            let whole : v ≡ n * f = e ∙ ap (λ m. n * m) (ap (λ m. m * f) one ∙ one-mul f) in
            let in_v : f ∣ v = subst (λ m. f ∣ m) (sym whole) (dvd-mul_left f n) in
            let same : c ≡ f =
              dvd_antisymm (gcd-dvd v f).1 ((gcd_iff f v f).1 (in_v, dvd_refl f)) in
            (
              one,
              mul_cancel c _ _ (gcd_pos v f f>0) (right_part v f ∙ sym same ∙ sym (mul-one c)),
              mul_cancel c _ _ (gcd_pos v f f>0)
                  (left_part v f ∙ whole ∙ mul_comm n f ∙ ap (λ m. m * n) (sym same)),
            ),
        λ (one, one', e).
            let same : c ≡ f = sym (mul-one c) ∙ ap (λ m. c * m) (sym one') ∙ right_part v f in
            sym (left_part v f)
            ∙ ap (λ m. c * m) e
            ∙ mul_comm c n
            ∙ ap (λ m. n * m) (same ∙ sym (one-mul f) ∙ ap (λ m. m * f) (sym one)),
      )
