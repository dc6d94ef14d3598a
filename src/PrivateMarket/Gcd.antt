-- ===== src/PrivateMarket/Gcd.antt =====
-- src/private_market.rs: `gcd`, and divisors.
use native.Mathlib.Nat.{
  dvd-mod_iff, dvd-zero, mod-lt, dvd-mul_right, dvd-mul_left_of_dvd, dvd-add_iff_right,
  div-add-mod', mul_assoc, add-mul,
}
use Prim.Native.Nat.{◌∣◌}
use asteria.Base.{ℕ, zero, suc, ◌+◌, ◌*◌, ◌/◌, ◌%◌, ◌≤◌, ◌≡◌, ◌↔◌, sym, ap, ◌∙◌, subst, arith}
use asteria.PrivateMarket.Units.{gcd, gcd_loop}

-- With enough fuel the loop returns the number whose divisors are the common divisors.
gcd_loop_iff : (k fuel a b : ℕ) → b ≤ fuel → (k ∣ gcd_loop fuel a b) ↔ ((k ∣ a) × (k ∣ b))
unfolding gcd_loop
gcd_loop_iff k zero a zero h = (λ d. (d, dvd-zero k), λ d. d.0)
gcd_loop_iff k zero a (suc b) h = absurd (omega arith)
gcd_loop_iff k (suc fuel) a zero h = (λ d. (d, dvd-zero k), λ d. d.0)
gcd_loop_iff k (suc fuel) a (suc r) h =
    let smaller = mod-lt a {m = suc r} (omega arith) in
    let (down, up) = gcd_loop_iff k fuel (suc r) (a % suc r) (omega (arith, smaller)) in
    (
      λ d. let (here, rest) = down d in ((dvd-mod_iff k here).0 rest, here),
      λ d. up (d.1, (dvd-mod_iff k d.1).1 d.0),
    )

pub gcd_iff : (k a b : ℕ) → (k ∣ gcd a b) ↔ ((k ∣ a) × (k ∣ b))
unfolding gcd
gcd_iff k a b = gcd_loop_iff k b a b (omega arith)

-- The remainder of a multiple.
dvd-mod_scaled : (k a b c : ℕ) → k ∣ a * c → k ∣ b * c → k ∣ (a % b) * c
dvd-mod_scaled k a b c h h' =
    let split : a / b * (b * c) + a % b * c ≡ a * c =
      rw (← mul_assoc (a / b) b c, ← add-mul (a / b * b) (a % b) c, div-add-mod' a b) in
    (dvd-add_iff_right k (dvd-mul_left_of_dvd k h' (a / b))).1 (subst (λ n. k ∣ n) (sym split) h)

dvd-gcd_loop_scaled : (k c fuel a b : ℕ) → k ∣ a * c → k ∣ b * c → k ∣ gcd_loop fuel a b * c
unfolding gcd_loop
dvd-gcd_loop_scaled k c zero a b h h' = h
dvd-gcd_loop_scaled k c (suc fuel) a zero h h' = h
dvd-gcd_loop_scaled k c (suc fuel) a (suc r) h h' =
    dvd-gcd_loop_scaled k c fuel (suc r) (a % suc r) h' (dvd-mod_scaled k a (suc r) c h h')

one_mul : (c : ℕ) → 1 * c ≡ c
one_mul c = omega arith

-- Euclid's lemma: what divides a product and has no common divisor with one factor divides the other.
abbrev pub Coprime : ℕ → ℕ → Type 0
Coprime a b = gcd a b ≡ 1

pub dvd_of_Coprime : (a b c : ℕ) → Coprime a b → a ∣ b * c → a ∣ c
unfolding gcd
dvd_of_Coprime a b c h d =
    let e : gcd a b * c ≡ c = ap (λ n. n * c) h ∙ one_mul c in
    subst (λ n. a ∣ n) e (dvd-gcd_loop_scaled a c b a b (dvd-mul_right a c) d)
