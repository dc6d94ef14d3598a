-- ===== src/Decimal/Order.antt =====
-- The order of `rust_decimal::Decimal`: what its laws give for the tests of the program.
use asteria.Base.{
  ◌≡◌, ◌⊎◌, ◌≢◌, Ordering-cases, ap, inl, inr, true, false, Ordering, arith, Bool-cases,
}
use asteria.Decimal.{Decimal, DecimalLaws, leb_dec, ltb_dec, is_zero, min_dec}

module _ {D : Type 0} ⦃decimal : Decimal D⦄ (laws : DecimalLaws decimal) where
  open laws use {compare_refl, compare_eq, compare_swap, compare_trans}

  pub leb_refl : (a : D) → leb_dec a a ≡ true
  leb_refl a = ground (arith, compare_refl a)

  pub ltb→leb : (a b : D) → ltb_dec a b ≡ true → leb_dec a b ≡ true
  ltb→leb a b h = ground (arith, compare_swap a b)

  pub ltb-compare : (a b : D) → ltb_dec a b ≡ true → decimal.compare a b ≡ Ordering.lt
  ltb-compare a b h = ground (arith, compare_swap a b)

  pub ltb-leb_trans : (a b c : D) → ltb_dec a b ≡ true → leb_dec b c ≡ true → ltb_dec a c ≡ true
  ltb-leb_trans a b c h k = elim (Bool-cases (leb_dec c a)) [
    | inl e ↦ absurd (ground (arith, compare_trans b c a k e))
    | inr e ↦ rw e
  ]

  pub leb-ltb_trans : (a b c : D) → leb_dec a b ≡ true → ltb_dec b c ≡ true → ltb_dec a c ≡ true
  leb-ltb_trans a b c h k = elim (Bool-cases (leb_dec c a)) [
    | inl e ↦ absurd (ground (arith, compare_trans c a b e h))
    | inr e ↦ rw e
  ]

  pub leb_antisym : (a b : D) → leb_dec a b ≡ true → leb_dec b a ≡ true → a ≡ b
  leb_antisym a b h k = ground (arith, compare_swap a b, compare_eq a b)

  -- A number that is neither above zero nor below it is zero.
  pub not_positive :
      (a : D) → leb_dec decimal.zero a ≡ true → ltb_dec decimal.zero a ≡ false → a ≡ decimal.zero
  not_positive a h k = ground (arith, compare_swap decimal.zero a, compare_eq decimal.zero a)

  pub is_zero_eq : (a : D) → is_zero a ≡ true → a ≡ decimal.zero
  is_zero_eq a h = ground (arith, compare_eq a decimal.zero)

  pub is_zero_zero : is_zero decimal.zero ≡ true
  is_zero_zero = ground (arith, compare_refl decimal.zero)

  pub positive_of_not_zero :
      (a : D) → leb_dec decimal.zero a ≡ true → is_zero a ≡ false → ltb_dec decimal.zero a ≡ true
  positive_of_not_zero a h k =
      ground (arith, compare_swap decimal.zero a, compare_eq decimal.zero a)

  pub not_positive_zero : ltb_dec decimal.zero decimal.zero ≡ false
  not_positive_zero = ground (arith, compare_refl decimal.zero)

  -- `min` is one of the two numbers, and at most the other.
  pub min_cases :
      (a b : D)
      → ((min_dec a b ≡ a) × (leb_dec a b ≡ true)) ⊎ ((min_dec a b ≡ b) × (ltb_dec b a ≡ true))
  min_cases a b = elim (Bool-cases (leb_dec a b)) [
    | inl e ↦ inl (rw e, e)
    | inr e ↦ inr (rw e, rw e)
  ]

  pub ltb_irrefl : (a : D) → ltb_dec a a ≡ false
  ltb_irrefl a = ground (arith, compare_refl a)

  pub ltb_trans : (a b c : D) → ltb_dec a b ≡ true → ltb_dec b c ≡ true → ltb_dec a c ≡ true
  ltb_trans a b c h k = ltb-leb_trans a b c h (ltb→leb b c k)

  -- Prices are equal or not, as `compare` says.
  pub same_number : (a b : D) → (a ≡ b) ⊎ (decimal.compare a b ≢ Ordering.eq)
  same_number a b = elim (Ordering-cases (decimal.compare a b)) [
    | inl e ↦ inr (λ h. cc)
    | inr (inl e) ↦ inl (compare_eq a b e)
    | inr (inr e) ↦ inr (λ h. cc)
  ]

  pub ltb-ne : (a b : D) → ltb_dec a b ≡ true → a ≢ b
  ltb-ne a b h e = ground (arith, ltb_irrefl a, ap (λ c. ltb_dec a c) e)

  pub min-le_left : (a b : D) → leb_dec (min_dec a b) a ≡ true
  min-le_left a b = ground (arith, compare_swap a b, leb_refl a)

  pub min-le_right : (a b : D) → leb_dec (min_dec a b) b ≡ true
  min-le_right a b = ground (arith, compare_swap a b, leb_refl b)

  pub min_positive :
      (a b : D)
      → ltb_dec decimal.zero a ≡ true
      → ltb_dec decimal.zero b ≡ true
      → ltb_dec decimal.zero (min_dec a b) ≡ true
  min_positive a b h k = ground arith
