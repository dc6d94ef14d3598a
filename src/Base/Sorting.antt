-- ===== src/Base/Sorting.antt =====
-- Rust's stable `sort_by`, as insertion sort by a comparator, and what sorting keeps.
use Prim.Native.Nat.{ℕ, suc, ◌+◌, Ordering}
use mathlib.Core.Path.{◌≡◌, refl, sym}
use mathlib.Core.Logic.{◌≢◌, inl, inr}
use mathlib.Core.Bool.{true, false}
use mathlib.Core.List.{List, [], ◌∷◌, Perm}
use mathlib.Core.List.Perm
use native.Mathlib.Omega.{arith}
use asteria.Base.Tests.{if◌then◌else◌, is_gt, Bool-cases}
use asteria.Base.Lists.{All, All-map, Distinct, sum_of, length}

module _ {ℓ} {A : Type ℓ} (cmp : A → A → Ordering) where
  -- Before the first element that is not smaller: equal elements keep their order.
  unfoldable pub insert_by : A → List A → List A
  insert_by x [] = x ∷ []
  insert_by x (y ∷ ys) = if is_gt (cmp x y) then y ∷ insert_by x ys else x ∷ y ∷ ys

  unfoldable pub sort_by : List A → List A
  unfolding insert_by
  sort_by [] = []
  sort_by (x ∷ xs) = insert_by x (sort_by xs)

  insert_by-perm : (x : A) (xs : List A) → Perm (insert_by x xs) (x ∷ xs)
  unfolding insert_by
  insert_by-perm x [] = Perm.refl _
  insert_by-perm x (y ∷ ys) = elim (Bool-cases (is_gt (cmp x y))) [
    | inl e ↦ rw e (Perm.trans (Perm.cons y (insert_by-perm x ys)) (Perm.swap x y ys))
    | inr e ↦ rw e (Perm.refl _)
  ]

  pub sort_by-perm : (xs : List A) → Perm (sort_by xs) xs
  unfolding sort_by
  sort_by-perm [] = Perm.refl _
  sort_by-perm (x ∷ xs) = Perm.trans (insert_by-perm x (sort_by xs)) (Perm.cons x (sort_by-perm xs))

  module _ (f : A → ℕ) where
    sum_of-insert_by : (x : A) (xs : List A) → sum_of f (insert_by x xs) ≡ f x + sum_of f xs
    unfolding insert_by
    sum_of-insert_by x [] = refl
    sum_of-insert_by x (y ∷ ys) = ground (arith, sum_of-insert_by x ys)

    pub sum_of-sort_by : (xs : List A) → sum_of f (sort_by xs) ≡ sum_of f xs
    unfolding sort_by
    sum_of-sort_by [] = refl
    sum_of-sort_by (x ∷ xs) = omega (arith, sum_of-insert_by x (sort_by xs), sum_of-sort_by xs)

  length-insert_by : (x : A) (xs : List A) → length (insert_by x xs) ≡ suc (length xs)
  unfolding insert_by
  length-insert_by x [] = refl
  length-insert_by x (y ∷ ys) = ground (arith, length-insert_by x ys)

  pub length-sort_by : (xs : List A) → length (sort_by xs) ≡ length xs
  unfolding sort_by
  length-sort_by [] = refl
  length-sort_by (x ∷ xs) = omega (arith, length-insert_by x (sort_by xs), length-sort_by xs)

  module _ {κ} (P : A → Type κ) where
    All-insert_by : (x : A) (xs : List A) → P x → All P xs → All P (insert_by x xs)
    unfolding insert_by
    All-insert_by x [] p h = (p, tt)
    All-insert_by x (y ∷ ys) p h = elim (Bool-cases (is_gt (cmp x y))) [
      | inl e ↦ rw e (h.0, All-insert_by x ys p h.1)
      | inr e ↦ rw e (p, h)
    ]

    pub All-sort_by : (xs : List A) → All P xs → All P (sort_by xs)
    unfolding sort_by
    All-sort_by [] h = tt
    All-sort_by (x ∷ xs) h = All-insert_by x (sort_by xs) h.0 (All-sort_by xs h.1)

module _ (cmp : ℕ → ℕ → Ordering) where
  Distinct-insert_by :
      (x : ℕ) (xs : List ℕ) → All (λ y. x ≢ y) xs → Distinct xs → Distinct (insert_by cmp x xs)
  unfolding insert_by
  Distinct-insert_by x [] n d = (tt, tt)
  Distinct-insert_by x (y ∷ ys) n d = elim (Bool-cases (is_gt (cmp x y))) [
    | inl e ↦ rw e (
      All-insert_by cmp (λ z. y ≢ z) x ys (λ q. n.0 (sym q)) d.0,
      Distinct-insert_by x ys n.1 d.1,
    )
    | inr e ↦ rw e (n, d)
  ]

  pub Distinct-sort_by : (xs : List ℕ) → Distinct xs → Distinct (sort_by cmp xs)
  unfolding sort_by
  Distinct-sort_by [] d = tt
  Distinct-sort_by (x ∷ xs) d =
      Distinct-insert_by x (sort_by cmp xs) (All-sort_by cmp (λ y. x ≢ y) xs d.0)
        (Distinct-sort_by xs d.1)

-- No element is greater than a later one.
abbrev pub Sorted {ℓ} : {A : Type ℓ} → (A → A → Ordering) → List A → Type 0
Sorted cmp [] = Unit
Sorted cmp (x ∷ xs) = All (λ y. is_gt (cmp x y) ≡ false) xs × Sorted cmp xs

module _ {ℓ} {A : Type ℓ} (cmp : A → A → Ordering)
    (total : (x y : A) → is_gt (cmp x y) ≡ true → is_gt (cmp y x) ≡ false)
    (trans : (x y z : A)
      → is_gt (cmp x y) ≡ false
      → is_gt (cmp y z) ≡ false
      → is_gt (cmp x z) ≡ false) where
  insert_by-Sorted : (x : A) (xs : List A) → Sorted cmp xs → Sorted cmp (insert_by cmp x xs)
  unfolding insert_by
  insert_by-Sorted x [] h = (tt, tt)
  insert_by-Sorted x (y ∷ ys) h = elim (Bool-cases (is_gt (cmp x y))) [
    | inl e ↦ rw e (
      All-insert_by cmp (λ z. is_gt (cmp y z) ≡ false) x ys (total x y e) h.0,
      insert_by-Sorted x ys h.1,
    )
    | inr e ↦ rw e ((e, All-map (λ z k. trans x y z e k) ys h.0), h)
  ]

  pub sort_by-Sorted : (xs : List A) → Sorted cmp (sort_by cmp xs)
  unfolding sort_by
  sort_by-Sorted [] = tt
  sort_by-Sorted (x ∷ xs) = insert_by-Sorted x (sort_by cmp xs) (sort_by-Sorted xs)
