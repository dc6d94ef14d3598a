-- ===== src/Base/Result.antt =====
-- `Result<A, E>` with the `?` operator as `>>=`, and the rules for runs that end well.
use mathlib.Core.Path.{◌≡◌, refl, ap}
use mathlib.Core.Logic.{◌⊎◌, inl, inr}
use mathlib.Core.Bool.{Bool, true, false}
use mathlib.Core.Option.{Option, none, some}

pub data Result (E : Type 0) (A : Type 0) : Type 0 where
  ok : A → Result E A
  err : E → Result E A

infixl 5 ◌>>=◌ ◌>>◌
abbrev pub ◌>>=◌ : {E A B : Type 0} → Result E A → (A → Result E B) → Result E B
◌>>=◌ m f = elim m [ ok a ↦ f a | err e ↦ err e ]

abbrev pub ◌>>◌ : {E A B : Type 0} → Result E A → Result E B → Result E B
m >> k = m >>= λ _. k

-- `ok_or`
abbrev pub ok_or : {E A : Type 0} → Option A → E → Result E A
ok_or (some a) e = ok a
ok_or none e = err e

-- `if c { return Err(e); }`
abbrev pub fail_if : {E : Type 0} → Bool → E → Result E (Unit {0})
fail_if true e = err e
fail_if false e = ok tt

pub Result-cases :
    {E A : Type 0} (r : Result E A) → ((a : A) × (r ≡ ok a)) ⊎ ((e : E) × (r ≡ err e))
Result-cases (ok a) = inl (a, refl)
Result-cases (err e) = inr (e, refl)

pub ok-inj : {E A : Type 0} {a a' : A} → ◌≡◌ {A = Result E A} (ok a) (ok a') → a ≡ a'
ok-inj h = cc

pub some-inj : {A : Type 0} {a b : A} → ◌≡◌ {A = Option A} (some a) (some b) → a ≡ b
some-inj h = cc

pub fail_if-eq-ok : {E : Type 0} (c : Bool) (e : E) → fail_if c e ≡ ok tt → c ≡ false
fail_if-eq-ok true e h = cc
fail_if-eq-ok false e h = refl

-- `map_err`
abbrev pub map_err : {E F A : Type 0} → (E → F) → Result E A → Result F A
map_err f (ok a) = ok a
map_err f (err e) = err (f e)

pub map_err-eq-ok :
    {E F A : Type 0} (f : E → F) (r : Result E A) {a : A} → map_err f r ≡ ok a → r ≡ ok a
map_err-eq-ok f (ok a) h = cc
map_err-eq-ok f (err e) h = cc

pub ok_or-some : {E A : Type 0} (e : E) (o : Option A) (a : A) → ok_or o e ≡ ok a → o ≡ some a
ok_or-some e none a h = cc
ok_or-some e (some b) a h = ap some (ok-inj h)

-- The run returns `Ok`, with a value that has the property.
abbrev pub Returns : {E A : Type 0} → Result E A → (A → Type 0) → Type 0
Returns {A} r P = (a : A) × (r ≡ ok a) × P a

module _ {E A B : Type 0} where
  pub >>=-eq-ok :
      (m : Result E A) (f : A → Result E B) {b : B}
      → (m >>= f) ≡ ok b
      → (a : A) × (m ≡ ok a) × (f a ≡ ok b)
  >>=-eq-ok (err failure) k same = cc
  >>=-eq-ok (ok value) k same = (value, refl, same)

  pub Returns-bind :
      {P : A → Type 0} {Q : B → Type 0} (m : Result E A) (f : A → Result E B)
      → Returns m P
      → ((a : A) → P a → Returns (f a) Q)
      → Returns (m >>= f) Q
  Returns-bind m f (a, e, p) k = rw e (k a p)
