-- ===== src/Base/Action.antt =====
-- A method with `&mut self` that returns a `Result`: what it wrote before an error stays written.
use asteria.Base.{◌≡◌, refl, ap, Bool, true, false, if◌then◌else◌}
use asteria.Base.Result.{Result, ok, err, ok-inj, fail_if as fail_result}

abbrev pub Action : Type 0 → Type 0 → Type 0 → Type 0
Action S E A = S → S × Result E A

module _ {S E A : Type 0} where
  unfoldable pub pure : A → Action S E A
  pure a s = (s, ok a)

  unfoldable pub fail : E → Action S E A
  fail e s = (s, err e)

  -- A result that does not depend on the state, with `?`
  unfoldable pub lift : Result E A → Action S E A
  lift r s = (s, r)

unfoldable pub get : {S E : Type 0} → Action S E S
get s = (s, ok s)

infixl 5 ◌>>=◌ ◌>>◌
unfoldable pub ◌>>=◌ : {S E A B : Type 0} → Action S E A → (A → Action S E B) → Action S E B
◌>>=◌ m f s = let (s', r) = m s in elim r [ ok a ↦ f a s' | err e ↦ (s', err e) ]

abbrev pub ◌>>◌ : {S E A B : Type 0} → Action S E A → Action S E B → Action S E B
m >> k = m >>= λ _. k

-- `if c { return Err(e); }`
abbrev pub fail_if : {S E : Type 0} → Bool → E → Action S E (Unit {0})
fail_if c e = lift (fail_result c e)

-- `if c { m } else { k }`
unfoldable pub choose : {S E A : Type 0} → Bool → Action S E A → Action S E A → Action S E A
choose c m k s = if c then m s else k s

first_ok :
    {S E A B : Type 0} (first : S × Result E A) (f : A → Action S E B) (s last : S) (b : B)
    → ((λ (_ : S). first) >>= f) s ≡ (last, ok b)
    → (next : S) × (a : A) × (first ≡ (next, ok a)) × (f a next ≡ (last, ok b))
unfolding ◌>>=◌
first_ok (next, ok a) f s last b h = (next, a, refl, h)
first_ok (next, err e) f s last b h = absurd cc

-- A chain that ends well was well at its first call.
pub >>=-eq-ok :
    {S E A B : Type 0} (m : Action S E A) (f : A → Action S E B) (s last : S) (b : B)
    → (m >>= f) s ≡ (last, ok b)
    → (next : S) × (a : A) × (m s ≡ (next, ok a)) × (f a next ≡ (last, ok b))
unfolding ◌>>=◌
>>=-eq-ok m f s last b h = first_ok (m s) f s last b h

pub lift_>>=-eq-ok :
    {S E A B : Type 0} (r : Result E A) (f : A → Action S E B) (s last : S) (b : B)
    → (lift r >>= f) s ≡ (last, ok b)
    → (a : A) × (r ≡ ok a) × (f a s ≡ (last, ok b))
unfolding ◌>>=◌ lift
lift_>>=-eq-ok (ok a) f s last b h = (a, refl, h)
lift_>>=-eq-ok (err e) f s last b h = absurd cc

first_err :
    {S E A B : Type 0} (first : S × Result E A) (f : A → Action S E B) (s after : S) (e : E)
    → first ≡ (after, err e)
    → ((λ (_ : S). first) >>= f) s ≡ (after, err e)
unfolding ◌>>=◌
first_err {S} {E} {A} (next, ok a) f s after e h = absurd cc
first_err {S} {E} {A} (next, err e') f s after e h =
    let same : next ≡ after = ap (λ (x : S × Result E A). x.0) h in cc

-- A chain whose first call returns an error is that call.
pub >>=-err :
    {S E A B : Type 0} (m : Action S E A) (f : A → Action S E B) (s after : S) (e : E)
    → m s ≡ (after, err e)
    → (m >>= f) s ≡ (after, err e)
unfolding ◌>>=◌
>>=-err m f s after e h = first_err (m s) f s after e h

first_run :
    {S E A B : Type 0} (first : S × Result E A) (f : A → Action S E B) (s next : S) (a : A)
    → first ≡ (next, ok a)
    → ((λ (_ : S). first) >>= f) s ≡ f a next
unfolding ◌>>=◌
first_run {S} {E} {A} (next, ok a) f s next' a' h =
    let same : next ≡ next' = ap (λ (x : S × Result E A). x.0) h in
    let value : a ≡ a' = ok-inj (ap (λ (x : S × Result E A). x.1) h) in cc
first_run (next, err e) f s next' a' h = absurd cc

-- A chain goes on from what its first call returns.
pub >>=-ok :
    {S E A B : Type 0} (m : Action S E A) (f : A → Action S E B) (s next : S) (a : A)
    → m s ≡ (next, ok a)
    → (m >>= f) s ≡ f a next
unfolding ◌>>=◌
>>=-ok m f s next a h = first_run (m s) f s next a h

pub get_>>= : {S E B : Type 0} (f : S → Action S E B) (s : S) → (get >>= f) s ≡ f s s
unfolding ◌>>=◌ get
get_>>= f s = refl

pub choose-true :
    {S E A : Type 0} (c : Bool) (m k : Action S E A) (s : S) → c ≡ true → choose c m k s ≡ m s
unfolding choose
choose-true c m k s h = rw h

pub choose-false :
    {S E A : Type 0} (c : Bool) (m k : Action S E A) (s : S) → c ≡ false → choose c m k s ≡ k s
unfolding choose
choose-false c m k s h = rw h

pub lift_>>= :
    {S E A B : Type 0} (r : Result E A) (f : A → Action S E B) (s : S) (a : A)
    → r ≡ ok a
    → (lift r >>= f) s ≡ f a s
unfolding ◌>>=◌ lift
lift_>>= r f s a h = rw h
