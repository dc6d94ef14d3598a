-- ===== src/Ceremony/Formats.antt =====
-- Ways to write values as bytes, for the codec of the tests: lists by their length.
use asteria.Base.{ℕ, zero, suc, ◌≡◌, refl, List, [], ◌∷◌, length, Option, none, some, Bytes}

pub record Format (A : Type 0) : Type 0 where
  pub put : A → Bytes → Bytes
  pub get : Bytes → Option (A × Bytes)
  pub round_trip : (a : A) (rest : Bytes) → get (put a rest) ≡ some (a, rest)

abbrev pub number : Format ℕ
number = record { put = λ n rest. n ∷ rest; get = get_number; round_trip = λ n rest. refl }
  where
    get_number : Bytes → Option (ℕ × Bytes)
    get_number [] = none
    get_number (n ∷ rest) = some (n, rest)

abbrev pub and_then : {A B : Type 0} → Option (A × Bytes) → (A → Bytes → Option B) → Option B
and_then (some (a, rest)) k = k a rest
and_then none k = none

abbrev pub pair : {A B : Type 0} → Format A → Format B → Format (A × B)
pair f g = record {
  put = λ (a, b) rest. f.put a (g.put b rest);
  get = λ bytes.
      and_then (f.get bytes) λ a rest. and_then (g.get rest) λ b rest'. some ((a, b), rest');
  round_trip = λ (a, b) rest. rw (f.round_trip a (g.put b rest), g.round_trip b rest);
}

abbrev pub via :
    {A B : Type 0} (to : B → A) (from : A → B) → ((b : B) → from (to b) ≡ b) → Format A → Format B
via to from same f = record {
  put = λ b rest. f.put (to b) rest;
  get = λ bytes. and_then (f.get bytes) λ a rest. some (from a, rest);
  round_trip = λ b rest. rw (f.round_trip (to b) rest, same b);
}

unfoldable pub put_all : {A : Type 0} → Format A → List A → Bytes → Bytes
put_all f [] rest = rest
put_all f (a ∷ items) rest = f.put a (put_all f items rest)

unfoldable pub get_all : {A : Type 0} → Format A → ℕ → Bytes → Option (List A × Bytes)
get_all f zero bytes = some ([], bytes)
get_all f (suc n) bytes =
    and_then (f.get bytes)
      λ a rest. and_then (get_all f n rest) λ items rest'. some (a ∷ items, rest')

pub get_all-put_all :
    {A : Type 0} (f : Format A) (items : List A) (rest : Bytes)
    → get_all f (length items) (put_all f items rest) ≡ some (items, rest)
unfolding put_all get_all
get_all-put_all f [] rest = refl
get_all-put_all f (a ∷ items) rest =
    rw (f.round_trip a (put_all f items rest), get_all-put_all f items rest)

unfoldable pub many : {A : Type 0} → Format A → Format (List A)
unfolding put_all get_all
many f = record {
  put = λ items rest. length items ∷ put_all f items rest;
  get = λ bytes. and_then (number.get bytes) λ n rest. get_all f n rest;
  round_trip = get_all-put_all f;
}

unfoldable pub to_list : {A : Type 0} → Option A → List A
to_list none = []
to_list (some a) = a ∷ []

unfoldable pub from_list : {A : Type 0} → List A → Option A
from_list [] = none
from_list (a ∷ _) = some a

pub from-to_list : {A : Type 0} (o : Option A) → from_list (to_list o) ≡ o
unfolding from_list to_list
from-to_list none = refl
from-to_list (some a) = refl

unfoldable pub maybe : {A : Type 0} → Format A → Format (Option A)
unfolding many from_list to_list
maybe f = via to_list from_list from-to_list (many f)
