-- ===== src/Ceremony/Canonical.antt =====
-- src/dkg_ceremony.rs: the canonical bytes of a record, and the entries of the journal in memory.
use asteria.Base.{
  ◌<◌, ◌≡◌, inl, inr, refl, sym, ap, ◌∙◌, subst, arith, Bool, true, false, [], ◌∷◌, some,
  Bool-cases, Bytes, bytes_eq, bytes_eq_refl, bytes_eq→eq, ◌==◌, ltb, length, if◌then◌else◌,
}
use asteria.Base.Result.{ok, >>=-eq-ok, fail_if, fail_if-eq-ok, ok-inj, map_err, map_err-eq-ok}
use asteria.Ceremony.Types.{Record, FormatError, max_record_bytes}
use asteria.Ceremony.Record.{
  RecordCodec, to_canonical_json, from_canonical_json, decode_canonical, validate_shape,
}
use asteria.Ceremony.Journal.{Entries, get_entry, put_entry}

-- What is documented of serde: what is written is not empty, and is read as what it was.
pub record RecordCodecLaws (codec : RecordCodec) : Type 0 where
  pub round_trip :
      (r : Record) (bytes : Bytes) → codec.to_vec r ≡ ok bytes → codec.from_slice bytes ≡ ok r
  pub written : (r : Record) (bytes : Bytes) → codec.to_vec r ≡ ok bytes → 0 < length bytes

true-neq-false : true ≡ false → ⊥
true-neq-false h = cc

-- Two keys that are both equal to a third are equal.
bytes_eq_join :
    (key id j : Bytes) → bytes_eq key id ≡ true → bytes_eq key j ≡ true → bytes_eq id j ≡ true
bytes_eq_join key id j e e' = subst (λ k. bytes_eq k j ≡ true) (bytes_eq→eq key id e) e'

if_swap :
    {A : Type 0} (b c : Bool) (x y z : A)
    → (b ≡ true → c ≡ true → x ≡ y)
    → (if c then y else if b then x else z) ≡ (if b then x else if c then y else z)
if_swap true true x y z h = sym (h refl refl)
if_swap true false x y z h = refl
if_swap false true x y z h = refl
if_swap false false x y z h = refl

if_same :
    {A : Type 0} (b : Bool) (x y z : A)
    → (if b then x else z) ≡ (if b then x else if b then y else z)
if_same true x y z = refl
if_same false x y z = refl

pub get_entry-put_entry :
    (key id bytes : Bytes) (entries : Entries)
    → get_entry key (put_entry id bytes entries)
      ≡ (if bytes_eq key id then some bytes else get_entry key entries)
unfolding get_entry put_entry
get_entry-put_entry key id bytes [] = refl
get_entry-put_entry key id bytes ((j, old) ∷ entries) = elim (Bool-cases (bytes_eq id j)) [
  | inl e ↦
      let same = bytes_eq→eq id j e in
      rw (e, ← same) (if_same (bytes_eq key id) (some bytes) (some old) (get_entry key entries))
  | inr e ↦
      rw (e, get_entry-put_entry key id bytes entries)
        (if_swap (bytes_eq key id) (bytes_eq key j) (some bytes) (some old) (get_entry key entries)
          (λ h k. absurd (true-neq-false (sym (bytes_eq_join key id j h k) ∙ e))))
]

module _ (codec : RecordCodec) (laws : RecordCodecLaws codec) where
  -- A record that the journal can store.
  abbrev pub Storable : Record → Type 0
  Storable self = (bytes : Bytes) × (to_canonical_json codec self ≡ ok bytes)

  pub from-to_canonical_json :
      (self : Record) (bytes : Bytes)
      → to_canonical_json codec self ≡ ok bytes
      → from_canonical_json codec bytes ≡ ok self
  unfolding to_canonical_json from_canonical_json decode_canonical
  from-to_canonical_json self bytes h =
      let (_, valid, h1) =
        >>=-eq-ok (map_err FormatError.invalid_record (validate_shape self)) _ h in
      let (written, wrote, h2) =
        >>=-eq-ok (map_err FormatError.serialization (codec.to_vec self)) _ h1 in
      let (_, sized, h3) =
        >>=-eq-ok (fail_if (ltb max_record_bytes (length written)) FormatError.record_too_large) _
          h2 in
      let same : written ≡ bytes = ok-inj h3 in
      let wrote' : codec.to_vec self ≡ ok bytes = map_err-eq-ok _ _ wrote ∙ ap ok same in
      let short : ltb max_record_bytes (length bytes) ≡ false =
        subst (λ b. ltb max_record_bytes (length b) ≡ false) same (fail_if-eq-ok _ _ sized) in
      let long = laws.written self bytes wrote' in
      let nonempty : (length bytes == 0) ≡ false = ground arith in
      rw (
        nonempty,
        short,
        laws.round_trip self bytes wrote',
        wrote',
        bytes_eq_refl bytes,
        map_err-eq-ok _ _ valid,
      )
