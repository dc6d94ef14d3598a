-- ===== src/Ceremony/Memory.antt =====
-- src/dkg_ceremony.rs: the journal in memory keeps the contract.
use asteria.Base.{
  not-eq-false, or-false, ℕ, ◌+◌, ◌<◌, ◌≡◌, inl, inr, refl, ap, ◌∙◌, subst, arith, true, false, not,
  Option, none, some, Option-cases, Bool-cases, Bytes, bytes_eq, bytes_eq_refl, bytes_eq→eq, ◌==◌,
  ◌||◌, checked_add, u64_bound,
}
use asteria.Base.Result.{
  some-inj, ok_or-some, Result, ok, err, >>=-eq-ok, fail_if, fail_if-eq-ok, ok-inj, ok_or, map_err,
  map_err-eq-ok,
}
use asteria.Ceremony.Types.{
  Record, JournalError, invalid_data, wrong_next, revision_conflict, immutable_binding,
  invalid_transition,
}
use asteria.Ceremony.Record.{
  RecordCodec, to_canonical_json, from_canonical_json, same_binding, valid_phase_transition,
}
use asteria.Ceremony.Journal.{
  Entries, get_entry, put_entry, memory_load, check_create, check_swap, store, memory_journal,
}
use asteria.Ceremony.Canonical.{
  RecordCodecLaws, Storable as CanStore, get_entry-put_entry,
  from-to_canonical_json as canonical_round_trip,
}
use asteria.Ceremony.Contract.{Follows, Stores, SwapOutcome, CreateOutcome, JournalContract}

counted_next :
    {E : Type 0} (n m : ℕ) (e : E)
    → ok_or (checked_add u64_bound n 1) e ≡ ok m
    → (m ≡ n + 1) × (m < u64_bound)
counted_next n m e h = (ground arith, ground arith)

eq_of_not : (a b : ℕ) → not (a == b) ≡ false → a ≡ b
eq_of_not a b h = ground arith

-- `Result::ok`
abbrev to_option : {E A : Type 0} → Result E A → Option A
to_option (ok a) = some a
to_option (err _) = none

module _ (codec : RecordCodec) (laws : RecordCodecLaws codec) where
  abbrev view_entry : Option Bytes → Option Record
  view_entry none = none
  view_entry (some bytes) = to_option (from_canonical_json codec bytes)

  -- The records that the entries stand for.
  unfoldable pub memory_view : Entries → Bytes → Option Record
  memory_view entries id = view_entry (get_entry id entries)

  -- Every entry is the canonical form of a record.
  abbrev pub IsCanonical : Entries → Type 0
  IsCanonical entries =
      (key bytes : Bytes)
      → get_entry key entries ≡ some bytes
      → (self : Record) × (from_canonical_json codec bytes ≡ ok self)

  put_entry-Stores :
      (entries : Entries) (id bytes : Bytes) (self : Record)
      → IsCanonical entries
      → to_canonical_json codec self ≡ ok bytes
      → Stores IsCanonical memory_view entries (put_entry id bytes entries) id self
  unfolding memory_view
  put_entry-Stores entries id bytes self good h =
      let read = canonical_round_trip codec laws self bytes h in
      (
        λ key stored e. elim (Bool-cases (bytes_eq key id)) [
          | inl same ↦
              let e' = rw (get_entry-put_entry key id bytes entries, same) at e in
              (self, subst (λ b. from_canonical_json codec b ≡ ok self) (some-inj e') read)
          | inr other ↦
              let e' = rw (get_entry-put_entry key id bytes entries, other) at e in
              good key stored e'
        ],
        λ key. elim (Bool-cases (bytes_eq key id)) [
          | inl same ↦ rw (get_entry-put_entry key id bytes entries, same, read)
          | inr other ↦ rw (get_entry-put_entry key id bytes entries, other)
        ],
      )

  memory_load-view :
      (entries : Entries) (id : Bytes)
      → IsCanonical entries
      → memory_load codec entries id ≡ ok (memory_view entries id)
  unfolding memory_load memory_view
  memory_load-view entries id good = elim (Option-cases (get_entry id entries)) [
    | inl e ↦ rw (e, memory_load)
    | inr (bytes, e) ↦ let (self, read) = good id bytes e in rw (e, memory_load, read)
  ]

  check_create-stored :
      (entries : Entries) (self : Record) (bytes : Bytes)
      → check_create codec entries self ≡ ok bytes
      → (to_canonical_json codec self ≡ ok bytes)
        × (get_entry self.session.ceremony_id entries ≡ none)
  unfolding check_create
  check_create-stored entries self bytes h =
      let (written, wrote, h1) = >>=-eq-ok (map_err _ (to_canonical_json codec self)) _ h in
      elim (Option-cases (get_entry self.session.ceremony_id entries)) [
        | inl e ↦ let h2 = rw e at h1 in (map_err-eq-ok _ _ wrote ∙ ap ok (ok-inj h2), e)
        | inr (old, e) ↦ let h2 = rw e at h1 in absurd cc
      ]

  -- What a swap that passes its checks has found.
  record IsSwap (entries : Entries) (id : Bytes) (expected : ℕ) (next : Record) (bytes : Bytes)
      : Type 0 where
    current : Record
    old : Bytes
    found : get_entry id entries ≡ some old
    read : from_canonical_json codec old ≡ ok current
    at_revision : current.revision ≡ expected
    follows : Follows current next
    at_id : next.session.ceremony_id ≡ id
    wrote : to_canonical_json codec next ≡ ok bytes

  check_swap-IsSwap :
      (entries : Entries) (id : Bytes) (expected : ℕ) (next : Record) (bytes : Bytes)
      → check_swap codec entries id expected next ≡ ok bytes
      → IsSwap entries id expected next bytes
  unfolding check_swap
  check_swap-IsSwap entries id expected next bytes h =
      let (revision, counted, h1) = >>=-eq-ok (ok_or (checked_add u64_bound expected 1) _) _ h in
      let (_, fits, h2) =
        >>=-eq-ok
          (fail_if (not (bytes_eq next.session.ceremony_id id) || not (next.revision == revision))
            (invalid_data wrong_next))
          _ h1 in
      let (written, wrote, h3) = >>=-eq-ok (map_err _ (to_canonical_json codec next)) _ h2 in
      let (old, found, h4) = >>=-eq-ok (ok_or (get_entry id entries) _) _ h3 in
      let (current, read, h5) = >>=-eq-ok (map_err _ (from_canonical_json codec old)) _ h4 in
      let (_, same, h6) =
        >>=-eq-ok
          (fail_if (not (current.revision == expected))
            (revision_conflict expected current.revision))
          _ h5 in
      let (_, bound, h7) =
        >>=-eq-ok (fail_if (not (same_binding current next)) (invalid_data immutable_binding)) _
          h6 in
      let (_, moved, h8) =
        >>=-eq-ok
          (fail_if (not (valid_phase_transition current.phase next.phase))
            (invalid_data invalid_transition))
          _ h7 in
      let (is_next, in_range) = counted_next expected revision _ counted in
      let (wrong_id, wrong_revision) = or-false _ _ (fail_if-eq-ok _ _ fits) in
      let at_revision : current.revision ≡ expected = eq_of_not _ _ (fail_if-eq-ok _ _ same) in
      let next_revision = eq_of_not _ _ wrong_revision in
      record {
        current = current;
        old = old;
        found = ok_or-some _ _ _ found;
        read = map_err-eq-ok _ _ read;
        at_revision = at_revision;
        follows = record {
          revision = omega (arith, next_revision, is_next, at_revision);
          fits = omega (arith, next_revision, in_range);
          binding = not-eq-false _ (fail_if-eq-ok _ _ bound);
          transition = not-eq-false _ (fail_if-eq-ok _ _ moved);
        };
        at_id = bytes_eq→eq _ _ (not-eq-false _ wrong_id);
        wrote = map_err-eq-ok _ _ wrote ∙ ap ok (ok-inj h8);
      }

  swap_outcome :
      (entries : Entries) (id : Bytes) (expected : ℕ) (next : Record)
      (checked : Result JournalError Bytes)
      → IsCanonical entries
      → check_swap codec entries id expected next ≡ checked
      → SwapOutcome IsCanonical memory_view entries id expected next (store id checked entries)
  unfolding store memory_view
  swap_outcome entries id expected next (err e) good h = refl
  swap_outcome entries id expected next (ok bytes) good h =
      let s = check_swap-IsSwap entries id expected next bytes h in
      (
        s.current,
        rw (s.found, s.read),
        s.at_revision,
        s.follows,
        s.at_id,
        put_entry-Stores entries id bytes next good s.wrote,
      )

  create_outcome :
      (entries : Entries) (self : Record) (checked : Result JournalError Bytes)
      → IsCanonical entries
      → check_create codec entries self ≡ checked
      → CreateOutcome IsCanonical memory_view entries self
          (store self.session.ceremony_id checked entries)
  unfolding store memory_view
  create_outcome entries self (err e) good h = refl
  create_outcome entries self (ok bytes) good h =
      let (wrote, absent) = check_create-stored entries self bytes h in
      (rw absent, put_entry-Stores entries self.session.ceremony_id bytes self good wrote)

  -- The entry behind a record that is seen.
  viewed :
      (entries : Entries) (id : Bytes) (self : Record)
      → IsCanonical entries
      → memory_view entries id ≡ some self
      → (bytes : Bytes) × (get_entry id entries ≡ some bytes)
        × (from_canonical_json codec bytes ≡ ok self)
  unfolding memory_view
  viewed entries id self good h = elim (Option-cases (get_entry id entries)) [
    | inl e ↦ let h' = rw e at h in absurd cc
    | inr (bytes, e) ↦
        let (found, read) = good id bytes e in
        let h' = rw (e, read) at h in
        (bytes, e, subst (λ r. from_canonical_json codec bytes ≡ ok r) (some-inj h') read)
  ]

  memory_accepts :
      (entries : Entries) (id : Bytes) (current next : Record)
      → IsCanonical entries
      → memory_view entries id ≡ some current
      → next.session.ceremony_id ≡ id
      → Follows current next
      → CanStore codec laws next
      → (after : Entries) × (store id (check_swap codec entries id current.revision next) entries
          ≡ (after, ok tt))
  unfolding check_swap store
  memory_accepts entries id current next good h at_id follows (bytes, wrote) =
      let (old, found, read) = viewed entries id current good h in
      let counted : checked_add u64_bound current.revision 1 ≡ some (current.revision + 1) =
        let small : current.revision + 1 < u64_bound =
          omega (arith, follows.revision, follows.fits) in
        ground arith in
      let same_id : bytes_eq next.session.ceremony_id id ≡ true =
        subst (λ k. bytes_eq next.session.ceremony_id k ≡ true) at_id
          (bytes_eq_refl next.session.ceremony_id) in
      let next_revision : (next.revision == current.revision + 1) ≡ true =
        let e = follows.revision in ground arith in
      let same_revision : (current.revision == current.revision) ≡ true = ground arith in
      (
        put_entry id bytes entries,
        rw (
          counted, same_id, next_revision, wrote, found, read, same_revision, follows.binding,
          follows.transition,
        ),
      )

  -- The journal in memory is a journal: it reads what was stored, each call is atomic, and a swap
  -- replaces a record by one that follows it. Stored records are read back as they were, up to what
  -- serde is documented to do.
  pub memory_journal-JournalContract :
      JournalContract (memory_journal codec) IsCanonical memory_view (CanStore codec laws)
  unfolding memory_journal
  memory_journal-JournalContract = record {
    loads = memory_load-view;
    creates = λ j self good. create_outcome j self (check_create codec j self) good refl;
    swaps = λ j id expected next good.
        swap_outcome j id expected next (check_swap codec j id expected next) good refl;
    accepts = memory_accepts;
  }
