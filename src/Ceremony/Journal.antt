-- ===== src/Ceremony/Journal.antt =====
-- src/dkg_ceremony.rs: the durable journal, as an interface, and the journal in memory.
use asteria.Base.{
  ℕ, Bool, not, List, [], ◌∷◌, Option, none, some, Bytes, bytes_eq, ◌==◌, ◌||◌, length,
  if◌then◌else◌, checked_add, u64_bound,
}
use asteria.Base.Result.{Result, ok, err, ◌>>=◌, ◌>>◌, fail_if, ok_or, map_err}
use asteria.Base.Action.{Action}
use asteria.Ceremony.Types.{
  Record, JournalError, already_exists, not_found, revision_conflict, invalid_data, format,
  next_revision_overflow, wrong_next, immutable_binding, invalid_transition,
}
use asteria.Ceremony.Record.{
  RecordCodec, to_canonical_json, from_canonical_json, same_binding, valid_phase_transition,
}

pub record Journal (J : Type 0) : Type 0 where
  pub create : Record → Action J JournalError (Unit {0})
  pub load : J → Bytes → Result JournalError (Option Record)
  pub compare_and_swap : Bytes → ℕ → Record → Action J JournalError (Unit {0})

-- The `BTreeMap<[u8; 32], Vec<u8>>` of the journal in memory.
abbrev pub Entries : Type 0
Entries = List (Bytes × Bytes)

unfoldable pub get_entry : Bytes → Entries → Option Bytes
get_entry id [] = none
get_entry id ((key, bytes) ∷ entries) = if bytes_eq id key then some bytes else get_entry id entries

unfoldable pub put_entry : Bytes → Bytes → Entries → Entries
put_entry id bytes [] = (id, bytes) ∷ []
put_entry id bytes ((key, old) ∷ entries) =
    let rest = put_entry id bytes entries in
    if bytes_eq id key then (id, bytes) ∷ entries else (key, old) ∷ rest

abbrev pub len : Entries → ℕ
len self = length self

abbrev pub is_empty : Entries → Bool
is_empty self = length self == 0

-- An entry is stored where the checks pass.
unfoldable pub store : Bytes → Result JournalError Bytes → Action Entries JournalError (Unit {0})
unfolding put_entry
store id (ok bytes) entries = (put_entry id bytes entries, ok tt)
store id (err e) entries = (entries, err e)

module _ (codec : RecordCodec) where
  unfoldable pub memory_load : Entries → Bytes → Result JournalError (Option Record)
  unfolding get_entry from_canonical_json
  memory_load entries ceremony_id = elim (get_entry ceremony_id entries) [
    | none ↦ ok none
    | some bytes ↦ do
      value ← map_err (λ e. invalid_data (format e)) (from_canonical_json codec bytes)
      ok (some value)
  ]

  -- The checks of `create`, and the bytes to store.
  unfoldable pub check_create : Entries → Record → Result JournalError Bytes
  unfolding get_entry to_canonical_json
  check_create entries self = do
    bytes ← map_err (λ e. invalid_data (format e)) (to_canonical_json codec self)
    elim (get_entry self.session.ceremony_id entries) [
      | some _ ↦ err already_exists
      | none ↦ ok bytes
    ]

  -- The checks of `compare_and_swap`, and the bytes to store.
  unfoldable pub check_swap : Entries → Bytes → ℕ → Record → Result JournalError Bytes
  unfolding get_entry to_canonical_json from_canonical_json same_binding valid_phase_transition
  check_swap entries ceremony_id expected_revision next = do
    next_revision ←
        ok_or (checked_add u64_bound expected_revision 1) (invalid_data next_revision_overflow)
    fail_if
        (not (bytes_eq next.session.ceremony_id ceremony_id)
          || not (next.revision == next_revision))
        (invalid_data wrong_next)
    bytes ← map_err (λ e. invalid_data (format e)) (to_canonical_json codec next)
    current ← ok_or (get_entry ceremony_id entries) not_found
    current_record ← map_err (λ e. invalid_data (format e)) (from_canonical_json codec current)
    fail_if (not (current_record.revision == expected_revision))
        (revision_conflict expected_revision current_record.revision)
    fail_if (not (same_binding current_record next)) (invalid_data immutable_binding)
    fail_if (not (valid_phase_transition current_record.phase next.phase))
        (invalid_data invalid_transition)
    ok bytes

  unfoldable pub memory_journal : Journal Entries
  unfolding memory_load check_create check_swap store
  memory_journal = record {
    create = λ self entries. store self.session.ceremony_id (check_create entries self) entries;
    load = memory_load;
    compare_and_swap =
        λ id expected next entries. store id (check_swap entries id expected next) entries;
  }
