-- ===== src/Ceremony/Record.antt =====
-- src/dkg_ceremony.rs: when a record is well formed, its canonical bytes, and the transitions that a
-- journal admits.
use asteria.Base.{
  ℕ, Bool, true, false, not, [], ◌∷◌, ◌++◌, Option, none, some, Bytes, bytes_eq, ◌==◌, leb, ltb,
  ◌&&◌, ◌||◌, length, replicate, if◌then◌else◌,
}
use asteria.Base.Result.{Result, ok, err, ◌>>=◌, ◌>>◌, fail_if, map_err}
use asteria.Ceremony.Types.{
  DkgKind, DkgSession, Phase, Deadlines, Completion, Record, Transcript, RecordFault, SessionFault,
  FormatError, dkg_participants, record_version, max_record_bytes, max_checkpoint_bytes,
  unsupported_version, invalid_identity, invalid_deadlines, session_fault, abort_without_tombstone,
  tombstone_without_abort, missing_completion, unbound_completion, early_completion,
  invalid_transcript, zero_chain_domain, zero_ceremony_id, zero_epoch, zero_previous_key_id,
}

-- `[0; 32]`
abbrev pub is_zero_hash : Bytes → Bool
is_zero_hash h = bytes_eq h (replicate 32 0)

abbrev pub kind_eq : DkgKind → DkgKind → Bool
kind_eq DkgKind.initial DkgKind.initial = true
kind_eq (DkgKind.refresh a) (DkgKind.refresh b) = bytes_eq a b
kind_eq _ _ = false

abbrev pub session_eq : DkgSession → DkgSession → Bool
session_eq a b =
    bytes_eq a.chain_domain b.chain_domain
    && bytes_eq a.ceremony_id b.ceremony_id
    && a.epoch == b.epoch
    && kind_eq a.kind b.kind

abbrev pub deadlines_eq : Deadlines → Deadlines → Bool
deadlines_eq a b =
    a.round1_unix_ms == b.round1_unix_ms
    && a.round2_unix_ms == b.round2_unix_ms
    && a.finalize_unix_ms == b.finalize_unix_ms

abbrev pub is_aborted : Phase → Bool
is_aborted Phase.aborted = true
is_aborted _ = false

abbrev pub is_completed : Phase → Bool
is_completed Phase.completed = true
is_completed _ = false

abbrev pub is_terminal : Phase → Bool
is_terminal phase = is_completed phase || is_aborted phase

abbrev pub deadline_for : Deadlines → Phase → Option ℕ
deadline_for deadlines Phase.initial = some deadlines.round1_unix_ms
deadline_for deadlines Phase.round1 = some deadlines.round1_unix_ms
deadline_for deadlines Phase.round2 = some deadlines.round2_unix_ms
deadline_for deadlines Phase.finalize = some deadlines.finalize_unix_ms
deadline_for deadlines Phase.completed = none
deadline_for deadlines Phase.aborted = none

abbrev pub is_some : {A : Type 0} → Option A → Bool
is_some (some _) = true
is_some none = false

-- `(1..=DKG_PARTICIPANTS).contains(&id)`
abbrev pub is_participant : ℕ → Bool
is_participant id = leb 1 id && leb id dkg_participants

unfoldable pub validate_kind : DkgKind → Result SessionFault (Unit {0})
validate_kind DkgKind.initial = ok tt
validate_kind (DkgKind.refresh key_id) = fail_if (is_zero_hash key_id) zero_previous_key_id

unfoldable pub validate_session : DkgSession → Result SessionFault (Unit {0})
unfolding validate_kind
validate_session self = do
  fail_if (is_zero_hash self.chain_domain) zero_chain_domain
  fail_if (is_zero_hash self.ceremony_id) zero_ceremony_id
  fail_if (self.epoch == 0) zero_epoch
  validate_kind self.kind

unfoldable pub validate_deadlines : Deadlines → Result RecordFault (Unit {0})
validate_deadlines self =
    fail_if
      (self.round1_unix_ms == 0
        || leb self.round2_unix_ms self.round1_unix_ms
        || leb self.finalize_unix_ms self.round2_unix_ms)
      invalid_deadlines

unfoldable pub validate_completion : Completion → DkgSession → Result RecordFault (Unit {0})
validate_completion self session =
    fail_if
      (not (is_participant self.validator_id)
        || not (self.epoch == session.epoch)
        || is_zero_hash self.public_key
        || is_zero_hash self.key_id)
      unbound_completion

unfoldable pub validate_abort : Record → Result RecordFault (Unit {0})
validate_abort self =
    if is_aborted self.phase
    then fail_if (not (is_some self.abort) || is_some self.completion) abort_without_tombstone
    else fail_if (is_some self.abort) tombstone_without_abort

unfoldable pub validate_result : Record → Result RecordFault (Unit {0})
unfolding validate_completion
validate_result self =
    if is_completed self.phase
    then elim self.completion [
      | some completion ↦ validate_completion completion self.session
      | none ↦ err missing_completion
    ]
    else fail_if (is_some self.completion) early_completion

unfoldable pub validate_transcript : Transcript → Result RecordFault (Unit {0})
validate_transcript [] = ok tt
validate_transcript ((id, bytes) ∷ entries) = do
  fail_if (not (is_participant id) || length bytes == 0) invalid_transcript
  validate_transcript entries

unfoldable pub validate_shape : Record → Result RecordFault (Unit {0})
unfolding validate_session validate_deadlines validate_abort validate_result validate_transcript
validate_shape self = do
  fail_if (not (self.version == record_version) || self.revision == 0) unsupported_version
  map_err session_fault (validate_session self.session)
  fail_if
      (not (is_participant self.validator_id)
        || is_zero_hash self.registry_digest
        || ltb max_checkpoint_bytes (length self.provider_checkpoint))
      invalid_identity
  validate_deadlines self.deadlines
  validate_abort self
  validate_result self
  validate_transcript (
      self.round1_certificates ++ self.round1_messages ++ self.outgoing_round2_envelopes
      ++ self.incoming_round2_envelopes ++ self.incoming_round2_messages)

-- `serde_jcs::to_vec` and `serde_json::from_slice` on records.
pub record RecordCodec : Type 0 where
  pub to_vec : Record → Result Bytes Bytes
  pub from_slice : Bytes → Result Bytes Record

module _ (codec : RecordCodec) where
  unfoldable pub to_canonical_json : Record → Result FormatError Bytes
  unfolding validate_shape
  to_canonical_json self = do
    map_err FormatError.invalid_record (validate_shape self)
    bytes ← map_err FormatError.serialization (codec.to_vec self)
    fail_if (ltb max_record_bytes (length bytes)) FormatError.record_too_large
    ok bytes

  unfoldable pub decode_canonical : Bytes → Result FormatError Record
  decode_canonical bytes = do
    value ← map_err FormatError.serialization (codec.from_slice bytes)
    again ← map_err FormatError.serialization (codec.to_vec value)
    fail_if (not (bytes_eq again bytes)) FormatError.non_canonical
    ok value

  unfoldable pub from_canonical_json : Bytes → Result FormatError Record
  unfolding decode_canonical validate_shape
  from_canonical_json bytes = do
    fail_if (length bytes == 0 || ltb max_record_bytes (length bytes)) FormatError.record_too_large
    value ← decode_canonical bytes
    map_err FormatError.invalid_record (validate_shape value)
    ok value

unfoldable pub valid_phase_transition : Phase → Phase → Bool
valid_phase_transition Phase.initial Phase.round1 = true
valid_phase_transition Phase.initial Phase.aborted = true
valid_phase_transition Phase.round1 Phase.round1 = true
valid_phase_transition Phase.round1 Phase.round2 = true
valid_phase_transition Phase.round1 Phase.aborted = true
valid_phase_transition Phase.round2 Phase.round2 = true
valid_phase_transition Phase.round2 Phase.finalize = true
valid_phase_transition Phase.round2 Phase.aborted = true
valid_phase_transition Phase.finalize Phase.completed = true
valid_phase_transition Phase.finalize Phase.aborted = true
valid_phase_transition _ _ = false

-- The fields that a journal never lets change.
unfoldable pub same_binding : Record → Record → Bool
same_binding current next =
    current.version == next.version
    && session_eq current.session next.session
    && current.validator_id == next.validator_id
    && bytes_eq current.registry_digest next.registry_digest
    && deadlines_eq current.deadlines next.deadlines
