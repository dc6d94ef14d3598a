-- ===== src/Ceremony/Types.antt =====
-- src/dkg_ceremony.rs: the durable record of a ceremony, and the errors. `DkgSession` is that of
-- src/threshold_dkg.rs.
use asteria.Base.{ℕ, List, Option, Bytes, ◌*◌}

abbrev pub dkg_participants : ℕ
dkg_participants = 4

abbrev pub record_version : ℕ
record_version = 1

abbrev pub max_record_bytes : ℕ
max_record_bytes = 2 * 1024 * 1024

abbrev pub max_checkpoint_bytes : ℕ
max_checkpoint_bytes = 512 * 1024

pub data DkgKind : Type 0 where
  initial : DkgKind
  refresh : Bytes → DkgKind

pub record DkgSession : Type 0 where
  pub chain_domain : Bytes
  pub ceremony_id : Bytes
  pub epoch : ℕ
  pub kind : DkgKind

pub data Phase : Type 0 where
  initial round1 round2 finalize completed aborted : Phase

pub record Deadlines : Type 0 where
  pub round1_unix_ms : ℕ
  pub round2_unix_ms : ℕ
  pub finalize_unix_ms : ℕ

pub data AbortCode : Type 0 where
  timeout equivocation round2_semantic_failure : AbortCode
  finalize_semantic_failure provider_failure operator : AbortCode

pub record Abort : Type 0 where
  pub at_unix_ms : ℕ
  pub code : AbortCode
  pub detail_hash : Bytes

pub record Completion : Type 0 where
  pub validator_id : ℕ
  pub epoch : ℕ
  pub public_key : Bytes
  pub key_id : Bytes

-- A `BTreeMap<u16, Vec<u8>>`.
abbrev pub Transcript : Type 0
Transcript = List (ℕ × Bytes)

pub record Record : Type 0 where
  pub version : ℕ
  pub revision : ℕ
  pub session : DkgSession
  pub validator_id : ℕ
  pub registry_digest : Bytes
  pub phase : Phase
  pub deadlines : Deadlines
  pub provider_checkpoint : Bytes
  pub local_round1_message : Option Bytes
  pub local_round1_envelope : Option Bytes
  pub round1_certificates : Transcript
  pub round1_messages : Transcript
  pub outgoing_round2_envelopes : Transcript
  pub incoming_round2_envelopes : Transcript
  pub incoming_round2_messages : Transcript
  pub completion : Option Completion
  pub abort : Option Abort

-- The errors of `DkgSession::validate`.
pub data SessionFault : Type 0 where
  zero_chain_domain zero_ceremony_id zero_epoch zero_previous_key_id : SessionFault

-- The texts of `InvalidRecord`; `session_fault` carries that of the session's own error.
pub data RecordFault : Type 0 where
  unsupported_version invalid_identity invalid_deadlines : RecordFault
  session_fault : SessionFault → RecordFault
  abort_without_tombstone tombstone_without_abort : RecordFault
  missing_completion unbound_completion early_completion invalid_transcript : RecordFault
  unbound_session unbound_recovery wrong_validator wrong_provider_state : RecordFault
  unregistered_peer checkpoint_too_large missing_envelope missing_result : RecordFault
  revision_overflow : RecordFault

-- Why a record does not become bytes, or bytes do not become a record.
pub data FormatError : Type 0 where
  invalid_record : RecordFault → FormatError
  record_too_large : FormatError
  serialization : Bytes → FormatError
  non_canonical : FormatError

pub data JournalFault : Type 0 where
  format : FormatError → JournalFault
  next_revision_overflow wrong_next immutable_binding invalid_transition : JournalFault

pub data JournalError : Type 0 where
  already_exists not_found : JournalError
  revision_conflict : ℕ → ℕ → JournalError
  storage : Bytes → JournalError
  invalid_data : JournalFault → JournalError

pub data ProviderError : Type 0 where
  transport frost custody state : Bytes → ProviderError

pub data ProviderState : Type 0 where
  ready round1 round2 completed quarantined : ProviderState

-- The texts of `InvalidMessage`.
pub data MessageFault : Type 0 where
  undecodable : Bytes → MessageFault
  unbound_round1 unbound_round2 envelope_mismatch unbound_incoming : MessageFault
  wrong_message_count duplicate_recipient : MessageFault

pub data CeremonyError : Type 0 where
  journal : JournalError → CeremonyError
  provider : ProviderError → CeremonyError
  transport : Bytes → CeremonyError
  invalid_record : RecordFault → CeremonyError
  wrong_phase : Phase → Phase → CeremonyError
  not_ready : ℕ → ℕ → CeremonyError
  timed_out aborted : Phase → CeremonyError
  equivocation : ℕ → CeremonyError
  invalid_message : MessageFault → CeremonyError
  serialization : Bytes → CeremonyError

pub data Acceptance : Type 0 where
  new duplicate : Acceptance
