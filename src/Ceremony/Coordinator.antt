-- ===== src/Ceremony/Coordinator.antt =====
-- src/dkg_ceremony.rs: the coordinator, its checks, its commits and its aborts. The cryptographic
-- provider is an interface, as in the code; so are the envelopes of src/dkg_transport.rs and the
-- messages of src/threshold_dkg.rs, of which the coordinator reads no more than is listed.
use asteria.Base.{
  ℕ, Bool, true, false, not, List, [], ◌∷◌, ◌++◌, none, some, Bytes, be_bytes, leb, ltb, length,
  if◌then◌else◌, checked_add, u64_bound,
}
use asteria.Base.Result.{Result, ok, err, map_err}
use asteria.Base.Result.{fail_if as check, ok_or, ◌>>=◌ as ◌>>=ᵣ◌}
use asteria.Base.Action.{Action, pure, fail, lift, get, ◌>>=◌, ◌>>◌, fail_if, choose}
use asteria.Ceremony.Types.{
  DkgSession, Phase, Deadlines, AbortCode, timeout, Completion, Record, ProviderError,
  ProviderState, CeremonyError, JournalError, checkpoint_too_large, revision_overflow,
  max_checkpoint_bytes, unregistered_peer, journal, provider, transport, invalid_record,
  wrong_phase, timed_out, equivocation,
}
use asteria.Ceremony.Record.{deadline_for, is_aborted, is_completed}
use asteria.Ceremony.Journal.{Journal}

-- The text that a tombstone hashes: one of two fixed texts, or that of an error.
pub data Detail : Type 0 where
  operator_abort deadline_elapsed : Detail
  failure : CeremonyError → Detail

-- Messages, envelopes and peers. Their own errors are texts.
pub record Transport : Type 1 where
  pub Peer : Type 0
  pub Registry : Type 0
  pub Round1Message : Type 0
  pub Round2Message : Type 0
  pub BroadcastEnvelope : Type 0
  pub CertifiedEnvelope : Type 0
  pub Endorsement : Type 0
  pub PointEnvelope : Type 0
  pub peer_validator_id : Peer → ℕ
  pub peer_eq : Peer → Peer → Bool
  pub peer_to_json : Peer → Result Bytes Bytes
  pub registry_peer : Registry → ℕ → Result Bytes Peer
  pub registry_peers : Registry → List Peer
  pub round1_session : Round1Message → DkgSession
  pub round1_sender : Round1Message → ℕ
  pub round1_to_json : Round1Message → Result Bytes Bytes
  pub round1_from_json : Bytes → Result Bytes Round1Message
  pub round2_session : Round2Message → DkgSession
  pub round2_sender : Round2Message → ℕ
  pub round2_recipient : Round2Message → ℕ
  pub round2_to_json : Round2Message → Result Bytes Bytes
  pub round2_from_json : Bytes → Result Bytes Round2Message
  pub broadcast_to_json : BroadcastEnvelope → Result Bytes Bytes
  pub broadcast_from_json : Bytes → Result Bytes BroadcastEnvelope
  pub certified_to_json : CertifiedEnvelope → Result Bytes Bytes
  pub point_session : PointEnvelope → DkgSession
  pub point_sender : PointEnvelope → ℕ
  pub point_recipient : PointEnvelope → ℕ
  pub point_to_json : PointEnvelope → Result Bytes Bytes
  pub point_from_json : Bytes → Result Bytes PointEnvelope
  pub open_round1_broadcast : DkgSession → Peer → BroadcastEnvelope → Result Bytes Round1Message
  pub open_certified_round1_broadcast :
      DkgSession → Registry → CertifiedEnvelope → Result Bytes Round1Message
  pub sha256 : Bytes → Bytes
  pub detail_text : Detail → Bytes

-- `DkgCeremonyCryptoProvider`, on a state `P`.
pub record Provider (t : Transport) (P : Type 0) : Type 0 where
  pub local_peer : P → t.Peer
  pub checkpoint : P → DkgSession → Result ProviderError Bytes
  pub restore_checkpoint : DkgSession → Phase → Bytes → Action P ProviderError ProviderState
  pub begin_round1 : DkgSession → Action P ProviderError (t.Round1Message × t.BroadcastEnvelope)
  pub endorse_round1 : DkgSession → t.BroadcastEnvelope → Action P ProviderError t.Endorsement
  pub advance_round2 :
      DkgSession
      → List t.Round1Message
      → Action P ProviderError (List (t.Round2Message × t.PointEnvelope))
  pub open_round2 : DkgSession → t.PointEnvelope → Action P ProviderError t.Round2Message
  pub finalize : DkgSession → List t.Round2Message → Action P ProviderError Completion
  pub quarantine : DkgSession → AbortCode → Action P ProviderError (Unit {0})

pub record Coordinator (t : Transport) (J P : Type 0) : Type 0 where
  pub journal : J
  pub provider : P
  pub registry : t.Registry
  pub record_ : Record

abbrev pub phase_eq : Phase → Phase → Bool
phase_eq Phase.initial Phase.initial = true
phase_eq Phase.round1 Phase.round1 = true
phase_eq Phase.round2 Phase.round2 = true
phase_eq Phase.finalize Phase.finalize = true
phase_eq Phase.completed Phase.completed = true
phase_eq Phase.aborted Phase.aborted = true
phase_eq _ _ = false

-- `ASTERIA_PRIVATE_ORDER_DKG_CEREMONY_V1` and a zero byte
abbrev pub ceremony_domain : Bytes
ceremony_domain =
    65 ∷ 83 ∷ 84 ∷ 69 ∷ 82 ∷ 73 ∷ 65 ∷ 95 ∷ 80 ∷ 82 ∷ 73 ∷ 86 ∷ 65 ∷ 84 ∷ 69 ∷ 95 ∷ 79 ∷ 82 ∷ 68
    ∷ 69 ∷ 82 ∷ 95 ∷ 68 ∷ 75 ∷ 71 ∷ 95 ∷ 67 ∷ 69 ∷ 82 ∷ 69 ∷ 77 ∷ 79 ∷ 78 ∷ 89 ∷ 95 ∷ 86 ∷ 49 ∷ 0
    ∷ []

unfoldable pub validate_checkpoint : Bytes → Result CeremonyError (Unit {0})
validate_checkpoint checkpoint =
    check (ltb max_checkpoint_bytes (length checkpoint)) (invalid_record checkpoint_too_large)

-- The record of an abort, with the provider's checkpoint where it is there and fits.
unfoldable pub tombstone : Record → ℕ → AbortCode → Bytes → Result ProviderError Bytes → Record
tombstone self now code hash saved = record self {
  phase = Phase.aborted;
  abort = some (record { at_unix_ms = now; code = code; detail_hash = hash });
  provider_checkpoint = elim saved [
    | ok bytes ↦ if leb (length bytes) max_checkpoint_bytes then bytes else self.provider_checkpoint
    | err _ ↦ self.provider_checkpoint
  ];
}

module _ (t : Transport) where
  unfoldable pub hash_detail : Detail → Bytes
  hash_detail detail = t.sha256 (ceremony_domain ++ t.detail_text detail)

  -- The bytes that `registry_digest` hashes for the peers.
  unfoldable pub peer_material : List t.Peer → Result CeremonyError Bytes
  peer_material [] = ok []
  peer_material (peer ∷ peers) = map_err transport (t.peer_to_json peer) >>=ᵣ λ bytes.
      peer_material peers >>=ᵣ λ rest. ok (be_bytes 8 (length bytes) ++ bytes ++ rest)

  unfoldable pub registry_digest : t.Registry → Result CeremonyError Bytes
  unfolding peer_material
  registry_digest registry = peer_material (t.registry_peers registry) >>=ᵣ λ material.
      ok (t.sha256 (ceremony_domain ++ material))

  unfoldable pub validate_registry_identity : t.Registry → t.Peer → Result CeremonyError (Unit {0})
  validate_registry_identity registry local =
      map_err transport (t.registry_peer registry (t.peer_validator_id local)) >>=ᵣ λ registered.
      check (not (t.peer_eq registered local)) (invalid_record unregistered_peer)

  module _ {J P : Type 0} (durable : Journal J) (crypto : Provider t P) where
    abbrev pub Ceremony : Type 0 → Type 0
    Ceremony A = Action (Coordinator t J P) CeremonyError A

    -- A call of the provider; its error is handed to the caller as a value.
    abbrev pub call : {A : Type 0} → Action P ProviderError A → Ceremony (Result ProviderError A)
    call m self = let (state, r) = m self.provider in (record self { provider = state }, ok r)

    -- `map_err(provider_error)?`
    abbrev pub of_provider : {A : Type 0} → Result ProviderError A → Ceremony A
    of_provider r = lift (map_err provider r)

    abbrev pub of_transport : {A : Type 0} → Result Bytes A → Ceremony A
    of_transport r = lift (map_err transport r)

    unfoldable pub expect_phase : Record → Phase → Ceremony (Unit {0})
    expect_phase self expected =
        fail_if (not (phase_eq self.phase expected)) (wrong_phase expected self.phase)

    unfoldable pub checkpoint : Ceremony Bytes
    unfolding validate_checkpoint
    checkpoint = do
      self ← get
      bytes ← of_provider (crypto.checkpoint self.provider self.record_.session)
      lift (validate_checkpoint bytes)
      pure bytes

    -- The journal's swap, and its outcome.
    abbrev pub swapped :
        Record
        → Coordinator t J P
        → J × Result JournalError (Unit {0})
        → Coordinator t J P × Result CeremonyError (Unit {0})
    swapped next self (state, ok _) = (record self { journal = state; record_ = next }, ok tt)
    swapped next self (state, err e) = (record self { journal = state }, err (journal e))

    abbrev pub swap : Bytes → ℕ → Record → Ceremony (Unit {0})
    swap id revision next self =
        swapped next self (durable.compare_and_swap id revision next self.journal)

    unfoldable pub commit : Record → Ceremony (Unit {0})
    commit next = do
      self ← get
      revision ←
          lift (
            ok_or (checked_add u64_bound self.record_.revision 1)
              (invalid_record revision_overflow))
      swap self.record_.session.ceremony_id self.record_.revision
          (record next { revision = revision })

    unfoldable pub abort_internal : ℕ → AbortCode → Detail → Ceremony (Unit {0})
    unfolding commit tombstone hash_detail
    abort_internal now code detail = do
      before ← get
      choose (is_aborted before.record_.phase) (pure tt) (do
        quarantined ← call (crypto.quarantine before.record_.session code)
        self ← get
        commit (
            tombstone self.record_ now code (hash_detail detail)
              (crypto.checkpoint self.provider self.record_.session))
        of_provider quarantined)

    -- The error that a failed call returns, after the abort.
    unfoldable pub abort_for_failure : {A : Type 0} → ℕ → AbortCode → CeremonyError → Ceremony A
    unfolding abort_internal
    abort_for_failure now code error = do
      abort_internal now code (failure error)
      self ← get
      fail (CeremonyError.aborted self.record_.phase)

    unfoldable pub abort_for_equivocation : {A : Type 0} → ℕ → ℕ → Ceremony A
    unfolding abort_for_failure
    abort_for_equivocation now validator_id =
        abort_for_failure now AbortCode.equivocation (equivocation validator_id)

    -- Whether the deadline of the phase has passed.
    abbrev pub is_overdue : Deadlines → Phase → ℕ → Bool
    is_overdue deadlines phase now = elim (deadline_for deadlines phase) [
      | some deadline ↦ leb deadline now
      | none ↦ false
    ]

    unfoldable pub ensure_live : ℕ → Ceremony (Unit {0})
    unfolding abort_internal
    ensure_live now = do
      self ← get
      let phase = self.record_.phase
      choose (is_aborted phase) (fail (CeremonyError.aborted phase)) (
          choose (is_completed phase) (pure tt) (
            choose (is_overdue self.record_.deadlines phase now)
              (do abort_internal now timeout deadline_elapsed; fail (timed_out phase)) (pure tt)))
