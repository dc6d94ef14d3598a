-- ===== src/Ceremony/Rounds.antt =====
-- src/dkg_ceremony.rs: starting and recovering a ceremony, and its rounds.
use asteria.Base.{
  ℕ, Bool, true, false, not, List, [], ◌∷◌, none, Bytes, bytes_eq, ◌==◌, ◌||◌, if◌then◌else◌,
}
use asteria.Base.Result.{Result, ok, map_err}
use asteria.Base.Result.{fail_if as check, ok_or, ◌>>=◌ as ◌>>=ᵣ◌, ◌>>◌ as ◌>>ᵣ◌}
use asteria.Base.Action.{lift, ◌>>=◌, ◌>>◌, fail_if}
use asteria.Ceremony.Types.{
  DkgSession, Phase, Deadlines, Record, Transcript, ProviderState, CeremonyError, session_fault,
  unbound_session, unbound_recovery, wrong_validator, wrong_provider_state, undecodable,
  unbound_round1, unbound_round2, envelope_mismatch, not_found, journal, provider, transport,
  invalid_record, invalid_message, record_version,
}
use asteria.Ceremony.Record.{validate_session, validate_deadlines, session_eq}
use asteria.Ceremony.Journal.{Journal}
use asteria.Ceremony.Coordinator.{
  Transport, Provider, Coordinator, registry_digest, validate_registry_identity,
  validate_checkpoint,
}

-- `expected_provider_states(phase).contains(&state)`
abbrev pub expected_provider_state : Phase → ProviderState → Bool
expected_provider_state Phase.initial ProviderState.ready = true
expected_provider_state Phase.initial ProviderState.round1 = true
expected_provider_state Phase.round1 ProviderState.round1 = true
expected_provider_state Phase.round2 ProviderState.round2 = true
expected_provider_state Phase.finalize ProviderState.round2 = true
expected_provider_state Phase.finalize ProviderState.completed = true
expected_provider_state Phase.completed ProviderState.completed = true
expected_provider_state Phase.aborted ProviderState.quarantined = true
expected_provider_state _ _ = false

-- `values().map(decode).collect()`
unfoldable pub decode_values :
    {A : Type 0} → (Bytes → Result CeremonyError A) → Transcript → Result CeremonyError (List A)
decode_values decode [] = ok []
decode_values decode ((_, bytes) ∷ entries) =
    decode bytes >>=ᵣ λ value. decode_values decode entries >>=ᵣ λ values. ok (value ∷ values)

-- The messages of round one, less the one's own.
unfoldable pub decode_others :
    {A : Type 0} → ℕ → (Bytes → Result CeremonyError A) → Transcript → Result CeremonyError (List A)
decode_others own decode [] = ok []
decode_others own decode ((sender, bytes) ∷ entries) =
    let rest = decode_others own decode entries in
    if sender == own
    then rest
    else (decode bytes >>=ᵣ λ value. rest >>=ᵣ λ values. ok (value ∷ values))

abbrev pub first_record : DkgSession → ℕ → Bytes → Deadlines → Bytes → Record
first_record session validator_id digest deadlines saved = record {
  version = record_version;
  revision = 1;
  session = session;
  validator_id = validator_id;
  registry_digest = digest;
  phase = Phase.initial;
  deadlines = deadlines;
  provider_checkpoint = saved;
  local_round1_message = none;
  local_round1_envelope = none;
  round1_certificates = [];
  round1_messages = [];
  outgoing_round2_envelopes = [];
  incoming_round2_envelopes = [];
  incoming_round2_messages = [];
  completion = none;
  abort = none;
}

module _ (t : Transport) where
  abbrev pub decode_broadcast : Bytes → Result CeremonyError t.BroadcastEnvelope
  decode_broadcast bytes = map_err transport (t.broadcast_from_json bytes)

  abbrev pub decode_point_to_point : Bytes → Result CeremonyError t.PointEnvelope
  decode_point_to_point bytes = map_err transport (t.point_from_json bytes)

  abbrev pub decode_round1 : Bytes → Result CeremonyError t.Round1Message
  decode_round1 bytes = map_err (λ e. invalid_message (undecodable e)) (t.round1_from_json bytes)

  abbrev pub decode_round2 : Bytes → Result CeremonyError t.Round2Message
  decode_round2 bytes = map_err (λ e. invalid_message (undecodable e)) (t.round2_from_json bytes)

  unfoldable pub validate_local_round1 :
      DkgSession
      → ℕ
      → t.Registry
      → t.Round1Message
      → t.BroadcastEnvelope
      → Result CeremonyError (Unit {0})
  validate_local_round1 session validator_id registry message envelope =
      check
        (not (session_eq (t.round1_session message) session)
          || not (t.round1_sender message == validator_id))
        (invalid_message unbound_round1)
      >>ᵣ (map_err transport (t.registry_peer registry validator_id) >>=ᵣ λ peer.
          map_err transport (t.open_round1_broadcast session peer envelope) >>=ᵣ λ _. ok tt)

  unfoldable pub validate_outgoing_round2 :
      DkgSession
      → ℕ
      → t.Registry
      → t.Round2Message
      → t.PointEnvelope
      → Result CeremonyError (Unit {0})
  validate_outgoing_round2 session validator_id registry message envelope =
      check
        (not (session_eq (t.round2_session message) session)
          || not (t.round2_sender message == validator_id)
          || t.round2_recipient message == validator_id)
        (invalid_message unbound_round2)
      >>ᵣ (map_err transport (t.registry_peer registry (t.round2_recipient message)) >>=ᵣ λ _.
          map_err transport (t.point_to_json envelope) >>=ᵣ λ _.
          check
            (not (session_eq (t.point_session envelope) session)
              || not (t.point_sender envelope == validator_id)
              || not (t.point_recipient envelope == t.round2_recipient message))
            (invalid_message envelope_mismatch))

  module _ {J P : Type 0} (durable : Journal J) (crypto : Provider t P) where
    -- A coordinator with its record, from the journal and the provider that the call is given.
    unfoldable pub start :
        J
        → P
        → t.Registry
        → DkgSession
        → Deadlines
        → Bytes
        → ℕ
        → J × Result CeremonyError (Coordinator t J P)
    unfolding registry_digest validate_registry_identity validate_checkpoint
    start store secrets registry session deadlines expected_chain_domain expected_epoch =
        (do
          lift (map_err (λ e. invalid_record (session_fault e)) (validate_session session))
          lift (map_err invalid_record (validate_deadlines deadlines))
          fail_if
              (not (bytes_eq session.chain_domain expected_chain_domain)
                || not (session.epoch == expected_epoch))
              (invalid_record unbound_session)
          let peer = crypto.local_peer secrets
          lift (validate_registry_identity t registry peer)
          saved ← lift (map_err provider (crypto.checkpoint secrets session))
          lift (validate_checkpoint saved)
          digest ← lift (registry_digest t registry)
          let fresh = first_record session (t.peer_validator_id peer) digest deadlines saved
          created ← λ s. (let (s', r) = durable.create fresh s in (s', map_err journal r))
          λ s. (
            s,
            ok (record { journal = s; provider = secrets; registry = registry; record_ = fresh }),
          ))
          store

    -- A coordinator with the record of the journal, and with what the provider has become.
    unfoldable pub recover :
        J → P → t.Registry → Bytes → Bytes → ℕ → P × Result CeremonyError (Coordinator t J P)
    unfolding registry_digest validate_registry_identity
    recover store secrets registry ceremony_id expected_chain_domain expected_epoch =
        (do
          found ← lift (map_err journal (durable.load store ceremony_id))
          loaded ← lift (ok_or found (journal not_found))
          fail_if
              (not (bytes_eq loaded.session.ceremony_id ceremony_id)
                || not (bytes_eq loaded.session.chain_domain expected_chain_domain)
                || not (loaded.session.epoch == expected_epoch))
              (invalid_record unbound_recovery)
          digest ← lift (registry_digest t registry)
          fail_if (not (bytes_eq loaded.registry_digest digest)) (invalid_record unbound_recovery)
          let peer = crypto.local_peer secrets
          lift (validate_registry_identity t registry peer)
          fail_if (not (t.peer_validator_id peer == loaded.validator_id))
              (invalid_record wrong_validator)
          let restore =
              crypto.restore_checkpoint loaded.session loaded.phase loaded.provider_checkpoint
          state ← λ s. (let (s', r) = restore s in (s', map_err provider r))
          fail_if (not (expected_provider_state loaded.phase state))
              (invalid_record wrong_provider_state)
          λ s. (
            s,
            ok (record { journal = store; provider = s; registry = registry; record_ = loaded }),
          ))
          secrets
