-- ===== src/Ceremony/FirstRound.antt =====
-- src/dkg_ceremony.rs: the calls of round one.
use asteria.Base.{ℕ, none, some, Bytes, bytes_eq, lookup, insert}
use asteria.Base.Result.{Result, ok, err, map_err}
use asteria.Base.Result.{ok_or}
use asteria.Base.Action.{pure, lift, get, ◌>>=◌, ◌>>◌, choose}
use asteria.Ceremony.Types.{
  Phase, AbortCode, Record, missing_envelope, provider, invalid_record, serialization, Acceptance,
  new, duplicate,
}
use asteria.Ceremony.Journal.{Journal}
use asteria.Ceremony.Coordinator.{
  Transport, Provider, Ceremony, call, of_provider, of_transport, checkpoint, commit, expect_phase,
  ensure_live, abort_for_failure, abort_for_equivocation, phase_eq,
}
use asteria.Ceremony.Rounds.{decode_broadcast, validate_local_round1}

module _ (t : Transport) {J P : Type 0} (durable : Journal J) (crypto : Provider t P) where
  abbrev C : Type 0 → Type 0
  C A = Ceremony t durable crypto A

  abbrev of_json : Result Bytes Bytes → C Bytes
  of_json r = lift (map_err serialization r)

  -- `canonical(&message)?` and `to_canonical_json().map_err(transport_error)?` of round one, stored.
  unfoldable pub keep_round1 :
      Record → t.Round1Message → t.BroadcastEnvelope → C t.BroadcastEnvelope
  unfolding checkpoint commit
  keep_round1 self message envelope = do
    message_bytes ← of_json (t.round1_to_json message)
    envelope_bytes ← of_transport t durable crypto (t.broadcast_to_json envelope)
    saved ← checkpoint t durable crypto
    commit t durable crypto (record self {
      phase = Phase.round1;
      local_round1_message = some message_bytes;
      local_round1_envelope = some envelope_bytes;
      provider_checkpoint = saved;
    })
    pure envelope

  unfoldable pub begin_round1 : ℕ → C t.BroadcastEnvelope
  unfolding ensure_live expect_phase abort_for_failure validate_local_round1 keep_round1
  begin_round1 now = do
    ensure_live t durable crypto now
    self ← get
    choose (phase_eq self.record_.phase Phase.round1)
        (do
          bytes ← lift (ok_or self.record_.local_round1_envelope (invalid_record missing_envelope))
          lift (decode_broadcast t bytes))
        (do
          expect_phase t durable crypto self.record_ Phase.initial
          made ← call t durable crypto (crypto.begin_round1 self.record_.session)
          (elim made [
            | err e ↦ abort_for_failure t durable crypto now AbortCode.provider_failure (provider e)
            | ok (message, envelope) ↦ do
              lift (
                  validate_local_round1 t self.record_.session self.record_.validator_id
                    self.registry message envelope)
              keep_round1 self.record_ message envelope
          ]))

  unfoldable pub endorse_round1 : t.BroadcastEnvelope → ℕ → C t.Endorsement
  unfolding ensure_live expect_phase checkpoint commit
  endorse_round1 envelope now = do
    ensure_live t durable crypto now
    self ← get
    expect_phase t durable crypto self.record_ Phase.round1
    made ← call t durable crypto (crypto.endorse_round1 self.record_.session envelope)
    endorsement ← of_provider t durable crypto made
    saved ← checkpoint t durable crypto
    commit t durable crypto (record (self.record_) { provider_checkpoint = saved })
    pure endorsement

  unfoldable pub accept_round1_certificate : t.CertifiedEnvelope → ℕ → C Acceptance
  unfolding ensure_live expect_phase abort_for_equivocation commit
  accept_round1_certificate certificate now = do
    ensure_live t durable crypto now
    self ← get
    expect_phase t durable crypto self.record_ Phase.round1
    message ←
        of_transport t durable crypto
          (t.open_certified_round1_broadcast self.record_.session self.registry certificate)
    let sender_id = t.round1_sender message
    message_bytes ← of_json (t.round1_to_json message)
    (elim (lookup sender_id self.record_.round1_messages) [
      | some existing ↦
          choose (bytes_eq existing message_bytes) (pure duplicate)
            (abort_for_equivocation t durable crypto now sender_id)
      | none ↦ do
        certificate_bytes ← of_transport t durable crypto (t.certified_to_json certificate)
        commit t durable crypto (record (self.record_) {
          round1_messages = insert sender_id message_bytes self.record_.round1_messages;
          round1_certificates = insert sender_id certificate_bytes self.record_.round1_certificates;
        })
        pure new
    ])
