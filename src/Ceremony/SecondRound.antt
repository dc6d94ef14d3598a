-- ===== src/Ceremony/SecondRound.antt =====
-- src/dkg_ceremony.rs: the calls of round two.
use asteria.Base.{
  ℕ, Bool, false, not, List, [], ◌∷◌, Option, none, some, Bytes, bytes_eq, ◌==◌, ◌||◌, length,
  lookup, insert,
}
use asteria.Base.Result.{Result, ok, err, map_err}
use asteria.Base.Action.{pure, lift, get, ◌>>=◌, ◌>>◌, fail_if, choose}
use asteria.Ceremony.Types.{
  Phase, AbortCode, Record, Transcript, unbound_incoming, wrong_message_count, duplicate_recipient,
  provider, not_ready, invalid_message, serialization, Acceptance, new, duplicate, dkg_participants,
}
use asteria.Ceremony.Record.{session_eq}
use asteria.Ceremony.Journal.{Journal}
use asteria.Ceremony.Coordinator.{
  Transport, Provider, Coordinator, Ceremony, call, of_provider, of_transport, checkpoint, commit,
  expect_phase, ensure_live, abort_for_failure, abort_for_equivocation, phase_eq,
}
use asteria.Ceremony.Rounds.{
  decode_values, decode_others, decode_point_to_point, decode_round1, validate_outgoing_round2,
}

-- Whether the map has these bytes.
abbrev is_known : Option Bytes → Bytes → Bool
is_known (some existing) bytes = bytes_eq existing bytes
is_known none bytes = false

module _ (t : Transport) {J P : Type 0} (durable : Journal J) (crypto : Provider t P) where
  abbrev C : Type 0 → Type 0
  C A = Ceremony t durable crypto A

  abbrev of_json : Result Bytes Bytes → C Bytes
  of_json r = lift (map_err serialization r)

  -- The loop over what the provider made: each message is checked, each recipient stands once, and
  -- the envelopes are collected.
  unfoldable pub collect_outgoing :
      ℕ
      → Record
      → t.Registry
      → List (t.Round2Message × t.PointEnvelope)
      → List (ℕ × Unit {0})
      → Transcript
      → C Transcript
  unfolding validate_outgoing_round2 abort_for_failure
  collect_outgoing now self registry [] recipients envelopes = pure envelopes
  collect_outgoing now self registry ((message, envelope) ∷ outgoing) recipients envelopes =
      let rest = collect_outgoing now self registry outgoing in
      let recipient = t.round2_recipient message in
      do
        lift (validate_outgoing_round2 t self.session self.validator_id registry message envelope)
        (elim (lookup recipient recipients) [
          | some _ ↦
              abort_for_failure t durable crypto now AbortCode.round2_semantic_failure
                (invalid_message duplicate_recipient)
          | none ↦ do
            bytes ← of_transport t durable crypto (t.point_to_json envelope)
            rest (insert recipient tt recipients) (insert recipient bytes envelopes)
        ])

  unfoldable pub keep_outgoing :
      ℕ → Coordinator t J P → List (t.Round2Message × t.PointEnvelope) → C (List t.PointEnvelope)
  unfolding collect_outgoing checkpoint commit decode_values
  keep_outgoing now self outgoing = do
    envelopes ←
        collect_outgoing now self.record_ self.registry outgoing []
          self.record_.outgoing_round2_envelopes
    saved ← checkpoint t durable crypto
    commit t durable crypto (record (self.record_) {
      phase = Phase.round2;
      outgoing_round2_envelopes = envelopes;
      provider_checkpoint = saved;
    })
    after ← get
    lift (decode_values (decode_point_to_point t) after.record_.outgoing_round2_envelopes)

  unfoldable pub advance_round2 : ℕ → C (List t.PointEnvelope)
  unfolding ensure_live expect_phase abort_for_failure keep_outgoing decode_values decode_others
  advance_round2 now = do
    ensure_live t durable crypto now
    self ← get
    choose (phase_eq self.record_.phase Phase.round2)
        (lift (decode_values (decode_point_to_point t) self.record_.outgoing_round2_envelopes))
        (do
          expect_phase t durable crypto self.record_ Phase.round1
          fail_if (not (length self.record_.round1_messages == dkg_participants))
              (not_ready dkg_participants (length self.record_.round1_messages))
          messages ← lift (
              decode_others self.record_.validator_id (decode_round1 t)
                self.record_.round1_messages)
          made ← call t durable crypto (crypto.advance_round2 self.record_.session messages)
          (elim made [
            | err e ↦
                abort_for_failure t durable crypto now AbortCode.round2_semantic_failure
                  (provider e)
            | ok outgoing ↦
                choose (not (length outgoing == 3))
                  (abort_for_failure t durable crypto now AbortCode.round2_semantic_failure
                    (invalid_message wrong_message_count))
                  (keep_outgoing now self outgoing)
          ]))

  unfoldable pub accept_round2 : t.PointEnvelope → ℕ → C Acceptance
  unfolding ensure_live expect_phase abort_for_equivocation checkpoint commit
  accept_round2 envelope now = do
    ensure_live t durable crypto now
    self ← get
    expect_phase t durable crypto self.record_ Phase.round2
    let sender_id = t.point_sender envelope
    envelope_bytes ← of_transport t durable crypto (t.point_to_json envelope)
    choose (is_known (lookup sender_id self.record_.incoming_round2_envelopes) envelope_bytes)
        (pure duplicate)
        (do
          made ← call t durable crypto (crypto.open_round2 self.record_.session envelope)
          message ← of_provider t durable crypto made
          fail_if
              (not (session_eq (t.round2_session message) self.record_.session)
                || not (t.round2_sender message == sender_id)
                || not (t.round2_recipient message == self.record_.validator_id))
              (invalid_message unbound_incoming)
          message_bytes ← of_json (t.round2_to_json message)
          (elim (lookup sender_id self.record_.incoming_round2_messages) [
            | some existing ↦
                choose (bytes_eq existing message_bytes) (pure duplicate)
                  (abort_for_equivocation t durable crypto now sender_id)
            | none ↦ do
              saved ← checkpoint t durable crypto
              commit t durable crypto (record (self.record_) {
                incoming_round2_messages =
                    insert sender_id message_bytes self.record_.incoming_round2_messages;
                incoming_round2_envelopes =
                    insert sender_id envelope_bytes self.record_.incoming_round2_envelopes;
                provider_checkpoint = saved;
              })
              pure new
          ]))
