-- ===== src/Ceremony/Round2.antt =====
-- src/dkg_ceremony.rs: the calls of round two keep the invariant of the coordinator.
use asteria.Base.{
  ℕ, ◌≡◌, refl, ap, lookup, insert, arith, inl, inr, Option-cases, List, [], ◌∷◌, length,
  not-eq-false, ==_iff, not, ◌||◌, ◌==◌, Bytes,
}
use asteria.Base.Result.{Result-cases, fail_if-eq-ok, map_err-eq-ok, map_err, ok, fail_if as check}
use asteria.Ceremony.Types.{
  Phase, AbortCode, Record, new, duplicate, provider, equivocation, Transcript, invalid_message,
  CeremonyError, unbound_incoming, duplicate_recipient, wrong_message_count, dkg_participants,
}
use asteria.Ceremony.Coordinator.{Transport, abort_for_equivocation}
use asteria.Ceremony.SecondRound.{collect_outgoing, keep_outgoing, advance_round2, accept_round2}
use asteria.Ceremony.Record.{session_eq}
use asteria.Ceremony.Evidence.{HasEvidence, HasMessagesOf, IsBoundTo, past_round1, add_round2}
use asteria.Ceremony.Keeps.{
  InSync, Setting, State, Any, KeepsAll, bind-Keeps, lift-Keeps, result-Keeps, choose-Keeps,
  get-Keeps, pure-Keeps, unbound,
}
use asteria.Ceremony.Commits.{call-Keeps, commit-Keeps}
use asteria.Ceremony.Aborts.{
  checkpoint-Keeps, expect_phase-Keeps, abort_for_failure-Keeps, ensure_live-Keeps,
}

-- In round two a record needs the messages of round one.
round2-HasEvidence :
    (t : Transport) (self : Record)
    → self.phase ≡ Phase.round2
    → length self.round1_messages ≡ dkg_participants
    → HasMessagesOf t self
    → HasEvidence t self
round2-HasEvidence t self e found messages = record {
  messages = messages;
  round1 = λ _. found;
  round2 = λ p. ground arith;
  result = λ p. ground arith;
}

module _ (m : Setting) where
  open m use {t, J, P, durable, crypto}

  collect_outgoing-Keeps :
      (self : State m) (now : ℕ) (current : Record) (registry : t.Registry)
      (outgoing : List (t.Round2Message × t.PointEnvelope)) (recipients : List (ℕ × Unit {0}))
      (envelopes : Transcript)
      → InSync m self
      → KeepsAll m
          (collect_outgoing t durable crypto now current registry outgoing recipients envelopes)
          self
  unfolding collect_outgoing
  collect_outgoing-Keeps self now current registry [] recipients envelopes h =
      pure-Keeps m self (Any m) envelopes h tt
  collect_outgoing-Keeps self now current registry ((message, envelope) ∷ outgoing) recipients
        envelopes h =
      lift-Keeps m self _ _ h λ _ _.
        elim (Option-cases (lookup (t.round2_recipient message) recipients)) [
          | inr (_, r) ↦ rw r (
              abort_for_failure-Keeps m self (Any m) now AbortCode.round2_semantic_failure
                (invalid_message duplicate_recipient) h)
          | inl r ↦ rw r (
              lift-Keeps m self _ _ h
                λ bytes _. collect_outgoing-Keeps self now current registry outgoing _ _ h)
        ]

  keep_outgoing-Keeps :
      (self before : State m) (now : ℕ) (outgoing : List (t.Round2Message × t.PointEnvelope))
      → InSync m self
      → length before.record_.round1_messages ≡ dkg_participants
      → HasMessagesOf t before.record_
      → KeepsAll m (keep_outgoing t durable crypto now before outgoing) self
  unfolding keep_outgoing
  keep_outgoing-Keeps self before now outgoing h found messages =
      bind-Keeps m self _ _
        (collect_outgoing-Keeps self now before.record_ before.registry outgoing [] _ h)
        λ collected envelopes h' _.
          bind-Keeps m collected _ _ (checkpoint-Keeps m collected h') λ next saved h'' _.
            bind-Keeps m next _ _
              (commit-Keeps m next
                (record (before.record_) {
                  phase = Phase.round2;
                  outgoing_round2_envelopes = envelopes;
                  provider_checkpoint = saved;
                })
                h'' (round2-HasEvidence t _ refl found messages))
              λ last _ h3 _. get-Keeps m last _ (result-Keeps m last (Any m) _ h3 λ _ _. tt)

  pub advance_round2-Keeps :
      (self : State m) (now : ℕ)
      → InSync m self
      → KeepsAll m (advance_round2 t durable crypto now) self
  unfolding advance_round2
  advance_round2-Keeps self now h =
      bind-Keeps m self _ _ (ensure_live-Keeps m self now h) λ next _ h' _. get-Keeps m next _ (
        choose-Keeps m next _ _ _ (λ _. result-Keeps m next (Any m) _ h' λ _ _. tt)
          λ _. expect_phase-Keeps m next next.record_ Phase.round1 _ h' λ _.
            lift-Keeps m next _ _ h' λ _ enough. lift-Keeps m next _ _ h' λ messages _.
              bind-Keeps m next _ _
                (call-Keeps m next (crypto.advance_round2 next.record_.session messages) h')
                λ last made h'' _. elim (Result-cases made) [
                  | inr (e, r) ↦ rw r (
                      abort_for_failure-Keeps m last (Any m) now AbortCode.round2_semantic_failure
                        (provider e) h'')
                  | inl (outgoing, r) ↦ rw r (
                      choose-Keeps m last _ _ _
                        (λ _.
                          abort_for_failure-Keeps m last (Any m) now
                            AbortCode.round2_semantic_failure (invalid_message wrong_message_count)
                            h'')
                        λ _.
                          keep_outgoing-Keeps last next now outgoing h''
                            ((==_iff _ _).0 (not-eq-false _ (fail_if-eq-ok _ _ enough)))
                            h'.evidence.messages)
                ])

  bound_message :
      (self : Record) (sender_id : ℕ) (message : t.Round2Message) (bytes : Bytes)
      → check
          (not (session_eq (t.round2_session message) self.session)
            || not (t.round2_sender message == sender_id)
            || not (t.round2_recipient message == self.validator_id))
          (invalid_message unbound_incoming)
        ≡ ok tt
      → map_err CeremonyError.serialization (t.round2_to_json message) ≡ ok bytes
      → IsBoundTo t self.session self.validator_id (sender_id, bytes)
  bound_message self sender_id message bytes checked encoded =
      let (session, sender, recipient) = unbound _ _ _ (fail_if-eq-ok _ _ checked) in
      (message, map_err-eq-ok _ _ encoded, session, (==_iff _ _).0 sender, (==_iff _ _).0 recipient)

  pub accept_round2-Keeps :
      (self : State m) (envelope : t.PointEnvelope) (now : ℕ)
      → InSync m self
      → KeepsAll m (accept_round2 t durable crypto envelope now) self
  unfolding accept_round2 abort_for_equivocation
  accept_round2-Keeps self envelope now h =
      let sender_id = t.point_sender envelope in
      bind-Keeps m self _ _ (ensure_live-Keeps m self now h) λ next _ h' _. get-Keeps m next _ (
        expect_phase-Keeps m next next.record_ Phase.round2 _ h' λ at_round2.
          lift-Keeps m next _ _ h' λ envelope_bytes _.
            choose-Keeps m next _ _ _ (λ _. pure-Keeps m next (Any m) duplicate h' tt)
              λ _.
                bind-Keeps m next _ _
                  (call-Keeps m next (crypto.open_round2 next.record_.session envelope) h')
                  λ called made h'' _. lift-Keeps m called _ _ h'' λ message _.
                    lift-Keeps m called _ _ h'' λ _ checked.
                      lift-Keeps m called _ _ h'' λ message_bytes encoded.
                        elim (Option-cases
                          (lookup sender_id next.record_.incoming_round2_messages)) [
                            | inr (existing, r) ↦ rw r (
                                choose-Keeps m called _ _ _
                                  (λ _. pure-Keeps m called (Any m) duplicate h'' tt)
                                  λ _.
                                    abort_for_failure-Keeps m called (Any m) now
                                      AbortCode.equivocation (equivocation sender_id) h'')
                            | inl r ↦ rw r (
                                bind-Keeps m called _ _ (checkpoint-Keeps m called h'')
                                  λ last saved h3 _.
                                    bind-Keeps m last _ _
                                      (commit-Keeps m last
                                        (record (next.record_) {
                                          incoming_round2_messages =
                                              insert sender_id message_bytes
                                                next.record_.incoming_round2_messages;
                                          incoming_round2_envelopes =
                                              insert sender_id envelope_bytes
                                                next.record_.incoming_round2_envelopes;
                                          provider_checkpoint = saved;
                                        })
                                        h3
                                        (round2-HasEvidence t _ at_round2
                                          (h'.evidence.round1 (ap past_round1 at_round2))
                                          (add_round2 t sender_id message_bytes
                                            (bound_message next.record_ sender_id message
                                              message_bytes checked encoded)
                                            h'.evidence.messages)))
                                      λ final _ h4 _. pure-Keeps m final (Any m) new h4 tt)
                          ])
