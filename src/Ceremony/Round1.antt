-- ===== src/Ceremony/Round1.antt =====
-- src/dkg_ceremony.rs: the calls of round one keep the invariant of the coordinator.
use asteria.Base.{ℕ, ◌≡◌, refl, ap, false, some, lookup, arith, inl, inr, Option-cases, insert}
use asteria.Base.Result.{Result-cases, map_err-eq-ok}
use asteria.Ceremony.Types.{Phase, AbortCode, Record, new, duplicate, provider, equivocation}
use asteria.Ceremony.Coordinator.{Transport, abort_for_equivocation}
use asteria.Ceremony.FirstRound.{
  keep_round1, begin_round1, endorse_round1, accept_round1_certificate,
}
use asteria.Ceremony.Evidence.{HasEvidence, HasMessagesOf, past_round1, add_round1}
use asteria.Ceremony.Keeps.{
  InSync, Setting, State, Any, KeepsAll, bind-Keeps, lift-Keeps, result-Keeps, choose-Keeps,
  get-Keeps, pure-Keeps,
}
use asteria.Ceremony.Commits.{call-Keeps, commit-Keeps}
use asteria.Ceremony.Aborts.{
  checkpoint-Keeps, expect_phase-Keeps, abort_for_failure-Keeps, ensure_live-Keeps,
}

-- Before the end of round one a record needs no number of messages.
pub early-HasEvidence :
    (t : Transport) (self : Record)
    → past_round1 self.phase ≡ false
    → HasMessagesOf t self
    → HasEvidence t self
early-HasEvidence t self e messages = record {
  messages = messages;
  round1 = λ p. ground arith;
  round2 = λ p. ground arith;
  result = λ p. ground arith;
}

module _ (m : Setting) where
  open m use {t, J, P, durable, crypto}

  keep_round1-Keeps :
      (self : State m) (current : Record) (message : t.Round1Message)
      (envelope : t.BroadcastEnvelope)
      → InSync m self
      → HasMessagesOf t current
      → KeepsAll m (keep_round1 t durable crypto current message envelope) self
  unfolding keep_round1
  keep_round1-Keeps self current message envelope h messages =
      lift-Keeps m self _ _ h λ message_bytes _. lift-Keeps m self _ _ h λ envelope_bytes _.
        bind-Keeps m self _ _ (checkpoint-Keeps m self h) λ next saved h' _.
          bind-Keeps m next _ _
            (commit-Keeps m next _ h' (
              early-HasEvidence t
                (record current {
                  phase = Phase.round1;
                  local_round1_message = some message_bytes;
                  local_round1_envelope = some envelope_bytes;
                  provider_checkpoint = saved;
                })
                refl messages))
            λ last _ h'' _. pure-Keeps m last (Any m) envelope h'' tt

  pub begin_round1-Keeps :
      (self : State m) (now : ℕ)
      → InSync m self
      → KeepsAll m (begin_round1 t durable crypto now) self
  unfolding begin_round1
  begin_round1-Keeps self now h =
      bind-Keeps m self _ _ (ensure_live-Keeps m self now h) λ next _ h' _. get-Keeps m next _ (
        choose-Keeps m next _ _ _
          (λ _. lift-Keeps m next _ _ h' λ _ _. result-Keeps m next (Any m) _ h' λ _ _. tt)
          λ _. expect_phase-Keeps m next next.record_ Phase.initial _ h' λ _.
            bind-Keeps m next _ _ (call-Keeps m next (crypto.begin_round1 next.record_.session) h')
              λ last made h'' _. elim (Result-cases made) [
                | inr (e, r) ↦ rw r (
                    abort_for_failure-Keeps m last (Any m) now AbortCode.provider_failure
                      (provider e) h'')
                | inl ((message, envelope), r) ↦ rw r (
                    lift-Keeps m last _ _ h'' λ _ _.
                      keep_round1-Keeps last next.record_ message envelope h'' h'.evidence.messages)
              ])

  pub endorse_round1-Keeps :
      (self : State m) (envelope : t.BroadcastEnvelope) (now : ℕ)
      → InSync m self
      → KeepsAll m (endorse_round1 t durable crypto envelope now) self
  unfolding endorse_round1
  endorse_round1-Keeps self envelope now h =
      bind-Keeps m self _ _ (ensure_live-Keeps m self now h) λ next _ h' _. get-Keeps m next _ (
        expect_phase-Keeps m next next.record_ Phase.round1 _ h' λ _.
          bind-Keeps m next _ _
            (call-Keeps m next (crypto.endorse_round1 next.record_.session envelope) h')
            λ called made h'' _. lift-Keeps m called _ _ h'' λ endorsement _.
              bind-Keeps m called _ _ (checkpoint-Keeps m called h'') λ last saved h3 _.
                bind-Keeps m last _ _
                  (commit-Keeps m last (record (next.record_) { provider_checkpoint = saved }) h3
                    (record {
                      messages = h'.evidence.messages;
                      round1 = h'.evidence.round1;
                      round2 = h'.evidence.round2;
                      result = h'.evidence.result;
                    }))
                  λ final _ h4 _. pure-Keeps m final (Any m) endorsement h4 tt)

  pub accept_round1_certificate-Keeps :
      (self : State m) (certificate : t.CertifiedEnvelope) (now : ℕ)
      → InSync m self
      → KeepsAll m (accept_round1_certificate t durable crypto certificate now) self
  unfolding accept_round1_certificate abort_for_equivocation
  accept_round1_certificate-Keeps self certificate now h =
      bind-Keeps m self _ _ (ensure_live-Keeps m self now h) λ next _ h' _. get-Keeps m next _ (
        expect_phase-Keeps m next next.record_ Phase.round1 _ h' λ at_round1.
          lift-Keeps m next _ _ h' λ message opened.
            lift-Keeps m next _ _ h' λ message_bytes encoded.
              elim (Option-cases (lookup (t.round1_sender message) next.record_.round1_messages)) [
                | inr (existing, r) ↦ rw r (
                    choose-Keeps m next _ _ _ (λ _. pure-Keeps m next (Any m) duplicate h' tt)
                      λ _.
                        abort_for_failure-Keeps m next (Any m) now AbortCode.equivocation
                          (equivocation (t.round1_sender message)) h')
                | inl r ↦ rw r (
                    lift-Keeps m next _ _ h' λ certificate_bytes _.
                      bind-Keeps m next _ _
                        (commit-Keeps m next
                          (record (next.record_) {
                            round1_messages =
                                insert (t.round1_sender message) message_bytes
                                  next.record_.round1_messages;
                            round1_certificates =
                                insert (t.round1_sender message) certificate_bytes
                                  next.record_.round1_certificates;
                          })
                          h'
                          (early-HasEvidence t _ (ap past_round1 at_round1) (
                            add_round1 t (t.round1_sender message) message_bytes
                              (
                                next.registry,
                                h'.peers,
                                certificate,
                                message,
                                map_err-eq-ok _ _ opened,
                                refl,
                                map_err-eq-ok _ _ encoded,
                              )
                              h'.evidence.messages)))
                        λ last _ h'' _. pure-Keeps m last (Any m) new h'' tt)
              ])
