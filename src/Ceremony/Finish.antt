-- ===== src/Ceremony/Finish.antt =====
-- src/dkg_ceremony.rs: the end of a ceremony keeps the invariant of the coordinator.
use asteria.Base.{ℕ, ◌≡◌, refl, ap, some, arith, inl, inr, length, not-eq-false, ==_iff}
use asteria.Base.Result.{ok, Result-cases, map_err-eq-ok, fail_if-eq-ok}
use asteria.Ceremony.Types.{Phase, AbortCode, Completion, Record, provider, dkg_participants}
use asteria.Ceremony.Record.{validate_completion}
use asteria.Ceremony.Coordinator.{Transport, expect_phase, operator_abort}
use asteria.Ceremony.Closing.{enter_finalize, finish, finalize, abort}
use asteria.Ceremony.Evidence.{HasEvidence, HasMessagesOf, past_round1, past_round2}
use asteria.Ceremony.Keeps.{
  InSync, Keeps, Setting, State, Any, KeepsAll, bind-Keeps, lift-Keeps, result-Keeps, choose-Keeps,
  get-Keeps, fail-Keeps, pure-Keeps, weaken-Keeps, phase_eq→eq,
}
use asteria.Ceremony.Commits.{call-Keeps, commit-Keeps}
use asteria.Ceremony.Aborts.{
  checkpoint-Keeps, abort_for_failure-Keeps, abort_internal-Keeps, ensure_live-Keeps,
}

-- From round two on with the messages of round two.
finalize-HasEvidence :
    (t : Transport) (self : Record)
    → self.phase ≡ Phase.finalize
    → length self.round1_messages ≡ dkg_participants
    → length self.incoming_round2_messages ≡ 3
    → HasMessagesOf t self
    → HasEvidence t self
finalize-HasEvidence t self e sent received messages = record {
  messages = messages;
  round1 = λ _. sent;
  round2 = λ _. received;
  result = λ p. ground arith;
}

completed-HasEvidence :
    (t : Transport) (self : Record) (c : Completion)
    → length self.round1_messages ≡ dkg_participants
    → length self.incoming_round2_messages ≡ 3
    → self.completion ≡ some c
    → validate_completion c self.session ≡ ok tt
    → HasMessagesOf t self
    → HasEvidence t self
completed-HasEvidence t self c sent received at_end valid messages = record {
  messages = messages;
  round1 = λ _. sent;
  round2 = λ _. received;
  result = λ _. (c, at_end, valid);
}

module _ (m : Setting) where
  open m use {t, J, P, durable, crypto}

  pub enter_finalize-Keeps :
      (self : State m)
      → InSync m self
      → Keeps m self
          (λ after _. after.record_.phase ≡ Phase.finalize)
          (enter_finalize t durable crypto self)
  unfolding enter_finalize expect_phase
  enter_finalize-Keeps self h = get-Keeps m self _ (
      choose-Keeps m self _ _ _
        (λ at_round2. lift-Keeps m self _ _ h λ _ enough.
          weaken-Keeps m self _
            (commit-Keeps m self (record (self.record_) { phase = Phase.finalize }) h
              (finalize-HasEvidence t _ refl
                (h.evidence.round1 (ap past_round1 (phase_eq→eq _ _ at_round2)))
                ((==_iff _ _).0 (not-eq-false _ (fail_if-eq-ok _ _ enough))) h.evidence.messages))
            λ after _ (_, e). ap (λ (r : Record). r.phase) e)
        λ _. result-Keeps m self _ _ h λ _ e.
          phase_eq→eq self.record_.phase Phase.finalize (not-eq-false _ (fail_if-eq-ok _ _ e)))

  finish-Keeps :
      (self : State m) (now : ℕ) → InSync m self → KeepsAll m (finish t durable crypto now) self
  unfolding finish
  finish-Keeps self now h =
      bind-Keeps m self _ _ (enter_finalize-Keeps self h) λ next _ h' at_finalize.
        get-Keeps m next _ (
          lift-Keeps m next _ _ h' λ received _.
            bind-Keeps m next _ _
              (call-Keeps m next (crypto.finalize next.record_.session received) h')
              λ called made h'' _. elim (Result-cases made) [
                | inr (e, r) ↦ rw r (
                    abort_for_failure-Keeps m called (Any m) now AbortCode.finalize_semantic_failure
                      (provider e) h'')
                | inl (completion, r) ↦ rw r (
                    lift-Keeps m called _ _ h'' λ _ valid.
                      bind-Keeps m called _ _ (checkpoint-Keeps m called h'') λ last saved h3 _.
                        bind-Keeps m last _ _
                          (commit-Keeps m last
                            (record (next.record_) {
                              phase = Phase.completed;
                              completion = some completion;
                              provider_checkpoint = saved;
                            })
                            h3
                            (completed-HasEvidence t _ completion
                              (h'.evidence.round1 (ap past_round1 at_finalize))
                              (h'.evidence.round2 (ap past_round2 at_finalize)) refl
                              (map_err-eq-ok _ _ valid) h'.evidence.messages))
                          λ final _ h4 _. pure-Keeps m final (Any m) completion h4 tt)
              ])

  pub finalize-Keeps :
      (self : State m) (now : ℕ) → InSync m self → KeepsAll m (finalize t durable crypto now) self
  unfolding finalize
  finalize-Keeps self now h = bind-Keeps m self _ _ (ensure_live-Keeps m self now h) λ next _ h' _.
      get-Keeps m next _ (
        choose-Keeps m next _ _ _ (λ _. result-Keeps m next (Any m) _ h' λ _ _. tt)
          λ _. finish-Keeps next now h')

  pub abort-Keeps :
      (self : State m) (now : ℕ) → InSync m self → KeepsAll m (abort t durable crypto now) self
  unfolding abort
  abort-Keeps self now h = get-Keeps m self _ (
      choose-Keeps m self _ _ _ (λ _. pure-Keeps m self (Any m) tt h tt)
        λ _.
          choose-Keeps m self _ _ _ (λ _. fail-Keeps m self (Any m) _ h)
            λ _. abort_internal-Keeps m self now AbortCode.operator operator_abort h)
