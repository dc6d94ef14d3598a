-- ===== src/Ceremony/Aborts.antt =====
-- src/dkg_ceremony.rs: checks, commits and aborts keep the invariant of the coordinator.
use asteria.Base.{not-eq-false, ℕ, ◌≡◌, Bytes}
use asteria.Base.Result.{Result, fail_if-eq-ok}
use asteria.Base.Action.{◌>>=◌}
use asteria.Ceremony.Types.{Phase, AbortCode, Record, ProviderError, CeremonyError, timeout}
use asteria.Ceremony.Coordinator.{
  Transport, Ceremony, Detail, failure, deadline_elapsed, checkpoint, expect_phase, tombstone,
  hash_detail, abort_internal, abort_for_failure, ensure_live,
}
use asteria.Ceremony.Evidence.{HasEvidence, HasMessagesOf}
use asteria.Ceremony.Keeps.{
  InSync, Keeps, Setting, State, Any, KeepsAll, bind-Keeps, lift-Keeps, result-Keeps, choose-Keeps,
  get-Keeps, fail-Keeps, pure-Keeps, phase_eq→eq,
}
use asteria.Ceremony.Commits.{call-Keeps, commit-Keeps}

-- An aborted record keeps the messages that it has.
pub tombstone-HasEvidence :
    (t : Transport) (self : Record) (now : ℕ) (code : AbortCode) (hash : Bytes)
    (saved : Result ProviderError Bytes)
    → HasMessagesOf t self
    → HasEvidence t (tombstone self now code hash saved)
unfolding tombstone
tombstone-HasEvidence t self now code hash saved messages = record {
  messages = messages;
  round1 = λ e. absurd cc;
  round2 = λ e. absurd cc;
  result = λ e. absurd cc;
}

module _ (m : Setting) where
  open m use {t, J, P, durable, crypto}

  pub checkpoint-Keeps :
      (self : State m) → InSync m self → KeepsAll m (checkpoint t durable crypto) self
  unfolding checkpoint
  checkpoint-Keeps self h = get-Keeps m self _ (
      lift-Keeps m self _ _ h
        λ bytes _. lift-Keeps m self _ _ h λ _ _. pure-Keeps m self (Any m) bytes h tt)

  pub expect_phase-Keeps :
      {B : Type 0} (self : State m) (current : Record) (expected : Phase)
      (f : Unit {0} → Ceremony t durable crypto B) {R : State m → B → Type 0}
      → InSync m self
      → (current.phase ≡ expected → Keeps m self R (f tt self))
      → Keeps m self R ((expect_phase t durable crypto current expected >>= f) self)
  unfolding expect_phase
  expect_phase-Keeps self current expected f h k =
      lift-Keeps m self _ f h
        λ _ e. k (phase_eq→eq current.phase expected (not-eq-false _ (fail_if-eq-ok _ _ e)))

  pub abort_internal-Keeps :
      (self : State m) (now : ℕ) (code : AbortCode) (detail : Detail)
      → InSync m self
      → KeepsAll m (abort_internal t durable crypto now code detail) self
  unfolding abort_internal
  abort_internal-Keeps self now code detail h = get-Keeps m self _ (
      choose-Keeps m self _ _ _ (λ _. pure-Keeps m self (Any m) tt h tt)
        λ _.
          bind-Keeps m self _ _ (call-Keeps m self (crypto.quarantine self.record_.session code) h)
            λ next quarantined h' _. get-Keeps m next _ (
              bind-Keeps m next _ _
                (commit-Keeps m next _ h' (
                  tombstone-HasEvidence t next.record_ now code (hash_detail t detail)
                    (crypto.checkpoint next.provider next.record_.session) h'.evidence.messages))
                λ last _ h'' _. result-Keeps m last (Any m) _ h'' λ _ _. tt))

  pub abort_for_failure-Keeps :
      {A : Type 0} (self : State m) (Q : State m → A → Type 0) (now : ℕ) (code : AbortCode)
      (error : CeremonyError)
      → InSync m self
      → Keeps m self Q (abort_for_failure t durable crypto now code error self)
  unfolding abort_for_failure
  abort_for_failure-Keeps self Q now code error h =
      bind-Keeps m self _ _ (abort_internal-Keeps self now code (failure error) h)
        λ next _ h' _. get-Keeps m next _ (fail-Keeps m next Q _ h')

  pub ensure_live-Keeps :
      (self : State m) (now : ℕ)
      → InSync m self
      → KeepsAll m (ensure_live t durable crypto now) self
  unfolding ensure_live
  ensure_live-Keeps self now h = get-Keeps m self _ (
      choose-Keeps m self _ _ _ (λ _. fail-Keeps m self (Any m) _ h)
        λ _.
          choose-Keeps m self _ _ _ (λ _. pure-Keeps m self (Any m) tt h tt)
            λ _.
              choose-Keeps m self _ _ _
                (λ _.
                  bind-Keeps m self _ _ (abort_internal-Keeps self now timeout deadline_elapsed h)
                    λ next _ h' _. fail-Keeps m next (Any m) _ h')
                λ _. pure-Keeps m self (Any m) tt h tt)
