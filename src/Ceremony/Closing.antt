-- ===== src/Ceremony/Closing.antt =====
-- src/dkg_ceremony.rs: the calls that end a ceremony.
use asteria.Base.{ℕ, not, some, ◌==◌, length}
use asteria.Base.Result.{ok, err, map_err}
use asteria.Base.Result.{ok_or}
use asteria.Base.Action.{pure, fail, lift, get, ◌>>=◌, ◌>>◌, fail_if, choose}
use asteria.Ceremony.Types.{
  Phase, AbortCode, Completion, missing_result, provider, invalid_record, wrong_phase, not_ready,
}
use asteria.Ceremony.Record.{validate_completion, is_aborted, is_completed}
use asteria.Ceremony.Journal.{Journal}
use asteria.Ceremony.Coordinator.{
  Transport, Provider, Ceremony, call, operator_abort, checkpoint, commit, expect_phase,
  ensure_live, abort_internal, abort_for_failure, phase_eq,
}
use asteria.Ceremony.Rounds.{decode_values, decode_round2}

module _ (t : Transport) {J P : Type 0} (durable : Journal J) (crypto : Provider t P) where
  abbrev C : Type 0 → Type 0
  C A = Ceremony t durable crypto A

  -- From round two the intent to finalize is stored first; in any other phase it must be there.
  unfoldable pub enter_finalize : C (Unit {0})
  unfolding commit expect_phase
  enter_finalize = do
    self ← get
    choose (phase_eq self.record_.phase Phase.round2)
        (do
          fail_if (not (length self.record_.incoming_round2_messages == 3))
              (not_ready 3 (length self.record_.incoming_round2_messages))
          commit t durable crypto (record (self.record_) { phase = Phase.finalize }))
        (expect_phase t durable crypto self.record_ Phase.finalize)

  unfoldable pub finish : ℕ → C Completion
  unfolding enter_finalize decode_values abort_for_failure validate_completion checkpoint commit
  finish now = do
    enter_finalize
    self ← get
    received ← lift (decode_values (decode_round2 t) self.record_.incoming_round2_messages)
    made ← call t durable crypto (crypto.finalize self.record_.session received)
    (elim made [
      | err e ↦
          abort_for_failure t durable crypto now AbortCode.finalize_semantic_failure (provider e)
      | ok completion ↦ do
        lift (map_err invalid_record (validate_completion completion self.record_.session))
        saved ← checkpoint t durable crypto
        commit t durable crypto (record (self.record_) {
          phase = Phase.completed;
          completion = some completion;
          provider_checkpoint = saved;
        })
        pure completion
    ])

  unfoldable pub finalize : ℕ → C Completion
  unfolding ensure_live finish
  finalize now = do
    ensure_live t durable crypto now
    self ← get
    choose (is_completed self.record_.phase)
        (lift (ok_or self.record_.completion (invalid_record missing_result))) (finish now)

  unfoldable pub abort : ℕ → C (Unit {0})
  unfolding abort_internal
  abort now = do
    self ← get
    choose (is_aborted self.record_.phase) (pure tt) (
        choose (is_completed self.record_.phase)
          (fail (wrong_phase Phase.aborted self.record_.phase))
          (abort_internal t durable crypto now AbortCode.operator operator_abort))
