-- ===== src/Ceremony/Deadline.antt =====
-- src/dkg_ceremony.rs: a call at or after the deadline of the phase aborts the ceremony.
use asteria.Base.{ℕ, ◌+◌, ◌<◌, ◌≤◌, ◌≡◌, ◌∙◌, true, Option, some, none, leb, arith, u64_bound}
use asteria.Base.Result.{Result, ok, err, map_err}
use asteria.Base.Action.{◌>>=◌, fail, >>=-err, >>=-ok, get_>>=, choose-true, choose-false}
use asteria.Ceremony.Types.{
  Phase, timeout, Record, CeremonyError, ProviderError, provider, timed_out,
}
use asteria.Ceremony.Record.{deadline_for}
use asteria.Ceremony.Coordinator.{
  Transport, deadline_elapsed, abort_internal, ensure_live, is_overdue,
}
use asteria.Ceremony.Keeps.{InSync, Setting, State}
use asteria.Ceremony.Tombstones.{
  live_phase, aborted_record, aborted_record-Follows, abort_internal-eq,
}
use asteria.Ceremony.Calls.{
  Call, to_begin, to_endorse, to_certify, to_advance, to_receive, to_finalize, to_abort,
}

leb-true : (a b : ℕ) → a ≤ b → leb a b ≡ true
leb-true a b h = ground arith

-- The time of a call that looks at the deadline first; an abort does not.
abbrev pub guarded_at : {t : Transport} → Call t → Option ℕ
guarded_at (to_begin now) = some now
guarded_at (to_endorse _ now) = some now
guarded_at (to_certify _ now) = some now
guarded_at (to_advance now) = some now
guarded_at (to_receive _ now) = some now
guarded_at (to_finalize now) = some now
guarded_at (to_abort _) = none

module _ (m : Setting) where
  open m use {t, J, P, durable, crypto, IsGood, view, Storable, contract}

  -- The tombstone of a timeout.
  abbrev pub timeout_record : State m → ℕ → Record
  timeout_record self now = aborted_record m self now timeout deadline_elapsed

  -- The error of a call that comes late.
  abbrev pub late_error : Phase → Result ProviderError (Unit {0}) → CeremonyError
  late_error phase (ok _) = timed_out phase
  late_error phase (err e) = provider e

  after_abort :
      (self after : State m) (now : ℕ) (quarantined : Result ProviderError (Unit {0}))
      → abort_internal t durable crypto now timeout deadline_elapsed self
        ≡ (after, map_err provider quarantined)
      → (abort_internal t durable crypto now timeout deadline_elapsed >>= λ _.
            fail {A = Unit {0}} (timed_out self.record_.phase))
          self
        ≡ (after, err (late_error self.record_.phase quarantined))
  unfolding fail
  after_abort self after now (ok _) e = >>=-ok _ _ _ _ _ e
  after_abort self after now (err failure) e = >>=-err _ _ _ _ _ e

  pub ensure_live-late :
      (self : State m) (now deadline : ℕ)
      → InSync m self
      → deadline_for self.record_.deadlines self.record_.phase ≡ some deadline
      → deadline ≤ now
      → self.record_.revision + 1 < u64_bound
      → Storable (timeout_record self now)
      → (after : State m) × (ensure_live t durable crypto now self ≡ (
        after,
        err (
            late_error self.record_.phase
              (crypto.quarantine self.record_.session timeout self.provider).1),
      ))
        × (after.record_ ≡ timeout_record self now)
  unfolding ensure_live
  ensure_live-late self now deadline h due late fits stored =
      let (live, going, _) = live_phase self.record_ deadline due in
      let overdue : is_overdue t durable crypto self.record_.deadlines self.record_.phase now
          ≡ true =
        rw (is_overdue, due) (leb-true deadline now late) in
      let (after, e, same) =
        abort_internal-eq m self now timeout deadline_elapsed h live
          (aborted_record-Follows m self now deadline timeout deadline_elapsed due fits) stored in
      (
        after,
        get_>>= _ self
            ∙ (choose-false _ _ _ _ live
                ∙ (choose-false _ _ _ _ going
                    ∙ (choose-true _ _ _ _ overdue ∙ after_abort self after now _ e))),
        same,
      )
