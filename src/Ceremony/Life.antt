-- ===== src/Ceremony/Life.antt =====
-- src/dkg_ceremony.rs: a ceremony from its start on, through calls and recoveries.
use asteria.Base.{ℕ, ◌≡◌, ap, ◌∙◌, subst, some, Bytes, true}
use asteria.Base.Result.{ok}
use asteria.Ceremony.Types.{DkgSession, Deadlines, Record}
use asteria.Ceremony.Record.{is_terminal}
use asteria.Ceremony.Rounds.{start, recover}
use asteria.Ceremony.Evidence.{HasEvidence}
use asteria.Ceremony.Keeps.{InSync, Setting, State, Reaches, here, Reaches-trans}
use asteria.Ceremony.Closing.{enter_finalize}
use asteria.Ceremony.Finish.{enter_finalize-Keeps}
use asteria.Ceremony.Calls.{Call, perform, Kept, perform-Kept}
use asteria.Ceremony.Recovery.{start-InSync, recover-Recovered, recover-InSync}
use asteria.Ceremony.History.{
  Continues, Reaches-Bound, Reaches-rank, Reaches-revision, Reaches-terminal,
}

module _ (m : Setting) where
  open m use {t, J, P, durable, crypto, IsGood, contract}

  -- A coordinator and what becomes of it, one coordinator at a time: calls, each of which may fail at
  -- any of its steps; the first half of `finalize`, the one call that writes to the journal twice, where
  -- a crash may come in between; and recoveries from the journal with any provider.
  pub data Life : State m → State m → Type 0 where
    now_ : {self : State m} → Life self self
    called :
        {self after : State m} (call : Call t) → Life (perform m call self) after → Life self after
    interrupted :
        {self after : State m}
        → Life (enter_finalize t durable crypto self).0 after
        → Life self after
    recovered :
        {self next after : State m} (secrets last : P) (registry : t.Registry)
        (chain_domain : Bytes) (epoch : ℕ)
        → recover t durable crypto self.journal secrets registry self.record_.session.ceremony_id
            chain_domain epoch
          ≡ (last, ok next)
        → Life next after
        → Life self after

  pub Life-Kept : {self after : State m} → Life self after → InSync m self → Kept m self after
  Life-Kept now_ h = record { in_sync = h; reaches = here }
  Life-Kept (called {self} call life) h =
      let first = perform-Kept m call self h in
      let rest = Life-Kept life first.in_sync in
      record { in_sync = rest.in_sync; reaches = Reaches-trans first.reaches rest.reaches }
  Life-Kept (interrupted {self} life) h =
      let first = enter_finalize-Keeps m self h in
      let rest = Life-Kept life first.in_sync in
      record { in_sync = rest.in_sync; reaches = Reaches-trans first.reaches rest.reaches }
  Life-Kept (recovered {self} {next} {after} secrets last registry chain_domain epoch e life) h =
      let r = recover-Recovered m self next secrets last registry chain_domain epoch h e in
      let rest =
        Life-Kept life (recover-InSync m self next secrets last registry chain_domain epoch h e) in
      record {
        in_sync = rest.in_sync;
        reaches = subst (λ (s : Record). Reaches s after.record_) r.same_record rest.reaches;
      }

  -- After the start of a ceremony in a good journal, and after any calls, failures, interruptions and
  -- recoveries, the journal loads the record that the coordinator has. Each message of round one in the
  -- record was opened for its session from a certificate, by a registry whose digest is the recorded
  -- one, and stands under its sender; each message of round two is bound to the session, to the sender
  -- it stands under and to the validator of the record; and no sender stands twice in a round. Past
  -- round one there are four messages of round one, past round two three of round two, and in the end
  -- a completion that is valid for the session.
  pub Life-durable :
      (store : J) (secrets : P) (registry : t.Registry) (session : DkgSession)
      (deadlines : Deadlines) (chain_domain : Bytes) (epoch : ℕ) (stored : J) (self after : State m)
      → IsGood store
      → start t durable crypto store secrets registry session deadlines chain_domain epoch
        ≡ (stored, ok self)
      → Life self after
      → (durable.load after.journal after.record_.session.ceremony_id ≡ ok (some after.record_))
        × HasEvidence t after.record_
  Life-durable store secrets registry session deadlines chain_domain epoch stored self after good h
        life =
      let k =
        (Life-Kept life (
          start-InSync m store secrets registry session deadlines chain_domain epoch stored self
            good h)).in_sync in
      (
        contract.loads after.journal after.record_.session.ceremony_id k.good ∙ ap ok k.stored,
        k.evidence,
      )

  -- Through any calls, failures, interruptions and recoveries the record of a ceremony stays bound to
  -- its session, validator, peers and deadlines, its phase never goes back, and its revision grows with
  -- each change.
  pub Life-Continues :
      (self after : State m)
      → InSync m self
      → Life self after
      → Continues self.record_ after.record_
  Life-Continues self after h life =
      let k = (Life-Kept life h).reaches in
      record { bound = Reaches-Bound k; ahead = Reaches-rank k; newer = Reaches-revision k }

  -- The record of a ceremony that was completed or aborted stays as it is through any calls, failures,
  -- interruptions and recoveries.
  pub Life-terminal :
      (self after : State m)
      → InSync m self
      → is_terminal self.record_.phase ≡ true
      → Life self after
      → after.record_ ≡ self.record_
  Life-terminal self after h e life = Reaches-terminal (Life-Kept life h).reaches e
