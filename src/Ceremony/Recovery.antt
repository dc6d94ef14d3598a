-- ===== src/Ceremony/Recovery.antt =====
-- src/dkg_ceremony.rs: starting and recovering a ceremony.
use asteria.Base.{
  [], ℕ, ◌≡◌, refl, sym, ap, ◌∙◌, subst, true, some, Bytes, bytes_eq, bytes_eq_refl, if◌then◌else◌,
  bytes_eq→eq, ==_iff, not-eq-false,
}
use asteria.Base.Result.{
  Result, ok, err, map_err-eq-ok, ok_or-some, ok-inj, some-inj, fail_if-eq-ok,
}
use asteria.Base.Action.{>>=-eq-ok, lift_>>=-eq-ok}
use asteria.Ceremony.Types.{DkgSession, Deadlines, Record, JournalError, CeremonyError}
use asteria.Ceremony.Coordinator.{registry_digest}
use asteria.Ceremony.Rounds.{first_record, start, recover}
use asteria.Ceremony.Contract.{CreateOutcome}
use asteria.Ceremony.Evidence.{HasEvidence, HasMessages}
use asteria.Ceremony.Keeps.{InSync, Setting, State, unbound}
use asteria.Ceremony.Round1.{early-HasEvidence}

module _ (m : Setting) where
  open m use {t, J, P, durable, crypto, IsGood, view, contract}

  created-InSync :
      (store : J) (secrets : P) (registry : t.Registry) (fresh : Record)
      (out : J × Result JournalError (Unit {0}))
      → HasEvidence t fresh
      → registry_digest t registry ≡ ok fresh.registry_digest
      → CreateOutcome IsGood view store fresh out
      → out.1 ≡ ok tt
      → InSync m
          (record { journal = out.0; provider = secrets; registry = registry; record_ = fresh })
  created-InSync store secrets registry fresh (after, err e) evidence peers h e' = absurd cc
  created-InSync store secrets registry fresh (after, ok _) evidence peers (_, (good, views)) e' =
      let id = fresh.session.ceremony_id in
      record {
        good = good;
        stored = views id ∙ ap (λ b. if b then some fresh else view store id) (bytes_eq_refl id);
        evidence = evidence;
        peers = peers;
      }

  pub start-InSync :
      (store : J) (secrets : P) (registry : t.Registry) (session : DkgSession)
      (deadlines : Deadlines) (chain_domain : Bytes) (epoch : ℕ) (after : J) (self : State m)
      → IsGood store
      → start t durable crypto store secrets registry session deadlines chain_domain epoch
        ≡ (after, ok self)
      → InSync m self
  unfolding start
  start-InSync store secrets registry session deadlines chain_domain epoch after self good h =
      let (_, _, h1) = lift_>>=-eq-ok _ _ _ _ _ h in
      let (_, _, h2) = lift_>>=-eq-ok _ _ _ _ _ h1 in
      let (_, _, h3) = lift_>>=-eq-ok _ _ _ _ _ h2 in
      let (_, _, h4) = lift_>>=-eq-ok _ _ _ _ _ h3 in
      let (saved, _, h5) = lift_>>=-eq-ok _ _ _ _ _ h4 in
      let (_, _, h6) = lift_>>=-eq-ok _ _ _ _ _ h5 in
      let (digest, digested, h7) = lift_>>=-eq-ok _ _ _ _ _ h6 in
      let (next, _, created, h8) = >>=-eq-ok _ _ _ _ _ h7 in
      let no_messages : HasMessages t session digest
          (t.peer_validator_id (crypto.local_peer secrets)) [] [] =
        record { certified = tt; round1_once = tt; bound = tt; round2_once = tt } in
      let fresh =
        first_record session (t.peer_validator_id (crypto.local_peer secrets)) digest deadlines
          saved in
      let self_at : J → State m =
        λ j. record { journal = j; provider = secrets; registry = registry; record_ = fresh } in
      let made : InSync m (self_at (durable.create fresh store).0) =
        created-InSync store secrets registry fresh (durable.create fresh store)
          (early-HasEvidence t fresh refl no_messages) digested (contract.creates store fresh good)
          (map_err-eq-ok _ _ (ap (λ (x : J × Result CeremonyError (Unit {0})). x.1) created)) in
      let is_self : self_at (durable.create fresh store).0 ≡ self =
        ap self_at (ap (λ (x : J × Result CeremonyError (Unit {0})). x.0) created)
        ∙ ok-inj (ap (λ (x : J × Result CeremonyError (State m)). x.1) h8) in
      subst (InSync m) is_self made

  -- What a recovered coordinator has in common with the one that wrote the journal.
  pub record Recovered (before self : State m) (chain_domain : Bytes) (epoch : ℕ) : Type 0 where
    pub same_record : self.record_ ≡ before.record_
    pub same_journal : self.journal ≡ before.journal
    pub bound_domain : bytes_eq before.record_.session.chain_domain chain_domain ≡ true
    pub bound_epoch : before.record_.session.epoch ≡ epoch
    pub same_peers : registry_digest t self.registry ≡ ok before.record_.registry_digest

  -- A coordinator that is recovered from the journal of another, whose record the journal has, goes on
  -- from that record, and only for the chain and the epoch of it and for peers with the digest in it.
  pub recover-Recovered :
      (before self : State m) (secrets last : P) (registry : t.Registry) (chain_domain : Bytes)
      (epoch : ℕ)
      → InSync m before
      → recover t durable crypto before.journal secrets registry before.record_.session.ceremony_id
          chain_domain epoch
        ≡ (last, ok self)
      → Recovered before self chain_domain epoch
  unfolding recover
  recover-Recovered before self secrets last registry chain_domain epoch good h =
      let id = before.record_.session.ceremony_id in
      let read : durable.load before.journal id ≡ ok (some before.record_) =
        contract.loads before.journal id good.good ∙ ap ok good.stored in
      let (found, e1, h1) = lift_>>=-eq-ok _ _ _ _ _ h in
      let (loaded, e2, h2) = lift_>>=-eq-ok _ _ _ _ _ h1 in
      let (_, e3, h3) = lift_>>=-eq-ok _ _ _ _ _ h2 in
      let (digest, e4, h4) = lift_>>=-eq-ok _ _ _ _ _ h3 in
      let (_, e5, h5) = lift_>>=-eq-ok _ _ _ _ _ h4 in
      let (_, _, h6) = lift_>>=-eq-ok _ _ _ _ _ h5 in
      let (_, _, h6') = lift_>>=-eq-ok _ _ _ _ _ h6 in
      let (next, _, _, h7) = >>=-eq-ok _ _ _ _ _ h6' in
      let (_, _, h8) = lift_>>=-eq-ok _ _ _ _ _ h7 in
      let is_self : self ≡ record {
        journal = before.journal;
        provider = next;
        registry = registry;
        record_ = loaded;
      } =
        sym (ok-inj (ap (λ (x : P × Result CeremonyError (State m)). x.1) h8)) in
      let same : loaded ≡ before.record_ =
        some-inj (sym (ok_or-some _ _ _ e2) ∙ ok-inj (sym (map_err-eq-ok _ _ e1) ∙ read)) in
      let is_record = ap (λ (s : State m). s.record_) is_self in
      let (_, domain, at_epoch) = unbound _ _ _ (fail_if-eq-ok _ _ e3) in
      let at_digest = not-eq-false _ (fail_if-eq-ok _ _ e5) in
      record {
        same_record = is_record ∙ same;
        same_journal = ap (λ (s : State m). s.journal) is_self;
        bound_domain =
            subst (λ (r : Record). bytes_eq r.session.chain_domain chain_domain ≡ true) same domain;
        bound_epoch =
            subst (λ (r : Record). r.session.epoch ≡ epoch) same ((==_iff _ _).0 at_epoch);
        same_peers =
            ap (λ (s : State m). registry_digest t s.registry) is_self
            ∙ (e4
                ∙ ap ok (
                    sym (bytes_eq→eq _ _ at_digest) ∙ ap (λ (r : Record). r.registry_digest) same));
      }

  pub recover-InSync :
      (before self : State m) (secrets last : P) (registry : t.Registry) (chain_domain : Bytes)
      (epoch : ℕ)
      → InSync m before
      → recover t durable crypto before.journal secrets registry before.record_.session.ceremony_id
          chain_domain epoch
        ≡ (last, ok self)
      → InSync m self
  recover-InSync before self secrets last registry chain_domain epoch h e =
      let r = recover-Recovered before self secrets last registry chain_domain epoch h e in
      record {
        good = subst IsGood (sym r.same_journal) h.good;
        stored = rw (r.same_journal, r.same_record, h.stored);
        evidence = subst (HasEvidence t) (sym r.same_record) h.evidence;
        peers = r.same_peers ∙ ap (λ (s : Record). ok s.registry_digest) (sym r.same_record);
      }
