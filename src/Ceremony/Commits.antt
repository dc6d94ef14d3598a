-- ===== src/Ceremony/Commits.antt =====
-- src/dkg_ceremony.rs: calls of the provider and commits keep the invariant of the coordinator.
use asteria.Base.{ℕ, ◌≡◌, refl, sym, ap, ◌∙◌, subst, some, bytes_eq_refl, if◌then◌else◌}
use asteria.Base.Result.{some-inj, Result, ok, err}
use asteria.Base.Action.{Action}
use asteria.Ceremony.Types.{Record, ProviderError, JournalError}
use asteria.Ceremony.Coordinator.{call, swapped, commit}
use asteria.Ceremony.Contract.{Follows, SwapOutcome}
use asteria.Ceremony.Evidence.{HasEvidence}
use asteria.Ceremony.History.{Reaches-Bound}
use asteria.Ceremony.Keeps.{
  Setting, State, InSync, Keeps, Reaches, here, step, get-Keeps, lift-Keeps, weaken-Keeps,
}

module _ (m : Setting) where
  open m use {t, J, P, durable, crypto, IsGood, view, Storable, contract}

  -- The provider's state is no part of the invariant.
  pub call-Keeps :
      {A : Type 0} (self : State m) (made : Action P ProviderError A)
      → InSync m self
      → Keeps m self (λ next _. next.record_ ≡ self.record_) (call t durable crypto made self)
  call-Keeps self made h = record {
    in_sync = record { good = h.good; stored = h.stored; evidence = h.evidence; peers = h.peers };
    reaches = here;
    post = refl;
  }

  swap_outcome :
      (self : State m) (next : Record) (out : J × Result JournalError (Unit {0}))
      → InSync m self
      → HasEvidence t next
      → SwapOutcome IsGood view self.journal self.record_.session.ceremony_id self.record_.revision
          next out
      → Keeps m self (λ after _. after.record_ ≡ next) (swapped t durable crypto next self out)
  swap_outcome self next (after, err e) h evidence same = record {
    in_sync = record {
      good = subst IsGood (sym same) h.good;
      stored =
          subst (λ j. view j self.record_.session.ceremony_id ≡ some self.record_) (sym same)
            h.stored;
      evidence = h.evidence;
      peers = h.peers;
    };
    reaches = here;
    post = tt;
  }
  swap_outcome self next (after, ok _) h evidence
        (current, found, _, follows, at_id, (good, views)) =
      let same : current ≡ self.record_ = some-inj (sym found ∙ h.stored) in
      let id = self.record_.session.ceremony_id in
      let seen : view after id ≡ some next =
        views id ∙ ap (λ b. if b then some next else view self.journal id) (bytes_eq_refl id) in
      let moves : Reaches self.record_ next =
        step (subst (λ r. Follows r next) same follows) at_id here in
      record {
        in_sync = record {
          good = good;
          stored = subst (λ k. view after k ≡ some next) (sym at_id) seen;
          evidence = evidence;
          peers = h.peers ∙ ap ok (sym (Reaches-Bound moves).registry_digest);
        };
        reaches = moves;
        post = refl;
      }

  -- A commit of a record with its evidence.
  pub commit-Keeps :
      (self : State m) (next : Record)
      → InSync m self
      → HasEvidence t next
      → Keeps m self
          (λ after _. (revision : ℕ) × (after.record_ ≡ record next { revision = revision }))
          (commit t durable crypto next self)
  unfolding commit
  commit-Keeps self next h evidence = get-Keeps m self _ (
      lift-Keeps m self _ _ h (λ revision _.
        let numbered = record next { revision = revision } in
        let k =
          swap_outcome self numbered _ h
            (record {
              messages = evidence.messages;
              round1 = evidence.round1;
              round2 = evidence.round2;
              result = evidence.result;
            })
            (contract.swaps self.journal self.record_.session.ceremony_id self.record_.revision
              numbered h.good) in
        weaken-Keeps m self _ k (λ after _ e. (revision, e))))
