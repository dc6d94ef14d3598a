-- ===== src/Ceremony/Tombstones.antt =====
-- src/dkg_ceremony.rs: an abort leaves its tombstone in the journal.
use asteria.Base.{
  ℕ, ◌+◌, ◌<◌, ◌≡◌, refl, ◌∙◌, true, false, some, bytes_eq_refl, ==-refl, arith, u64_bound,
  checked_add,
}
use asteria.Base.Result.{ok, map_err}
use asteria.Base.Action.{get, lift, ◌>>=◌, >>=-ok, get_>>=, choose-false}
use asteria.Ceremony.Types.{DkgKind, Phase, AbortCode, Record, provider}
use asteria.Ceremony.Record.{
  kind_eq, is_aborted, is_completed, deadline_for, same_binding, valid_phase_transition,
}
use asteria.Ceremony.Coordinator.{Detail, tombstone, hash_detail, commit, abort_internal}
use asteria.Ceremony.Contract.{Follows}
use asteria.Ceremony.Keeps.{InSync, Setting, State}

kind_eq_refl : (k : DkgKind) → kind_eq k k ≡ true
kind_eq_refl DkgKind.initial = refl
kind_eq_refl (DkgKind.refresh key_id) = bytes_eq_refl key_id

same_binding_refl : (r : Record) → same_binding r r ≡ true
unfolding same_binding
same_binding_refl r = rw (
  ==-refl r.version,
  bytes_eq_refl r.session.chain_domain,
  bytes_eq_refl r.session.ceremony_id,
  ==-refl r.session.epoch,
  kind_eq_refl r.session.kind,
  ==-refl r.validator_id,
  bytes_eq_refl r.registry_digest,
  ==-refl r.deadlines.round1_unix_ms,
  ==-refl r.deadlines.round2_unix_ms,
  ==-refl r.deadlines.finalize_unix_ms,
)

-- Only a phase that goes on has a deadline, and it can be aborted.
pub live_phase :
    (self : Record) (deadline : ℕ)
    → deadline_for self.deadlines self.phase ≡ some deadline
    → (is_aborted self.phase ≡ false)
      × (is_completed self.phase ≡ false)
      × (valid_phase_transition self.phase Phase.aborted ≡ true)
unfolding valid_phase_transition
live_phase self deadline h = ground arith

module _ (m : Setting) where
  open m use {t, J, P, durable, crypto, IsGood, view, Storable, contract}

  -- The tombstone of an abort.
  unfoldable pub aborted_record : State m → ℕ → AbortCode → Detail → Record
  unfolding tombstone
  aborted_record self now code detail =
      let quarantined = (crypto.quarantine self.record_.session code self.provider).0 in
      record (tombstone self.record_ now code (hash_detail t detail)
        (crypto.checkpoint quarantined self.record_.session)) {
          revision = self.record_.revision + 1;
        }

  commit-ok :
      (self : State m) (next : Record)
      → InSync m self
      → next.session.ceremony_id ≡ self.record_.session.ceremony_id
      → Follows self.record_ (record next { revision = self.record_.revision + 1 })
      → Storable (record next { revision = self.record_.revision + 1 })
      → (after : J) × (commit t durable crypto next self ≡ (
        record self {
          journal = after;
          record_ = record next { revision = self.record_.revision + 1 };
        },
        ok tt,
      ))
  unfolding commit ◌>>=◌ get lift
  commit-ok self next h at_id follows fits =
      let id = self.record_.session.ceremony_id in
      let numbered = record next { revision = self.record_.revision + 1 } in
      let (after, swapped_) =
        contract.accepts self.journal id self.record_ numbered h.good h.stored at_id follows fits in
      let counted : checked_add u64_bound self.record_.revision 1
          ≡ some (self.record_.revision + 1) =
        let small : self.record_.revision + 1 < u64_bound = follows.fits in ground arith in
      (after, rw (counted, swapped_))

  pub abort_internal-eq :
      (self : State m) (now : ℕ) (code : AbortCode) (detail : Detail)
      → InSync m self
      → is_aborted self.record_.phase ≡ false
      → Follows self.record_ (aborted_record self now code detail)
      → Storable (aborted_record self now code detail)
      → (after : State m) × (abort_internal t durable crypto now code detail self
          ≡ (after, map_err provider (crypto.quarantine self.record_.session code self.provider).1))
        × (after.record_ ≡ aborted_record self now code detail)
  unfolding abort_internal aborted_record lift
  abort_internal-eq self now code detail h live follows fits =
      let quarantined = (crypto.quarantine self.record_.session code self.provider).0 in
      let (after, e) =
        commit-ok (record self { provider = quarantined })
          (tombstone self.record_ now code (hash_detail t detail)
            (crypto.checkpoint quarantined self.record_.session))
          (record { good = h.good; stored = h.stored; evidence = h.evidence; peers = h.peers }) refl
          follows fits in
      (
        record self {
          journal = after;
          provider = quarantined;
          record_ = aborted_record self now code detail;
        },
        get_>>= _ self
            ∙ (choose-false _ _ _ _ live
                ∙ (>>=-ok _ _ _ _ _ refl ∙ (get_>>= _ _ ∙ >>=-ok _ _ _ _ _ e))),
        refl,
      )

  -- The tombstone follows the record of a phase that goes on.
  pub aborted_record-Follows :
      (self : State m) (now deadline : ℕ) (code : AbortCode) (detail : Detail)
      → deadline_for self.record_.deadlines self.record_.phase ≡ some deadline
      → self.record_.revision + 1 < u64_bound
      → Follows self.record_ (aborted_record self now code detail)
  unfolding aborted_record tombstone same_binding
  aborted_record-Follows self now deadline code detail h fits = record {
    revision = refl;
    fits = fits;
    binding = same_binding_refl self.record_;
    transition = (live_phase self.record_ deadline h).2;
  }
