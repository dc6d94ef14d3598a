-- ===== src/Ceremony/History.antt =====
-- src/dkg_ceremony.rs: what the swaps of a journal never change.
use asteria.Base.{
  ℕ, ◌≡◌, refl, sym, ap, ◌∙◌, subst, Bool, true, false, bytes_eq→eq, ◌<◌, ◌≤◌, ◌⊎◌, inl, inr, arith,
  ==_iff, ◌&&◌,
}
use asteria.Ceremony.Types.{DkgKind, DkgSession, Phase, Deadlines, Record}
use asteria.Ceremony.Record.{
  kind_eq, session_eq, deadlines_eq, is_terminal, same_binding, valid_phase_transition,
}
use asteria.Ceremony.Keeps.{Reaches, here, step}

-- How far a ceremony is.
abbrev pub rank : Phase → ℕ
rank Phase.initial = 0
rank Phase.round1 = 1
rank Phase.round2 = 2
rank Phase.finalize = 3
rank Phase.completed = 4
rank Phase.aborted = 5

and-true : (a b : Bool) → (a && b) ≡ true → (a ≡ true) × (b ≡ true)
and-true a b h = ground arith

kind_eq→eq : (a b : DkgKind) → kind_eq a b ≡ true → a ≡ b
kind_eq→eq DkgKind.initial DkgKind.initial h = refl
kind_eq→eq DkgKind.initial (DkgKind.refresh b) h = cc
kind_eq→eq (DkgKind.refresh a) DkgKind.initial h = cc
kind_eq→eq (DkgKind.refresh a) (DkgKind.refresh b) h = ap DkgKind.refresh (bytes_eq→eq a b h)

session_eq→eq : (a b : DkgSession) → session_eq a b ≡ true → a ≡ b
session_eq→eq a b h =
    let (h3, kind) = and-true _ _ h in
    let (h2, epoch) = and-true _ _ h3 in
    let (domain, id) = and-true _ _ h2 in
    let same_domain : a.chain_domain ≡ b.chain_domain = bytes_eq→eq _ _ domain in
    let same_id : a.ceremony_id ≡ b.ceremony_id = bytes_eq→eq _ _ id in
    let same_epoch : a.epoch ≡ b.epoch = (==_iff _ _).0 epoch in
    let same_kind : a.kind ≡ b.kind = kind_eq→eq _ _ kind in cc

deadlines_eq→eq : (a b : Deadlines) → deadlines_eq a b ≡ true → a ≡ b
deadlines_eq→eq a b h =
    let (h2, third) = and-true _ _ h in
    let (first, second) = and-true _ _ h2 in
    let same_first : a.round1_unix_ms ≡ b.round1_unix_ms = (==_iff _ _).0 first in
    let same_second : a.round2_unix_ms ≡ b.round2_unix_ms = (==_iff _ _).0 second in
    let same_third : a.finalize_unix_ms ≡ b.finalize_unix_ms = (==_iff _ _).0 third in cc

-- The later record is of the same ceremony, among the same peers and with the same deadlines.
pub record Bound (before after : Record) : Type 0 where
  pub session : after.session ≡ before.session
  pub validator_id : after.validator_id ≡ before.validator_id
  pub registry_digest : after.registry_digest ≡ before.registry_digest
  pub deadlines : after.deadlines ≡ before.deadlines

same_binding→Bound : (r s : Record) → same_binding r s ≡ true → Bound r s
unfolding same_binding
same_binding→Bound r s h =
    let (h4, deadlines) = and-true _ _ h in
    let (h3, digest) = and-true _ _ h4 in
    let (h2, id) = and-true _ _ h3 in
    let (_, session) = and-true _ _ h2 in
    record {
      session = sym (session_eq→eq _ _ session);
      validator_id = sym ((==_iff _ _).0 id);
      registry_digest = sym (bytes_eq→eq _ _ digest);
      deadlines = sym (deadlines_eq→eq _ _ deadlines);
    }

pub Reaches-Bound : {r s : Record} → Reaches r s → Bound r s
Reaches-Bound here = record {
  session = refl;
  validator_id = refl;
  registry_digest = refl;
  deadlines = refl;
}
Reaches-Bound (step {r} {s} f _ h) =
    let first = same_binding→Bound r s f.binding in
    let rest = Reaches-Bound h in
    record {
      session = rest.session ∙ first.session;
      validator_id = rest.validator_id ∙ first.validator_id;
      registry_digest = rest.registry_digest ∙ first.registry_digest;
      deadlines = rest.deadlines ∙ first.deadlines;
    }

transition-rank :
    (p q : Phase) → valid_phase_transition p q ≡ true → (rank p ≤ rank q) × (is_terminal p ≡ false)
unfolding valid_phase_transition
transition-rank p q h = ground arith

pub Reaches-rank : {r s : Record} → Reaches r s → rank r.phase ≤ rank s.phase
Reaches-rank here = omega arith
Reaches-rank (step {r} {s} f _ h) =
    omega (arith, (transition-rank r.phase s.phase f.transition).0, Reaches-rank h)

-- A record is either the same or has a higher revision.
pub Reaches-revision : {r s : Record} → Reaches r s → (s ≡ r) ⊎ (r.revision < s.revision)
Reaches-revision here = inl refl
Reaches-revision (step {r} {s} f _ h) = elim (Reaches-revision h) [
  | inl e ↦
      inr (subst (λ (u : Record). r.revision < u.revision) (sym e) (omega (arith, f.revision)))
  | inr k ↦ inr (omega (arith, f.revision, k))
]

-- A record of a ceremony that has ended stays.
pub Reaches-terminal : {r s : Record} → Reaches r s → is_terminal r.phase ≡ true → s ≡ r
Reaches-terminal here e = refl
Reaches-terminal (step {r} {s} f _ h) e =
    let k = (transition-rank r.phase s.phase f.transition).1 in absurd (ground arith)

-- What a later record has in common with an earlier one: the binding, no earlier phase, and a
-- higher revision where it is another.
pub record Continues (before after : Record) : Type 0 where
  pub bound : Bound before after
  pub ahead : rank before.phase ≤ rank after.phase
  pub newer : (after ≡ before) ⊎ (before.revision < after.revision)
