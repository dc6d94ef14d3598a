-- ===== src/Ceremony/Keeps.antt =====
-- src/dkg_ceremony.rs: the invariant of the coordinator, and the calls that keep it, in general.
use asteria.Base.{◌≡◌, refl, Bool, true, false, not, ◌||◌, Option, some, Bytes, arith}
use asteria.Base.Result.{Result, ok, err}
use asteria.Base.Action.{pure, fail, lift, get, ◌>>=◌, choose}
use asteria.Ceremony.Types.{Phase, Record, CeremonyError}
use asteria.Ceremony.Journal.{Journal}
use asteria.Ceremony.Coordinator.{
  Transport, Provider, Coordinator, Ceremony, phase_eq, registry_digest,
}
use asteria.Ceremony.Evidence.{HasEvidence}
use asteria.Ceremony.Contract.{Follows, JournalContract}

-- The records that swaps lead to.
pub data Reaches : Record → Record → Type 0 where
  here : {r : Record} → Reaches r r
  step :
      {r s u : Record}
      → Follows r s
      → s.session.ceremony_id ≡ r.session.ceremony_id
      → Reaches s u
      → Reaches r u

pub Reaches-trans : {r s u : Record} → Reaches r s → Reaches s u → Reaches r u
Reaches-trans here k = k
Reaches-trans (step f e h) k = step f e (Reaches-trans h k)

pub phase_eq→eq : (p q : Phase) → phase_eq p q ≡ true → p ≡ q
phase_eq→eq p q h = ground arith

-- What a check of three bindings leaves.
pub unbound :
    (a b c : Bool) → (not a || not b || not c) ≡ false → (a ≡ true) × (b ≡ true) × (c ≡ true)
unbound true true true h = (refl, refl, refl)
unbound true true false h = cc
unbound true false c h = cc
unbound false b c h = cc

-- A ceremony's parts: the transport, the journal with its contract, and the provider.
pub record Setting : Type 1 where
  pub t : Transport
  pub J : Type 0
  pub P : Type 0
  pub durable : Journal J
  pub crypto : Provider t P
  pub IsGood : J → Type 0
  pub view : J → Bytes → Option Record
  pub Storable : Record → Type 0
  pub contract : JournalContract durable IsGood view Storable

module _ (m : Setting) where
  open m use {t, J, P, durable, crypto, IsGood, view, Storable, contract}

  abbrev pub State : Type 0
  State = Coordinator t J P

  -- The journal has the coordinator's record, which has its evidence and the digest of the peers.
  pub record InSync (self : State) : Type 0 where
    pub good : IsGood self.journal
    pub stored : view self.journal self.record_.session.ceremony_id ≡ some self.record_
    pub evidence : HasEvidence t self.record_
    pub peers : registry_digest t self.registry ≡ ok self.record_.registry_digest

  abbrev pub Post : {A : Type 0} → (State → A → Type 0) → State × Result CeremonyError A → Type 0
  Post Q (after, ok a) = Q after a
  Post Q (after, err _) = Unit

  -- A call, from one state: it keeps the invariant, whether it fails or not, moves the record by swaps
  -- only, and where it succeeds the postcondition holds.
  pub record Keeps {A : Type 0} (self : State) (Q : State → A → Type 0)
      (after : State × Result CeremonyError A) : Type 0 where
    pub in_sync : InSync after.0
    pub reaches : Reaches self.record_ after.0.record_
    pub post : Post Q after

  bind_outcome :
      {A B : Type 0} (self : State) (Q : State → A → Type 0) (R : State → B → Type 0)
      (after : State × Result CeremonyError A) (f : A → Ceremony t durable crypto B)
      → Keeps self Q after
      → ((next : State) (a : A) → InSync next → Q next a → Keeps next R (f a next))
      → Keeps self R (((λ (s : State). after) >>= f) self)
  unfolding ◌>>=◌
  bind_outcome self Q R (next, err e) f h k = record {
    in_sync = h.in_sync;
    reaches = h.reaches;
    post = tt;
  }
  bind_outcome self Q R (next, ok a) f h k =
      let rest = k next a h.in_sync h.post in
      record {
        in_sync = rest.in_sync;
        reaches = Reaches-trans h.reaches rest.reaches;
        post = rest.post;
      }

  pub bind-Keeps :
      {A B : Type 0} (self : State) (first : Ceremony t durable crypto A)
      (f : A → Ceremony t durable crypto B) {Q : State → A → Type 0} {R : State → B → Type 0}
      → Keeps self Q (first self)
      → ((next : State) (a : A) → InSync next → Q next a → Keeps next R (f a next))
      → Keeps self R ((first >>= f) self)
  unfolding ◌>>=◌
  bind-Keeps self first f {Q} {R} h k = bind_outcome self Q R (first self) f h k

  -- After a result that does not touch the coordinator.
  pub lift-Keeps :
      {A B : Type 0} (self : State) (r : Result CeremonyError A)
      (f : A → Ceremony t durable crypto B) {R : State → B → Type 0}
      → InSync self
      → ((a : A) → r ≡ ok a → Keeps self R (f a self))
      → Keeps self R ((lift r >>= f) self)
  unfolding ◌>>=◌ lift
  lift-Keeps self (ok a) f h k = k a refl
  lift-Keeps self (err e) f h k = record { in_sync = h; reaches = here; post = tt }

  pub get-Keeps :
      {B : Type 0} (self : State) (f : State → Ceremony t durable crypto B) {R : State → B → Type 0}
      → Keeps self R (f self self)
      → Keeps self R ((get >>= f) self)
  unfolding ◌>>=◌ get
  get-Keeps self f k = k

  pub result-Keeps :
      {A : Type 0} (self : State) (Q : State → A → Type 0) (r : Result CeremonyError A)
      → InSync self
      → ((a : A) → r ≡ ok a → Q self a)
      → Keeps self Q (lift r self)
  unfolding lift
  result-Keeps self Q (ok a) h k = record { in_sync = h; reaches = here; post = k a refl }
  result-Keeps self Q (err e) h k = record { in_sync = h; reaches = here; post = tt }

  pub fail-Keeps :
      {A : Type 0} (self : State) (Q : State → A → Type 0) (e : CeremonyError)
      → InSync self
      → Keeps self Q (fail e self)
  unfolding fail
  fail-Keeps self Q e h = record { in_sync = h; reaches = here; post = tt }

  pub pure-Keeps :
      {A : Type 0} (self : State) (Q : State → A → Type 0) (a : A)
      → InSync self
      → Q self a
      → Keeps self Q (pure a self)
  unfolding pure
  pure-Keeps self Q a h q = record { in_sync = h; reaches = here; post = q }

  pub choose-Keeps :
      {B : Type 0} (self : State) (c : Bool) (first other : Ceremony t durable crypto B)
      {R : State → B → Type 0}
      → (c ≡ true → Keeps self R (first self))
      → (c ≡ false → Keeps self R (other self))
      → Keeps self R (choose c first other self)
  unfolding choose
  choose-Keeps self true first other h k = h refl
  choose-Keeps self false first other h k = k refl

  pub weaken-Keeps :
      {A : Type 0} (self : State) {Q R : State → A → Type 0}
      (after : State × Result CeremonyError A)
      → Keeps self Q after
      → ((next : State) (a : A) → Q next a → R next a)
      → Keeps self R after
  weaken-Keeps self (next, ok a) h k = record {
    in_sync = h.in_sync;
    reaches = h.reaches;
    post = k next a h.post;
  }
  weaken-Keeps self (next, err e) h k = record {
    in_sync = h.in_sync;
    reaches = h.reaches;
    post = tt;
  }

  abbrev pub Any : {A : Type 0} → State → A → Type 0
  Any self a = Unit {0}

  -- A call keeps the invariant from a state.
  abbrev pub KeepsAll : {A : Type 0} → Ceremony t durable crypto A → State → Type 0
  KeepsAll call_ self = Keeps self Any (call_ self)
