-- ===== src/Ceremony/Evidence.antt =====
-- src/dkg_ceremony.rs: what a record has collected, and where it comes from.
use asteria.Base.{
  ℕ, ◌<◌, ◌≡◌, ◌⊎◌, refl, inl, inr, Bool, true, false, some, [], ◌∷◌, Bytes, length, All, All-map,
  arith, insert, compare, Ordering,
}
use asteria.Base.Result.{ok}
use asteria.Ceremony.Types.{DkgSession, Phase, Completion, Record, Transcript, dkg_participants}
use asteria.Ceremony.Record.{session_eq, validate_completion}
use asteria.Ceremony.Coordinator.{Transport, registry_digest}

-- Each sender stands once, in order.
abbrev pub Ascending : Transcript → Type 0
Ascending [] = Unit
Ascending ((sender, _) ∷ entries) = All (λ e. sender < e.0) entries × Ascending entries

Ordering-cases : (o : Ordering) → (o ≡ Ordering.lt) ⊎ ((o ≡ Ordering.eq) ⊎ (o ≡ Ordering.gt))
Ordering-cases Ordering.lt = inl refl
Ordering-cases Ordering.eq = inr (inl refl)
Ordering-cases Ordering.gt = inr (inr refl)

All-insert :
    (P : ℕ × Bytes → Type 0) (sender : ℕ) (bytes : Bytes) (entries : Transcript)
    → P (sender, bytes)
    → All P entries
    → All P (insert sender bytes entries)
unfolding insert
All-insert P sender bytes [] here h = (here, tt)
All-insert P sender bytes ((j, w) ∷ entries) here h = elim (Ordering-cases (compare sender j)) [
  | inl e ↦ rw (e, insert) (here, h)
  | inr (inl e) ↦ rw (e, insert) (here, h.1)
  | inr (inr e) ↦ rw (e, insert) (h.0, All-insert P sender bytes entries here h.1)
]

insert-Ascending :
    (sender : ℕ) (bytes : Bytes) (entries : Transcript)
    → Ascending entries
    → Ascending (insert sender bytes entries)
unfolding insert
insert-Ascending sender bytes [] h = (tt, tt)
insert-Ascending sender bytes ((j, w) ∷ entries) h = elim (Ordering-cases (compare sender j)) [
  | inl e ↦
      let below : sender < j = ground arith in
      rw (e, insert) ((below, All-map (λ q k. omega (arith, k, below)) entries h.0), h)
  | inr (inl e) ↦
      let same : sender ≡ j = ground arith in
      rw (e, insert) (All-map (λ q k. omega (arith, k, same)) entries h.0, h.1)
  | inr (inr e) ↦
      let above : j < sender = ground arith in
      rw (e, insert)
        (
          All-insert (λ q. j < q.0) sender bytes entries above h.0,
          insert-Ascending sender bytes entries h.1,
        )
]

module _ (t : Transport) where
  -- The bytes encode a message of the sender, opened for the session from a certificate by a registry
  -- with the digest.
  abbrev pub IsCertified : DkgSession → Bytes → ℕ × Bytes → Type 0
  IsCertified session digest (sender, bytes) =
      (registry : t.Registry) × (registry_digest t registry ≡ ok digest)
      × (certificate : t.CertifiedEnvelope) × (message : t.Round1Message)
      × (t.open_certified_round1_broadcast session registry certificate ≡ ok message)
      × (t.round1_sender message ≡ sender)
      × (t.round1_to_json message ≡ ok bytes)

  -- The bytes encode a message of the sender to the validator, in the session.
  abbrev pub IsBoundTo : DkgSession → ℕ → ℕ × Bytes → Type 0
  IsBoundTo session validator_id (sender, bytes) =
      (message : t.Round2Message) × (t.round2_to_json message ≡ ok bytes)
      × (session_eq (t.round2_session message) session ≡ true)
      × (t.round2_sender message ≡ sender)
      × (t.round2_recipient message ≡ validator_id)

  -- The messages of both rounds, each sender once.
  pub record HasMessages (session : DkgSession) (digest : Bytes) (validator_id : ℕ)
      (round1 round2 : Transcript) : Type 0 where
    pub certified : All (IsCertified session digest) round1
    pub round1_once : Ascending round1
    pub bound : All (IsBoundTo session validator_id) round2
    pub round2_once : Ascending round2

  abbrev pub HasMessagesOf : Record → Type 0
  HasMessagesOf self =
      HasMessages self.session self.registry_digest self.validator_id self.round1_messages
        self.incoming_round2_messages

  pub add_round1 :
      {session : DkgSession} {digest : Bytes} {validator_id : ℕ} {round1 round2 : Transcript}
      (sender : ℕ) (bytes : Bytes)
      → IsCertified session digest (sender, bytes)
      → HasMessages session digest validator_id round1 round2
      → HasMessages session digest validator_id (insert sender bytes round1) round2
  add_round1 {session} {digest} {validator_id} {round1} {round2} sender bytes here h = record {
    certified = All-insert (IsCertified session digest) sender bytes round1 here h.certified;
    round1_once = insert-Ascending sender bytes round1 h.round1_once;
    bound = h.bound;
    round2_once = h.round2_once;
  }

  pub add_round2 :
      {session : DkgSession} {digest : Bytes} {validator_id : ℕ} {round1 round2 : Transcript}
      (sender : ℕ) (bytes : Bytes)
      → IsBoundTo session validator_id (sender, bytes)
      → HasMessages session digest validator_id round1 round2
      → HasMessages session digest validator_id round1 (insert sender bytes round2)
  add_round2 {session} {digest} {validator_id} {round1} {round2} sender bytes here h = record {
    certified = h.certified;
    round1_once = h.round1_once;
    bound = All-insert (IsBoundTo session validator_id) sender bytes round2 here h.bound;
    round2_once = insert-Ascending sender bytes round2 h.round2_once;
  }

abbrev pub past_round1 : Phase → Bool
past_round1 Phase.round2 = true
past_round1 Phase.finalize = true
past_round1 Phase.completed = true
past_round1 _ = false

abbrev pub past_round2 : Phase → Bool
past_round2 Phase.finalize = true
past_round2 Phase.completed = true
past_round2 _ = false

-- What a record has collected: in every phase authentic messages only; past round one those of four
-- senders, past round two those of three, and in the end a valid completion.
pub record HasEvidence (t : Transport) (self : Record) : Type 0 where
  pub messages : HasMessagesOf t self
  pub round1 : past_round1 self.phase ≡ true → length self.round1_messages ≡ dkg_participants
  pub round2 : past_round2 self.phase ≡ true → length self.incoming_round2_messages ≡ 3
  pub result :
      self.phase ≡ Phase.completed
      → (c : Completion) × (self.completion ≡ some c) × (validate_completion c self.session ≡ ok tt)
