-- ===== src/Event/Chain.antt =====
-- src/event.rs: what `verify` checks, that `append` keeps it, and that it detects changes.
use asteria.Base.{
  ℕ, suc, ◌-◌, ◌<◌, ◌≡◌, ◌↔◌, refl, sym, ap, ap₂, All, All-map, ◌∙◌, true, Bool-cases, inl, inr,
  List, [], ◌∷◌, ◌++◌, Option, some, none, ltb, length, arith, Bytes, bytes_eq, bytes_eq_refl,
  bytes_eq→eq,
}
use asteria.Event.{
  Event, EventLog, EventKind, EventCodec, max_retained_events, prune_events, last_event,
  hash_or_none, append, seal, verify_from, verify_events, verify,
}

module _ {D Time : Type 0} (codec : EventCodec D Time) where
  -- The events continue a chain: each names the hash before it, has a later sequence, and is sealed.
  abbrev pub Linked : Bytes → ℕ → List (Event D Time) → Type 0
  Linked previous_hash previous_sequence [] = Unit
  Linked previous_hash previous_sequence (e ∷ events) =
      (e.previous_hash ≡ previous_hash)
      × (previous_sequence < e.sequence)
      × (e.hash ≡ seal codec e.sequence e.timestamp e.previous_hash e.kind)
      × Linked e.hash e.sequence events

  -- The tests of one round of the loop.
  verifies :
      (e : Event D Time) (events : List (Event D Time)) (h : Bytes) (s : ℕ)
      → bytes_eq e.previous_hash h ≡ true
      → s < e.sequence
      → bytes_eq e.hash (seal codec e.sequence e.timestamp e.previous_hash e.kind) ≡ true
      → verify_from codec e.hash e.sequence events ≡ true
      → verify_from codec h s (e ∷ events) ≡ true
  unfolding verify_from
  verifies e events h s p q r later = ground arith

  pub verify_from_iff :
      (h : Bytes) (s : ℕ) (events : List (Event D Time))
      → (verify_from codec h s events ≡ true) ↔ Linked h s events
  unfolding verify_from
  verify_from_iff h s [] = ((λ _. tt), λ _. refl)
  verify_from_iff h s (e ∷ events) =
      let digest = seal codec e.sequence e.timestamp e.previous_hash e.kind in
      let ih = verify_from_iff e.hash e.sequence events in
      (
        (λ good. (
          bytes_eq→eq e.previous_hash h (ground arith),
          ground arith,
          bytes_eq→eq e.hash digest (ground arith),
          ih.0 (ground arith),
        )),
        (λ l.
            let anchored : bytes_eq e.previous_hash h ≡ true =
              ap (λ p. bytes_eq p h) l.0 ∙ bytes_eq_refl h in
            let is_sealed : bytes_eq e.hash digest ≡ true =
              ap (λ x. bytes_eq x digest) l.2 ∙ bytes_eq_refl digest in
            verifies e events h s anchored l.1 is_sealed (ih.1 l.3)),
      )

  -- A window is anchored by its first event.
  abbrev pub Anchored : List (Event D Time) → Type 0
  Anchored [] = Unit
  Anchored (e ∷ events) = Linked e.previous_hash (e.sequence - 1) (e ∷ events)

  pub verify_iff : (self : EventLog D Time) → (verify codec self ≡ true) ↔ Anchored self.events
  unfolding verify
  verify_iff self = by_events self.events
    where
      by_events :
          (events : List (Event D Time)) → (verify_events codec events ≡ true) ↔ Anchored events
      by_events [] = ((λ _. tt), λ _. refl)
      by_events (e ∷ events) = verify_from_iff e.previous_hash (e.sequence - 1) (e ∷ events)

  Linked-Anchored :
      (h : Bytes) (s : ℕ) (events : List (Event D Time)) → Linked h s events → Anchored events
  Linked-Anchored h s [] l = tt
  Linked-Anchored h s (e ∷ events) l = (refl, omega arith, l.2, l.3)

  Anchored-prune_events :
      (events : List (Event D Time)) → Anchored events → Anchored (prune_events events)
  unfolding prune_events
  Anchored-prune_events [] a = tt
  Anchored-prune_events (e ∷ events) a =
      elim (Bool-cases (ltb max_retained_events (suc (length events)))) [
        | inl more ↦
            rw more (Anchored-prune_events events (Linked-Anchored e.hash e.sequence events a.3))
        | inr fits ↦ rw fits a
      ]

  -- The event comes after all events of the log; the first has a positive sequence.
  abbrev pub Later : ℕ → Option (Event D Time) → Type 0
  Later sequence none = 0 < sequence
  Later sequence (some e) = e.sequence < sequence

  sealed : ℕ → Time → Bytes → EventKind D → Event D Time
  sealed sequence timestamp previous_hash kind = record {
    sequence = sequence;
    timestamp = timestamp;
    previous_hash = previous_hash;
    hash = seal codec sequence timestamp previous_hash kind;
    kind = kind;
  }

  -- The hash and the sequence at the end of a chain.
  abbrev hash_after : Bytes → List (Event D Time) → Bytes
  hash_after h [] = h
  hash_after h (e ∷ events) = hash_after e.hash events

  abbrev sequence_after : ℕ → List (Event D Time) → ℕ
  sequence_after s [] = s
  sequence_after s (e ∷ events) = sequence_after e.sequence events

  Linked-append :
      (h : Bytes) (s : ℕ) (events : List (Event D Time)) (e : Event D Time)
      → Linked h s events
      → Linked (hash_after h events) (sequence_after s events) (e ∷ [])
      → Linked h s (events ++ e ∷ [])
  Linked-append h s [] e l k = k
  Linked-append h s (f ∷ events) e l k =
      (l.0, l.1, l.2, Linked-append f.hash f.sequence events e l.3 k)

  hash_after_last :
      (e : Event D Time) (events : List (Event D Time))
      → (hash_or_none (last_event (e ∷ events)) ≡ hash_after e.hash events)
        × ((n : ℕ) → Later n (last_event (e ∷ events)) → sequence_after e.sequence events < n)
  unfolding last_event
  hash_after_last e [] = (refl, λ n h. h)
  hash_after_last e (f ∷ events) = hash_after_last f events

  -- A log that verifies still verifies after an event with a later sequence is appended, also where
  -- the oldest event is dropped for it.
  pub verify-append :
      (self : EventLog D Time) (sequence : ℕ) (timestamp : Time) (kind : EventKind D)
      → verify codec self ≡ true
      → Later sequence (last_event self.events)
      → verify codec (append codec self sequence timestamp kind).0 ≡ true
  unfolding append sealed
  verify-append self sequence timestamp kind good later =
      (verify_iff (append codec self sequence timestamp kind).0).1 (
        Anchored-prune_events (self.events ++ new ∷ [])
          (grown self.events ((verify_iff self).0 good) later))
    where
      new : Event D Time
      new = sealed sequence timestamp (hash_or_none (last_event self.events)) kind

      grown :
          (events : List (Event D Time))
          → Anchored events
          → Later sequence (last_event events)
          → Anchored
              (events ++ sealed sequence timestamp (hash_or_none (last_event events)) kind ∷ [])
      grown [] a l = (refl, omega arith, refl, tt)
      grown (e ∷ events) a l =
          let (hash_is, seq_is) = hash_after_last e events in
          Linked-append e.previous_hash (e.sequence - 1) (e ∷ events) _ a
            (hash_is, seq_is sequence l, refl, tt)

  -- The seals of the two events do not collide: equal seals are of equal values.
  abbrev pub NoCollision : Event D Time → Event D Time → Type 0
  NoCollision e f =
      seal codec e.sequence e.timestamp e.previous_hash e.kind
        ≡ seal codec f.sequence f.timestamp f.previous_hash f.kind
      → (e.sequence ≡ f.sequence)
        × (e.timestamp ≡ f.timestamp)
        × (e.previous_hash ≡ f.previous_hash)
        × (e.kind ≡ f.kind)

  same_event :
      (e f : Event D Time)
      → NoCollision e f
      → e.hash ≡ seal codec e.sequence e.timestamp e.previous_hash e.kind
      → f.hash ≡ seal codec f.sequence f.timestamp f.previous_hash f.kind
      → e.hash ≡ f.hash
      → e ≡ f
  same_event e f free p q h =
      let (s, t, v, k) = free (sym p ∙ (h ∙ q)) in
      λ i. record { sequence = s i; timestamp = t i; previous_hash = v i; hash = h i; kind = k i }

  first_or : Event D Time → List (Event D Time) → Event D Time
  first_or d [] = d
  first_or d (e ∷ events) = e

  Linked-unique :
      (h h' : Bytes) (s s' : ℕ) (e f : Event D Time) (es fs : List (Event D Time))
      → All (λ x. All (NoCollision x) (f ∷ fs)) (e ∷ es)
      → length es ≡ length fs
      → Linked h s (e ∷ es)
      → Linked h' s' (f ∷ fs)
      → hash_after e.hash es ≡ hash_after f.hash fs
      → e ∷ es ≡ f ∷ fs
  unfolding first_or
  Linked-unique h h' s s' e f [] [] free n l k same =
      ap (λ x. x ∷ []) (same_event e f free.0.0 l.2 k.2 same)
  Linked-unique h h' s s' e f [] (g ∷ fs) free n l k same = absurd (omega (arith, n))
  Linked-unique h h' s s' e f (g ∷ es) [] free n l k same = absurd (omega (arith, n))
  Linked-unique h h' s s' e f (e' ∷ es) (f' ∷ fs) free n l k same =
      let later =
        Linked-unique e.hash f.hash e.sequence f.sequence e' f' es fs
          (All-map (λ x c. c.1) (e' ∷ es) free.1) (omega (arith, n)) l.3 k.3 same in
      let heads : e'.previous_hash ≡ f'.previous_hash =
        ap (λ x. (first_or e x).previous_hash) later in
      ap₂ ◌∷◌ (same_event e f free.0.0 l.2 k.2 (sym l.3.0 ∙ (heads ∙ k.3.0))) later

  -- Two logs that verify, of the same length and with the same last hash, are the same log, unless
  -- the seals of two of their events collide: a change of any retained event shows in the last hash.
  pub verify_unique :
      (self other : EventLog D Time)
      → All (λ e. All (NoCollision e) other.events) self.events
      → verify codec self ≡ true
      → verify codec other ≡ true
      → length self.events ≡ length other.events
      → hash_or_none (last_event self.events) ≡ hash_or_none (last_event other.events)
      → self.events ≡ other.events
  verify_unique self other free good good' n same =
      by_events self.events other.events free ((verify_iff self).0 good)
        ((verify_iff other).0 good') n same
    where
      by_events :
          (es fs : List (Event D Time))
          → All (λ e. All (NoCollision e) fs) es
          → Anchored es
          → Anchored fs
          → length es ≡ length fs
          → hash_or_none (last_event es) ≡ hash_or_none (last_event fs)
          → es ≡ fs
      by_events [] [] free a b n same = refl
      by_events [] (f ∷ fs) free a b n same = absurd (omega (arith, n))
      by_events (e ∷ es) [] free a b n same = absurd (omega (arith, n))
      by_events (e ∷ es) (f ∷ fs) free a b n same =
          Linked-unique e.previous_hash f.previous_hash (e.sequence - 1) (f.sequence - 1) e f es fs
            free (omega (arith, n)) a b
            (sym (hash_after_last e es).0 ∙ (same ∙ (hash_after_last f fs).0))
