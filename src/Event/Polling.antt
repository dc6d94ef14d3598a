-- ===== src/Event/Polling.antt =====
-- src/event.rs: what `after` returns to a client that polls the log.
use asteria.Base.{
  ℕ, suc, ◌-◌, ◌≤◌, ◌<◌, ◌≡◌, refl, ap, Bool-cases, inl, inr, true, List, [], ◌∷◌, take, drop,
  filter, All, ltb, ltb→lt, lt→ltb, ltb-eq-false→le, arith, Bytes,
}
use asteria.Event.{Event, EventLog, EventCodec, after, verify}
use asteria.Event.Chain.{Linked, Anchored, verify_iff}

module _ {D Time : Type 0} where
  -- The events that come after, which are the rest of the log from some place on.
  pub record SplitAt (events : List (Event D Time)) (since : ℕ) : Type 0 where
    pub place : ℕ
    pub seen : All (λ e. e.sequence ≤ since) (take place events)
    pub new : All (λ e. since < e.sequence) (drop place events)
    pub found : filter (λ e. ltb since e.sequence) events ≡ drop place events

  filter_all :
      (since : ℕ) (events : List (Event D Time))
      → All (λ e. since < e.sequence) events
      → filter (λ e. ltb since e.sequence) events ≡ events
  filter_all since [] h = refl
  filter_all since (e ∷ events) h =
      rw (lt→ltb since e.sequence h.0) (ap (◌∷◌ e) (filter_all since events h.1))

  module _ (codec : EventCodec D Time) where
    Linked-later :
        (h : Bytes) (s since : ℕ) (events : List (Event D Time))
        → Linked codec h s events
        → since ≤ s
        → All (λ e. since < e.sequence) events
    Linked-later h s since [] l le = tt
    Linked-later h s since (e ∷ events) l le =
        (omega arith, Linked-later e.hash e.sequence since events l.3 (omega arith))

    split :
        (h : Bytes) (s since : ℕ) (events : List (Event D Time))
        → Linked codec h s events
        → SplitAt events since
    split h s since [] l = record { place = 0; seen = tt; new = tt; found = refl }
    split h s since (e ∷ events) l = elim (Bool-cases (ltb since e.sequence)) [
      | inl after_it ↦
          let all : All (λ x. since < x.sequence) (e ∷ events) = (
            ltb→lt _ _ after_it,
            Linked-later e.hash e.sequence since events l.3 (omega (arith, ltb→lt _ _ after_it)),
          ) in
          record { place = 0; seen = tt; new = all; found = filter_all since (e ∷ events) all }
      | inr before ↦
          let rest = split e.hash e.sequence since events l.3 in
          record {
            place = suc rest.place;
            seen = (ltb-eq-false→le _ _ before, rest.seen);
            new = rest.new;
            found = rw before rest.found;
          }
    ]

    -- On a log that verifies, one call of `after` returns the retained events from some place on, up to
    -- the limit: the retained events before that place have at most the given sequence, and those from
    -- it on have greater ones. Events that the log no longer retains are not returned.
    pub after-take-drop :
        (self : EventLog D Time) (since limit : ℕ)
        → verify codec self ≡ true
        → (place : ℕ) × All (λ e. e.sequence ≤ since) (take place self.events)
          × All (λ e. since < e.sequence) (drop place self.events)
          × (after self since limit ≡ take limit (drop place self.events))
    unfolding after
    after-take-drop self since limit good =
        let at = by_events self.events ((verify_iff codec self).0 good) in
        (at.place, at.seen, at.new, ap (take limit) at.found)
      where
        by_events : (events : List (Event D Time)) → Anchored codec events → SplitAt events since
        by_events [] a = record { place = 0; seen = tt; new = tt; found = refl }
        by_events (e ∷ events) a = split e.previous_hash (e.sequence - 1) since (e ∷ events) a
