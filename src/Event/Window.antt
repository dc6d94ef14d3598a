-- ===== src/Event/Window.antt =====
-- src/event.rs: which events `append` retains.
use asteria.Base.{
  ℕ, zero, suc, ◌+◌, ◌-◌, ◌≤◌, ◌<◌, ◌≡◌, refl, sym, ap, ◌∙◌, Bool-cases, inl, inr, List, [], ◌∷◌,
  ◌++◌, some, ltb, length, drop, length-append, length-drop, arith, min, ltb→lt, ltb-eq-false→le,
}
use asteria.Event.{
  Event, EventLog, EventKind, EventCodec, max_retained_events, prune_events, last_event, append,
}

drop-nil {ℓ} : {A : Type ℓ} (n : ℕ) → drop {A = A} n [] ≡ []
drop-nil zero = refl
drop-nil (suc n) = refl

module _ {D Time : Type 0} where
  -- Pruning drops exactly the events that are too many, from the front.
  pub prune_events-drop :
      (events : List (Event D Time))
      → prune_events events ≡ drop (length events - max_retained_events) events
  unfolding prune_events
  prune_events-drop [] = sym (drop-nil (0 - max_retained_events))
  prune_events-drop (e ∷ events) =
      elim (Bool-cases (ltb max_retained_events (suc (length events)))) [
        | inl more ↦
            let lt : max_retained_events < suc (length events) = ltb→lt _ _ more in
            let step : suc (length events) - max_retained_events
                ≡ suc (length events - max_retained_events) =
              omega arith in
            rw (more, step) (prune_events-drop events)
        | inr fits ↦
            let le : suc (length events) ≤ max_retained_events = ltb-eq-false→le _ _ fits in
            let step : suc (length events) - max_retained_events ≡ 0 = omega arith in
            rw (fits, step)
      ]

  last_event-append :
      (events : List (Event D Time)) (e : Event D Time) → last_event (events ++ e ∷ []) ≡ some e
  unfolding last_event
  last_event-append [] e = refl
  last_event-append (f ∷ []) e = refl
  last_event-append (f ∷ g ∷ events) e = last_event-append (g ∷ events) e

  last_event-drop :
      (n : ℕ) (events : List (Event D Time))
      → n < length events
      → last_event (drop n events) ≡ last_event events
  unfolding last_event
  last_event-drop zero events h = refl
  last_event-drop (suc n) [] h = refl
  last_event-drop (suc n) (e ∷ []) h = absurd (omega arith)
  last_event-drop (suc n) (e ∷ f ∷ events) h = last_event-drop n (f ∷ events) (omega arith)

  module _ (codec : EventCodec D Time) (self : EventLog D Time) (sequence : ℕ) (timestamp : Time)
      (kind : EventKind D) where
    -- What `append` keeps is the end of the log with the new event: at most 1024 events, all of them
    -- while there are no more, and the new event last.
    pub append-retains :
        let (next, event) = append codec self sequence timestamp kind in
        (next.events
          ≡ drop (length self.events + 1 - max_retained_events) (self.events ++ event ∷ []))
        × (length next.events ≡ min max_retained_events (length self.events + 1))
        × (last_event next.events ≡ some event)
    unfolding append
    append-retains = (
      same,
      rw same (rw (length-drop, grown) (omega arith)),
      rw same (
          last_event-drop (length self.events + 1 - max_retained_events) (self.events ++ event ∷ [])
            (rw grown (omega arith))
          ∙ last_event-append self.events event),
    )
      where
        event : Event D Time
        event = (append codec self sequence timestamp kind).1

        grown : length (self.events ++ event ∷ []) ≡ length self.events + 1
        grown = length-append self.events (event ∷ [])

        same :
            (append codec self sequence timestamp kind).0.events
            ≡ drop (length self.events + 1 - max_retained_events) (self.events ++ event ∷ [])
        same =
            prune_events-drop (self.events ++ event ∷ [])
            ∙ ap (λ n. drop (n - max_retained_events) (self.events ++ event ∷ [])) grown
