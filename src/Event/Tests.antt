-- ===== src/Event/Tests.antt =====
-- Runs of the event log on whole amounts and times, with stand-ins for serde_json, SHA-256 and hex,
-- and the theorems at these inputs.
use asteria.Base.{
  ℕ, ◌+◌, ◌-◌, ◌≤◌, ◌<◌, ◌≡◌, refl, [], ◌∷◌, ◌++◌, some, true, arith, All, length, min, take, drop,
}
use asteria.Event.{
  Event, EventLog, EventKind, account_credited, EventCodec, append, prune_events, last_event, seal,
  verify, after, max_retained_events,
}
use asteria.Event.Window.{append-retains}
use asteria.Event.Chain.{verify-append, verify_unique, NoCollision}
use asteria.Event.Polling.{after-take-drop}

abbrev codec : EventCodec ℕ ℕ
codec = record {
  to_vec = λ sequence timestamp previous_hash kind. sequence ∷ timestamp ∷ previous_hash;
  sha256 = λ bytes. bytes;
  hex_encode = λ bytes. bytes;
}

abbrev credit : EventKind ℕ
credit = account_credited (7 ∷ []) 10

abbrev first : Event ℕ ℕ
first = record {
  sequence = 1;
  timestamp = 50;
  previous_hash = 48 ∷ [];
  hash = 1 ∷ 50 ∷ 48 ∷ [];
  kind = credit;
}

abbrev second : Event ℕ ℕ
second = record {
  sequence = 2;
  timestamp = 60;
  previous_hash = 1 ∷ 50 ∷ 48 ∷ [];
  hash = 2 ∷ 60 ∷ 1 ∷ 50 ∷ 48 ∷ [];
  kind = credit;
}

abbrev log : EventLog ℕ ℕ
log = record { events = first ∷ second ∷ [] }

log_verifies : verify codec log ≡ true
unfolding verify seal
log_verifies = refl

append-retains_example :
    let (next, event) = append codec log 3 70 credit in
    (next.events ≡ drop (length log.events + 1 - max_retained_events) (log.events ++ event ∷ []))
    × (length next.events ≡ min max_retained_events (length log.events + 1))
    × (last_event next.events ≡ some event)
append-retains_example = append-retains codec log 3 70 credit

verify-append_example : verify codec (append codec log 3 70 credit).0 ≡ true
unfolding last_event
verify-append_example = verify-append codec log 3 70 credit log_verifies (omega arith)

-- The same log, as `append` makes it.
appended : EventLog ℕ ℕ
unfolding append prune_events last_event seal
appended = (append codec (record { events = first ∷ [] }) 2 60 credit).0

no_collisions : All (λ e. All (NoCollision codec e) appended.events) log.events
unfolding appended
no_collisions = (
  ((λ _. (refl, refl, refl, refl)), ((λ h. absurd (cc)), tt)),
  (((λ h. absurd (cc)), ((λ _. (refl, refl, refl, refl)), tt)), tt),
)

appended_verifies : verify codec appended ≡ true
unfolding verify appended
appended_verifies = refl

verify_unique_example : log.events ≡ appended.events
unfolding appended
verify_unique_example =
    verify_unique codec log appended no_collisions log_verifies appended_verifies refl refl

after-take-drop_example :
    (place : ℕ) × All (λ e. e.sequence ≤ 1) (take place log.events)
    × All (λ e. 1 < e.sequence) (drop place log.events)
    × (after log 1 10 ≡ take 10 (drop place log.events))
after-take-drop_example = after-take-drop codec log 1 10 log_verifies
