-- ===== src/Event.antt =====
-- src/event.rs: the hash-chained log of events, of which the last ones are retained. `DateTime<Utc>`
-- is a type parameter; serde_json, SHA-256 and hex are the operations of `EventCodec`.
pub mod Window
pub mod Chain
pub mod Polling
mod Tests
use asteria.Base.{
  ℕ, ◌-◌, ◌≡◌, Bool, true, false, not, List, [], ◌∷◌, ◌++◌, Option, none, some, leb, ltb, ◌||◌,
  if◌then◌else◌, length, replicate, filter, take, Bytes, bytes_eq,
}
use asteria.Domain.{AccountId, Symbol, Uuid, Order, Trade, OracleSnapshot, SocializedLoss}

abbrev pub max_retained_events : ℕ
max_retained_events = 1024

pub data EventKind (D : Type 0) : Type 0 where
  account_credited : (account_id : AccountId) (amount : D) → EventKind D
  mark_price_updated : (symbol : Symbol) (mark_price : D) → EventKind D
  order_accepted : (order : Order D) → EventKind D
  order_cancelled : (order_id : Uuid) (account_id : AccountId) (reason : Bytes) → EventKind D
  trade_executed : (trade : Trade D) → EventKind D
  funding_applied : (symbol : Symbol) (rate funding_index funding_pool : D) → EventKind D
  oracle_price_published : (snapshot : OracleSnapshot D) → EventKind D
  liquidation_executed :
      (account_id : AccountId) (symbol : Symbol)
      (closed_quantity remaining_quantity penalty bad_debt insurance_used fee_vault_used : D)
      (socialized_losses : List (SocializedLoss D))
      → EventKind D
  private_order_queued :
      (submission_id : Bytes) (account_id : AccountId) (market_id : Symbol) (batch_height : ℕ)
      (fee bond : D)
      → EventKind D
  private_order_invalid : (submission_id reason : Bytes) → EventKind D
  private_batch_cleared :
      (market_id : Symbol) (batch_height : ℕ) (clearing_price : Option D) (matched_quantity : D)
      (valid_orders invalid_orders : ℕ)
      → EventKind D
  shielded_market_configured : (market_id : Bytes) → EventKind D
  shielded_deposit_committed :
      (market_id : Bytes) (leaf_index backing_amount : ℕ) (new_root : Bytes) → EventKind D
  shielded_spend_applied :
      (market_id : Bytes) (nullifier_count output_count fee : ℕ) (new_root : Bytes) → EventKind D

pub record Event (D Time : Type 0) : Type 0 where
  pub sequence : ℕ
  pub timestamp : Time
  pub previous_hash : Bytes
  pub hash : Bytes
  pub kind : EventKind D

pub record EventLog (D Time : Type 0) : Type 0 where
  pub events : List (Event D Time)

-- `serde_json::to_vec` of the four sealed values, `Sha256::digest` and `hex::encode`.
pub record EventCodec (D Time : Type 0) : Type 0 where
  pub to_vec : ℕ → Time → Bytes → EventKind D → Bytes
  pub sha256 : Bytes → Bytes
  pub hex_encode : Bytes → Bytes

-- `"0".repeat(64)`
abbrev pub no_hash : Bytes
no_hash = replicate 64 b'0'

module _ {D Time : Type 0} where
  -- `back`
  unfoldable pub last_event : List (Event D Time) → Option (Event D Time)
  last_event [] = none
  last_event (e ∷ []) = some e
  last_event (e ∷ f ∷ events) = last_event (f ∷ events)

  abbrev pub hash_or_none : Option (Event D Time) → Bytes
  hash_or_none none = no_hash
  hash_or_none (some e) = e.hash

  -- The front goes while there are more than the log retains.
  unfoldable pub prune_events : List (Event D Time) → List (Event D Time)
  prune_events [] = []
  prune_events (e ∷ events) =
      if ltb max_retained_events (length (e ∷ events)) then prune_events events else e ∷ events

  unfoldable pub prune : EventLog D Time → EventLog D Time
  unfolding prune_events
  prune self = record { events = prune_events self.events }

  unfoldable pub after : EventLog D Time → ℕ → ℕ → List (Event D Time)
  after self sequence limit = take limit (filter (λ e. ltb sequence e.sequence) self.events)

module _ {D Time : Type 0} (codec : EventCodec D Time) where
  unfoldable pub seal : ℕ → Time → Bytes → EventKind D → Bytes
  seal sequence timestamp previous_hash kind =
      codec.hex_encode (codec.sha256 (codec.to_vec sequence timestamp previous_hash kind))

  unfoldable pub append : EventLog D Time → ℕ → Time → EventKind D → EventLog D Time × Event D Time
  unfolding last_event prune
  append self sequence timestamp kind =
      let previous_hash = hash_or_none (last_event self.events) in
      let event : Event D Time = record {
        sequence = sequence;
        timestamp = timestamp;
        previous_hash = previous_hash;
        hash = seal sequence timestamp previous_hash kind;
        kind = kind;
      } in
      (prune (record { events = self.events ++ event ∷ [] }), event)

  -- The loop of `verify`, from the previous hash and sequence on.
  unfoldable pub verify_from : Bytes → ℕ → List (Event D Time) → Bool
  verify_from previous_hash previous_sequence [] = true
  verify_from previous_hash previous_sequence (event ∷ events) =
      let rest = verify_from event.hash event.sequence events in
      if not (bytes_eq event.previous_hash previous_hash) || leb event.sequence previous_sequence
      then false
      else if not
          (bytes_eq event.hash (seal event.sequence event.timestamp event.previous_hash event.kind))
      then false
      else rest

  -- The window is anchored by the previous hash of its first event.
  abbrev pub verify_events : List (Event D Time) → Bool
  verify_events [] = true
  verify_events (first ∷ events) =
      verify_from first.previous_hash (first.sequence - 1) (first ∷ events)

  unfoldable pub verify : EventLog D Time → Bool
  unfolding verify_from
  verify self = verify_events self.events
