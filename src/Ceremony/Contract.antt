-- ===== src/Ceremony/Contract.antt =====
-- src/dkg_ceremony.rs: what a durable journal promises.
use asteria.Base.{
  ℕ, ◌+◌, ◌<◌, ◌≡◌, true, Option, none, some, Bytes, bytes_eq, if◌then◌else◌, u64_bound,
}
use asteria.Base.Result.{Result, ok, err}
use asteria.Ceremony.Types.{Record, JournalError}
use asteria.Ceremony.Record.{same_binding, valid_phase_transition}
use asteria.Ceremony.Journal.{Journal}

-- The record that a swap may put in the place of another.
pub record Follows (current next : Record) : Type 0 where
  pub revision : next.revision ≡ current.revision + 1
  pub fits : next.revision < u64_bound
  pub binding : same_binding current next ≡ true
  pub transition : valid_phase_transition current.phase next.phase ≡ true

-- A journal as a map from ids to records, with the records that it can store.
module _ {J : Type 0} (IsGood : J → Type 0) (view : J → Bytes → Option Record) where
  -- The map has this record at the id, and is as before elsewhere.
  abbrev pub Stores : J → J → Bytes → Record → Type 0
  Stores before after id self =
      IsGood after
      × ((key : Bytes) → view after key ≡ (if bytes_eq key id then some self else view before key))

  -- A swap replaces the record at the id by one that follows it, or changes nothing.
  abbrev pub SwapOutcome : J → Bytes → ℕ → Record → J × Result JournalError (Unit {0}) → Type 0
  SwapOutcome before id expected next (after, ok _) =
      (current : Record) × (view before id ≡ some current)
      × (current.revision ≡ expected)
      × Follows current next
      × (next.session.ceremony_id ≡ id)
      × Stores before after id next
  SwapOutcome before id expected next (after, err _) = after ≡ before

  -- A record is created where there is none, or nothing changes.
  abbrev pub CreateOutcome : J → Record → J × Result JournalError (Unit {0}) → Type 0
  CreateOutcome before self (after, ok _) =
      (view before self.session.ceremony_id ≡ none)
      × Stores before after self.session.ceremony_id self
  CreateOutcome before self (after, err _) = after ≡ before

-- The calls of a journal are atomic and read what was stored; a swap that follows the stored record
-- succeeds where the next record can be stored.
pub record JournalContract {J : Type 0} (durable : Journal J) (IsGood : J → Type 0)
    (view : J → Bytes → Option Record) (Storable : Record → Type 0) : Type 0 where
  pub loads : (j : J) (id : Bytes) → IsGood j → durable.load j id ≡ ok (view j id)
  pub creates :
      (j : J) (self : Record) → IsGood j → CreateOutcome IsGood view j self (durable.create self j)
  pub swaps :
      (j : J) (id : Bytes) (expected : ℕ) (next : Record)
      → IsGood j
      → SwapOutcome IsGood view j id expected next (durable.compare_and_swap id expected next j)
  pub accepts :
      (j : J) (id : Bytes) (current next : Record)
      → IsGood j
      → view j id ≡ some current
      → next.session.ceremony_id ≡ id
      → Follows current next
      → Storable next
      → (after : J) × (durable.compare_and_swap id current.revision next j ≡ (after, ok tt))
