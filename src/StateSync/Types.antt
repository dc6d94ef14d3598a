-- ===== src/StateSync/Types.antt =====
-- src/state_sync.rs: the data of snapshots, and the interface to the code that they rest on.
-- Strings and byte vectors are lists of bytes.
use asteria.Base.{
  Bytes, ℕ, ◌*◌, ◌^◌, ◌<◌, ◌≡◌, Bool, true, List, [], ◌∷◌, Option, some, length, All, leb, ◌&&◌,
  ◌||◌,
}
use asteria.Base.Result.{Result, ok}

abbrev pub state_snapshot_format : ℕ
state_snapshot_format = 1

abbrev pub state_snapshot_chunk_bytes : ℕ
state_snapshot_chunk_bytes = 4 * 1024 * 1024

abbrev pub max_state_snapshot_bytes : ℕ
max_state_snapshot_bytes = 512 * 1024 * 1024

abbrev pub max_state_snapshot_metadata_bytes : ℕ
max_state_snapshot_metadata_bytes = 1024 * 1024

abbrev pub snapshot_schema_version : ℕ
snapshot_schema_version = 1

abbrev pub max_chain_id_bytes : ℕ
max_chain_id_bytes = 128

-- `ASTERIA_STATE_SNAPSHOT_V1` and a zero byte
abbrev pub snapshot_hash_domain : Bytes
snapshot_hash_domain =
    65 ∷ 83 ∷ 84 ∷ 69 ∷ 82 ∷ 73 ∷ 65 ∷ 95 ∷ 83 ∷ 84 ∷ 65 ∷ 84 ∷ 69 ∷ 95 ∷ 83 ∷ 78 ∷ 65 ∷ 80 ∷ 83
    ∷ 72 ∷ 79 ∷ 84 ∷ 95 ∷ 86 ∷ 49 ∷ 0 ∷ []

abbrev pub u32_bound : ℕ
u32_bound = 2 ^ 32

pub record SnapshotMetadata : Type 0 where
  pub schema_version : ℕ
  pub chain_id : Bytes
  pub height : ℕ
  pub app_hash : Bytes
  pub state_bytes : ℕ
  pub chunk_bytes : ℕ
  pub chunk_hashes : List Bytes

-- `tendermint::abci::types::Snapshot`
pub record Snapshot : Type 0 where
  pub height : ℕ
  pub format : ℕ
  pub chunks : ℕ
  pub hash : Bytes
  pub metadata : Bytes

-- `StateSnapshotExport`
pub record SnapshotExport : Type 0 where
  pub descriptor : Snapshot
  pub state_bytes : Bytes

-- `StateSnapshotImport`
pub record SnapshotImport : Type 0 where
  pub metadata : SnapshotMetadata
  pub metadata_bytes : Bytes
  pub expected_snapshot_hash : Bytes
  pub expected_app_hash : Bytes
  pub chunks : List Bytes

-- The label of an `InvalidHash`.
pub data HashLabel : Type 0 where
  snapshot_hash light_client_app_hash metadata_app_hash chunk_hash : HashLabel

-- The message of an `InvalidMetadata`; `parse_error` carries that of serde.
pub data MetadataFault : Type 0 where
  unsupported_schema : ℕ → MetadataFault
  invalid_chain_id unexpected_chunk_size chunk_count_mismatch : MetadataFault
  parse_error : Bytes → MetadataFault

-- The message of an `InvalidState`: an error of the engine or of serde, or the audit's errors.
pub data StateFault : Type 0 where
  state_error : Bytes → StateFault
  audit_failed : List Bytes → StateFault

pub data StateSyncError : Type 0 where
  empty_snapshot snapshot_too_large metadata_too_large too_many_chunks : StateSyncError
  unsupported_format invalid_height : ℕ → StateSyncError
  invalid_hash : HashLabel → StateSyncError
  non_canonical_metadata : StateSyncError
  invalid_metadata : MetadataFault → StateSyncError
  height_mismatch : ℕ → ℕ → StateSyncError
  app_hash_mismatch : StateSyncError
  unexpected_chunk : ℕ → ℕ → StateSyncError
  invalid_chunk_length : ℕ → ℕ → ℕ → StateSyncError
  invalid_chunk_hash : ℕ → StateSyncError
  incomplete_snapshot : ℕ → ℕ → StateSyncError
  invalid_state_length : ℕ → ℕ → StateSyncError
  snapshot_hash_mismatch non_canonical_state state_identity_mismatch : StateSyncError
  invalid_state : StateFault → StateSyncError

-- What the snapshots use of other code: SHA-256 and hex, JSON (`serde_jcs` to write the metadata,
-- `serde_json` to read), `str::trim` with its table of white space, the range of
-- `tendermint::block::Height`, and the engine's state with its canonical bytes, hash and audit.
pub record Codec (EngineState : Type 0) : Type 0 where
  pub sha256 : Bytes → Bytes
  pub hex_encode : Bytes → Bytes
  pub hex_decode : Bytes → Option Bytes
  pub metadata_to_vec : SnapshotMetadata → Result Bytes Bytes
  pub metadata_from_slice : Bytes → Result Bytes SnapshotMetadata
  pub trim : Bytes → Bytes
  pub is_height : ℕ → Bool
  pub canonical_state_bytes : EngineState → Result Bytes Bytes
  pub state_from_slice : Bytes → Result Bytes EngineState
  pub compute_app_hash : EngineState → Result Bytes Bytes
  pub audit_healthy : EngineState → Bool
  pub audit_errors : EngineState → List Bytes
  pub chain_id : EngineState → Bytes
  pub height : EngineState → ℕ

-- A `[u8; 32]`.
abbrev pub IsHash : Bytes → Type 0
IsHash h = (length h ≡ 32) × All (λ b. b < 256) h

-- 64 characters, each a decimal digit or one of `a` to `f`.
abbrev pub is_hex_digit : ℕ → Bool
is_hex_digit c = leb b'0' c && leb c b'9' || leb b'a' c && leb c b'f'

abbrev pub all_hex_digits : Bytes → Bool
all_hex_digits [] = true
all_hex_digits (c ∷ cs) = is_hex_digit c && all_hex_digits cs

-- The documented behaviour that a round trip rests on: hashes have 32 bytes, hex writes them in 64
-- lower-case digits and reads them back, and what is serialised is read back.
pub record CodecLaws {EngineState : Type 0} (codec : Codec EngineState) : Type 0 where
  pub sha256-IsHash : (b : Bytes) → IsHash (codec.sha256 b)
  pub hex_decode-encode : (h : Bytes) → IsHash h → codec.hex_decode (codec.hex_encode h) ≡ some h
  pub length-hex_encode : (h : Bytes) → IsHash h → length (codec.hex_encode h) ≡ 64
  pub hex_encode-digits : (h : Bytes) → IsHash h → all_hex_digits (codec.hex_encode h) ≡ true
  pub metadata_parses :
      (m : SnapshotMetadata) (b : Bytes)
      → codec.metadata_to_vec m ≡ ok b
      → codec.metadata_from_slice b ≡ ok m
  pub metadata_nonempty :
      (m : SnapshotMetadata) (b : Bytes) → codec.metadata_to_vec m ≡ ok b → 0 < length b
  pub state_parses :
      (s : EngineState) (b : Bytes)
      → codec.canonical_state_bytes s ≡ ok b
      → codec.state_from_slice b ≡ ok s
  pub app_hash-IsHash : (s : EngineState) (h : Bytes) → codec.compute_app_hash s ≡ ok h → IsHash h
