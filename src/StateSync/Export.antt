-- ===== src/StateSync/Export.antt =====
-- src/state_sync.rs: the snapshot that a serving node offers.
use asteria.Base.{
  ℕ, zero, suc, ◌-◌, not, List, [], ◌∷◌, map, Option, none, some, leb, ◌==◌, ◌||◌, if◌then◌else◌,
  length, min, u64_bound, checked_mul, checked_add, take, drop, Bytes, bytes_eq,
}
use asteria.Base.Result.{Result, ok, ◌>>=◌, ◌>>◌, fail_if, map_err}
use asteria.StateSync.Types.{
  state_snapshot_format, state_snapshot_chunk_bytes, snapshot_schema_version, u32_bound,
  SnapshotMetadata, SnapshotExport, state_error, StateSyncError, empty_snapshot, too_many_chunks,
  invalid_height, app_hash_mismatch, invalid_state, Codec,
}
use asteria.StateSync.Metadata.{
  validate_state_size, div_ceil, validate_metadata, canonical_metadata_bytes, hash_snapshot,
}

-- `chunks(n)` of a slice, for the number of chunks that it has.
unfoldable pub chunks_of : ℕ → ℕ → Bytes → List Bytes
chunks_of zero size bytes = []
chunks_of (suc count) size bytes = take size bytes ∷ chunks_of count size (drop size bytes)

unfoldable pub state_chunks : Bytes → List Bytes
unfolding chunks_of
state_chunks bytes =
    chunks_of (div_ceil (length bytes) state_snapshot_chunk_bytes) state_snapshot_chunk_bytes bytes

-- `Option` with `?`
infixl 5 ◌>>=?◌
abbrev ◌>>=?◌ : {A B : Type 0} → Option A → (A → Option B) → Option B
none >>=? f = none
some a >>=? f = f a

-- The slice `start..end`.
abbrev pub slice : Bytes → ℕ → ℕ → Bytes
slice bytes start end = take (end - start) (drop start bytes)

-- The height is that of the descriptor.
unfoldable pub load_chunk : SnapshotExport → ℕ → ℕ → ℕ → Option Bytes
load_chunk self height format index =
    if not (height == self.descriptor.height)
      || not (format == state_snapshot_format)
      || leb self.descriptor.chunks index
    then none
    else (checked_mul u64_bound index state_snapshot_chunk_bytes >>=? λ start.
        checked_add u64_bound start state_snapshot_chunk_bytes >>=? λ end.
        some (slice self.state_bytes start (min end (length self.state_bytes))))

module _ {EngineState : Type 0} (codec : Codec EngineState) where
  -- The metadata of a state with these canonical bytes.
  abbrev pub metadata_of : EngineState → Bytes → Bytes → SnapshotMetadata
  metadata_of state app_hash state_bytes = record {
    schema_version = snapshot_schema_version;
    chain_id = codec.chain_id state;
    height = codec.height state;
    app_hash = codec.hex_encode app_hash;
    state_bytes = length state_bytes;
    chunk_bytes = state_snapshot_chunk_bytes;
    chunk_hashes = map (λ chunk. codec.hex_encode (codec.sha256 chunk)) (state_chunks state_bytes);
  }

  unfoldable pub create : EngineState → Bytes → Result StateSyncError SnapshotExport
  create state app_hash = do
    computed ← map_err (λ e. invalid_state (state_error e)) (codec.compute_app_hash state)
    fail_if (not (bytes_eq computed app_hash)) app_hash_mismatch
    state_bytes ← map_err (λ e. invalid_state (state_error e)) (codec.canonical_state_bytes state)
    validate_state_size (length state_bytes)
    let metadata = metadata_of state app_hash state_bytes
    let chunks = length metadata.chunk_hashes
    fail_if (leb u32_bound chunks) too_many_chunks
    fail_if (chunks == 0) empty_snapshot
    validate_metadata codec metadata chunks
    metadata_bytes ← canonical_metadata_bytes codec metadata
    fail_if (not (codec.is_height (codec.height state))) (invalid_height (codec.height state))
    ok (record {
      descriptor = record {
        height = codec.height state;
        format = state_snapshot_format;
        chunks = chunks;
        hash = hash_snapshot codec metadata_bytes state_bytes;
        metadata = metadata_bytes;
      };
      state_bytes = state_bytes;
    })
