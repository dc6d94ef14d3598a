-- ===== src/StateSync/Import.antt =====
-- src/state_sync.rs: the bounded state of a node that receives a snapshot.
-- A method that fails leaves the import as it was.
use asteria.Base.{
  ℕ, suc, Bool, not, List, [], ◌∷◌, ◌++◌, leb, ◌==◌, ◌||◌, length, replicate, get_or, flatten,
  Bytes, bytes_eq,
}
use asteria.Base.Result.{Result, ok, ◌>>=◌, ◌>>◌, fail_if, map_err}
use asteria.StateSync.Types.{
  state_snapshot_format, Snapshot, SnapshotImport, snapshot_hash, light_client_app_hash,
  metadata_app_hash, state_error, audit_failed, StateSyncError, unsupported_format, invalid_hash,
  height_mismatch, app_hash_mismatch, unexpected_chunk, invalid_chunk_length, invalid_chunk_hash,
  incomplete_snapshot, invalid_state_length, snapshot_hash_mismatch, non_canonical_state,
  state_identity_mismatch, invalid_state, Codec,
}
use asteria.StateSync.Metadata.{
  fixed_hash, expected_chunk_len, decode_hash, validate_metadata, decode_metadata, hash_snapshot,
}

unfoldable pub expected_index : SnapshotImport → ℕ
expected_index self = length self.chunks

unfoldable pub chunk_count : SnapshotImport → ℕ
chunk_count self = length self.metadata.chunk_hashes

module _ {EngineState : Type 0} (codec : Codec EngineState) where
  unfoldable pub from_offer : Snapshot → Bytes → Result StateSyncError SnapshotImport
  from_offer snapshot light_client_hash = do
    fail_if (not (snapshot.format == state_snapshot_format)) (unsupported_format snapshot.format)
    fail_if (not (length snapshot.hash == 32)) (invalid_hash snapshot_hash)
    expected_snapshot_hash ← fixed_hash snapshot.hash snapshot_hash
    fail_if (bytes_eq expected_snapshot_hash (replicate 32 0)) (invalid_hash snapshot_hash)
    expected_app_hash ← fixed_hash light_client_hash light_client_app_hash
    metadata ← decode_metadata codec snapshot.metadata
    validate_metadata codec metadata snapshot.chunks
    fail_if (not (snapshot.height == metadata.height))
        (height_mismatch snapshot.height metadata.height)
    decoded ← decode_hash codec metadata.app_hash metadata_app_hash
    fail_if (not (bytes_eq decoded expected_app_hash)) app_hash_mismatch
    ok (record {
      metadata = metadata;
      metadata_bytes = snapshot.metadata;
      expected_snapshot_hash = expected_snapshot_hash;
      expected_app_hash = expected_app_hash;
      chunks = [];
    })

  -- The new import, and whether it is complete.
  unfoldable pub apply_chunk :
      SnapshotImport → ℕ → Bytes → Result StateSyncError (SnapshotImport × Bool)
  unfolding expected_index chunk_count
  apply_chunk self index chunk = do
    let expected = expected_index self
    fail_if (not (index == expected)) (unexpected_chunk expected index)
    fail_if (leb (chunk_count self) index) (unexpected_chunk expected index)
    expected_len ← expected_chunk_len self.metadata index
    fail_if (not (length chunk == expected_len))
        (invalid_chunk_length index expected_len (length chunk))
    let actual_hash = codec.hex_encode (codec.sha256 chunk)
    fail_if (not (bytes_eq actual_hash (get_or self.metadata.chunk_hashes index [])))
        (invalid_chunk_hash index)
    let next = record self { chunks = self.chunks ++ chunk ∷ [] }
    ok (next, expected_index next == chunk_count next)

  unfoldable pub finalize : SnapshotImport → Result StateSyncError EngineState
  unfolding expected_index chunk_count
  finalize self = do
    fail_if (not (expected_index self == chunk_count self))
        (incomplete_snapshot (chunk_count self) (expected_index self))
    let bytes = flatten self.chunks
    fail_if (not (length bytes == self.metadata.state_bytes))
        (invalid_state_length self.metadata.state_bytes (length bytes))
    fail_if
        (not (bytes_eq (hash_snapshot codec self.metadata_bytes bytes) self.expected_snapshot_hash))
        snapshot_hash_mismatch
    state ← map_err (λ e. invalid_state (state_error e)) (codec.state_from_slice bytes)
    canonical ← map_err (λ e. invalid_state (state_error e)) (codec.canonical_state_bytes state)
    fail_if (not (bytes_eq canonical bytes)) non_canonical_state
    fail_if
        (not (bytes_eq (codec.chain_id state) self.metadata.chain_id)
          || not (codec.height state == self.metadata.height))
        state_identity_mismatch
    computed ← map_err (λ e. invalid_state (state_error e)) (codec.compute_app_hash state)
    fail_if (not (bytes_eq computed self.expected_app_hash)) app_hash_mismatch
    fail_if (not (codec.audit_healthy state))
        (invalid_state (audit_failed (codec.audit_errors state)))
    ok state

  -- The receiving node: the chunks in the order in which they arrive, from an index on.
  unfoldable pub apply_chunks :
      SnapshotImport → ℕ → List Bytes → Result StateSyncError SnapshotImport
  apply_chunks self index [] = ok self
  apply_chunks self index (chunk ∷ chunks) = do
    (next, done) ← apply_chunk self index chunk
    apply_chunks next (suc index) chunks
