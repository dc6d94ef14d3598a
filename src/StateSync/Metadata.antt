-- ===== src/StateSync/Metadata.antt =====
-- src/state_sync.rs: the checks of sizes, hashes and metadata.
use asteria.Base.{
  be_bytes, ℕ, ◌+◌, ◌-◌, ◌/◌, not, List, [], ◌∷◌, ◌++◌, ltb, leb, ◌==◌, ◌&&◌, ◌||◌, if◌then◌else◌,
  length, min, u64_bound, checked_mul, Bytes, bytes_eq,
}
use asteria.Base.Result.{Result, ok, err, ◌>>=◌, ◌>>◌, ok_or, fail_if, map_err}
use asteria.StateSync.Types.{
  state_snapshot_chunk_bytes, max_state_snapshot_bytes, max_state_snapshot_metadata_bytes,
  snapshot_schema_version, max_chain_id_bytes, snapshot_hash_domain, u32_bound, SnapshotMetadata,
  HashLabel, metadata_app_hash, chunk_hash, unsupported_schema, invalid_chain_id,
  unexpected_chunk_size, chunk_count_mismatch, parse_error, StateSyncError, empty_snapshot,
  snapshot_too_large, metadata_too_large, too_many_chunks, invalid_height, invalid_hash,
  non_canonical_metadata, invalid_metadata, Codec, all_hex_digits,
}

unfoldable pub validate_state_size : ℕ → Result StateSyncError (Unit {0})
validate_state_size len = do
  fail_if (len == 0) empty_snapshot
  fail_if (ltb max_state_snapshot_bytes len) snapshot_too_large

-- A slice as a `[u8; 32]`.
unfoldable pub fixed_hash : Bytes → HashLabel → Result StateSyncError Bytes
fixed_hash bytes label = if length bytes == 32 then ok bytes else err (invalid_hash label)

-- `div_ceil`
abbrev pub div_ceil : ℕ → ℕ → ℕ
div_ceil n d = (n + d - 1) / d

unfoldable pub expected_chunk_len : SnapshotMetadata → ℕ → Result StateSyncError ℕ
expected_chunk_len metadata index = do
  start ← ok_or (checked_mul u64_bound index state_snapshot_chunk_bytes) snapshot_too_large
  fail_if (leb metadata.state_bytes start) too_many_chunks
  ok (min (metadata.state_bytes - start) state_snapshot_chunk_bytes)

module _ {EngineState : Type 0} (codec : Codec EngineState) where
  -- `try_into` of what `hex::decode` gives, after the test for lower-case digits.
  unfoldable pub decode_hash : Bytes → HashLabel → Result StateSyncError Bytes
  decode_hash encoded label = do
    fail_if (not (length encoded == 64) || not (all_hex_digits encoded)) (invalid_hash label)
    decoded ← ok_or (codec.hex_decode encoded) (invalid_hash label)
    fixed_hash decoded label

  unfoldable pub decode_hashes : List Bytes → Result StateSyncError (Unit {0})
  decode_hashes [] = ok tt
  decode_hashes (hash ∷ hashes) = do decode_hash hash chunk_hash; decode_hashes hashes

  -- `usize::try_from` of a `u64` does not fail on a 64-bit target.
  unfoldable pub validate_metadata : SnapshotMetadata → ℕ → Result StateSyncError (Unit {0})
  validate_metadata metadata descriptor_chunks = do
    fail_if (not (metadata.schema_version == snapshot_schema_version))
        (invalid_metadata (unsupported_schema metadata.schema_version))
    fail_if
        (length metadata.chain_id == 0
          || ltb max_chain_id_bytes (length metadata.chain_id)
          || not (bytes_eq (codec.trim metadata.chain_id) metadata.chain_id))
        (invalid_metadata invalid_chain_id)
    fail_if (metadata.height == 0) (invalid_height metadata.height)
    decode_hash metadata.app_hash metadata_app_hash
    validate_state_size metadata.state_bytes
    fail_if (not (metadata.chunk_bytes == state_snapshot_chunk_bytes))
        (invalid_metadata unexpected_chunk_size)
    let expected_chunks = div_ceil metadata.state_bytes state_snapshot_chunk_bytes
    fail_if
        (expected_chunks == 0
          || not (expected_chunks == length metadata.chunk_hashes)
          || not (ltb expected_chunks u32_bound && expected_chunks == descriptor_chunks))
        (invalid_metadata chunk_count_mismatch)
    decode_hashes metadata.chunk_hashes

  unfoldable pub canonical_metadata_bytes : SnapshotMetadata → Result StateSyncError Bytes
  canonical_metadata_bytes metadata = do
    bytes ← map_err (λ e. invalid_metadata (parse_error e)) (codec.metadata_to_vec metadata)
    fail_if (ltb max_state_snapshot_metadata_bytes (length bytes)) metadata_too_large
    ok bytes

  unfoldable pub decode_metadata : Bytes → Result StateSyncError SnapshotMetadata
  decode_metadata bytes = do
    fail_if (length bytes == 0 || ltb max_state_snapshot_metadata_bytes (length bytes))
        metadata_too_large
    metadata ← map_err (λ e. invalid_metadata (parse_error e)) (codec.metadata_from_slice bytes)
    canonical ← canonical_metadata_bytes metadata
    fail_if (not (bytes_eq canonical bytes)) non_canonical_metadata
    ok metadata

  unfoldable pub hash_snapshot : Bytes → Bytes → Bytes
  hash_snapshot metadata state = codec.sha256 (
      snapshot_hash_domain
      ++ (be_bytes 8 (length metadata) ++ (metadata ++ (be_bytes 8 (length state) ++ state))))
