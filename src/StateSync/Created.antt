-- ===== src/StateSync/Created.antt =====
-- src/state_sync.rs: what a created snapshot is made of.
use asteria.Base.{
  not-eq-false, bytes_eq→eq, ℕ, ◌≤◌, ◌<◌, ◌≡◌, refl, subst, not, arith, ltb, leb, ◌==◌, length,
  Bytes, bytes_eq,
}
use asteria.Base.Result.{ok, fail_if, >>=-eq-ok, map_err, map_err-eq-ok, ok-inj, fail_if-eq-ok}
use asteria.StateSync.Types.{
  SnapshotMetadata, SnapshotExport, Codec, state_snapshot_format, max_state_snapshot_bytes,
  u32_bound, max_state_snapshot_metadata_bytes,
}
use asteria.StateSync.Metadata.{
  validate_state_size, validate_metadata, canonical_metadata_bytes, hash_snapshot,
}
use asteria.StateSync.Export.{create, metadata_of}

pub validate_state_size-eq-ok :
    (n : ℕ) {u : Unit {0}} → validate_state_size n ≡ ok u → (0 < n) × (n ≤ max_state_snapshot_bytes)
unfolding validate_state_size
validate_state_size-eq-ok n h = (ground arith, ground arith)

module _ {EngineState : Type 0} (codec : Codec EngineState) where
  -- A snapshot of the state under its application hash, with metadata that the node accepts itself.
  pub record IsSnapshotOf (state : EngineState) (app_hash : Bytes) (e : SnapshotExport)
      : Type 0 where
    pub hashed : codec.compute_app_hash state ≡ ok app_hash
    pub canonical : codec.canonical_state_bytes state ≡ ok e.state_bytes
    pub nonempty : 0 < length e.state_bytes
    pub small : length e.state_bytes ≤ max_state_snapshot_bytes
    pub valid :
        validate_metadata codec (metadata_of codec state app_hash e.state_bytes) e.descriptor.chunks
        ≡ ok tt
    pub encoded :
        codec.metadata_to_vec (metadata_of codec state app_hash e.state_bytes)
        ≡ ok e.descriptor.metadata
    pub encoded_small : length e.descriptor.metadata ≤ max_state_snapshot_metadata_bytes
    pub height : e.descriptor.height ≡ codec.height state
    pub format : e.descriptor.format ≡ state_snapshot_format
    pub chunks :
        e.descriptor.chunks ≡ length (metadata_of codec state app_hash e.state_bytes).chunk_hashes
    pub hash : e.descriptor.hash ≡ hash_snapshot codec e.descriptor.metadata e.state_bytes

  canonical_metadata_bytes-eq-ok :
      (m : SnapshotMetadata) {b : Bytes}
      → canonical_metadata_bytes codec m ≡ ok b
      → (codec.metadata_to_vec m ≡ ok b) × (length b ≤ max_state_snapshot_metadata_bytes)
  unfolding canonical_metadata_bytes
  canonical_metadata_bytes-eq-ok m {b} h =
      let (c, r, h1) = >>=-eq-ok (map_err _ (codec.metadata_to_vec m)) _ h in
      let (u, f, h2) =
        >>=-eq-ok (fail_if (ltb max_state_snapshot_metadata_bytes (length c)) _) _ h1 in
      let same : c ≡ b = cc in
      (rw (← same) (map_err-eq-ok _ _ r), rw (← same) (ground (arith, fail_if-eq-ok _ _ f)))

  -- Whatever `create` returns is such a snapshot.
  pub create-IsSnapshotOf :
      (state : EngineState) (app_hash : Bytes) (e : SnapshotExport)
      → create codec state app_hash ≡ ok e
      → IsSnapshotOf state app_hash e
  unfolding create
  create-IsSnapshotOf state h e run =
      let (computed, r1, k1) = >>=-eq-ok (map_err _ (codec.compute_app_hash state)) _ run in
      let (_, f2, k2) = >>=-eq-ok (fail_if (not (bytes_eq computed h)) _) _ k1 in
      let (bytes, r3, k3) = >>=-eq-ok (map_err _ (codec.canonical_state_bytes state)) _ k2 in
      let m = metadata_of codec state h bytes in
      let (_, f4, k4) = >>=-eq-ok (validate_state_size (length bytes)) _ k3 in
      let (_, f5, k5) = >>=-eq-ok (fail_if (leb u32_bound (length m.chunk_hashes)) _) _ k4 in
      let (_, f6, k6) = >>=-eq-ok (fail_if (length m.chunk_hashes == 0) _) _ k5 in
      let (_, r7, k7) = >>=-eq-ok (validate_metadata codec m (length m.chunk_hashes)) _ k6 in
      let (encoded, r8, k8) = >>=-eq-ok (canonical_metadata_bytes codec m) _ k7 in
      let (_, f9, k9) = >>=-eq-ok (fail_if (not (codec.is_height (codec.height state))) _) _ k8 in
      let same_hash = bytes_eq→eq computed h (not-eq-false _ (fail_if-eq-ok _ _ f2)) in
      let (vec, vec_small) = canonical_metadata_bytes-eq-ok m r8 in
      let (pos, small) = validate_state_size-eq-ok (length bytes) f4 in
      let made : _ ≡ e = ok-inj k9 in
      subst (IsSnapshotOf state h) made (record {
        hashed = rw (← same_hash) (map_err-eq-ok _ _ r1);
        canonical = map_err-eq-ok _ _ r3;
        nonempty = pos;
        small = small;
        valid = r7;
        encoded = vec;
        encoded_small = vec_small;
        height = refl;
        format = refl;
        chunks = refl;
        hash = refl;
      })
