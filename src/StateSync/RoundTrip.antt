-- ===== src/StateSync/RoundTrip.antt =====
-- src/state_sync.rs: a snapshot that one node serves is restored by another to the same state.
use asteria.Base.{
  ◌≤◌, ◌≡◌, refl, true, false, [], arith, ltb, ◌==◌, ◌||◌, ==-refl, length, replicate, Bytes,
  bytes_eq, bytes_eq_refl,
}
use asteria.Base.Result.{ok, ◌>>=◌}
use asteria.StateSync.Types.{
  SnapshotMetadata, SnapshotExport, SnapshotImport, Codec, CodecLaws, IsHash,
  max_state_snapshot_metadata_bytes, metadata_app_hash, HashLabel,
}
use asteria.StateSync.Metadata.{
  decode_hash, fixed_hash, decode_metadata, canonical_metadata_bytes, hash_snapshot,
}
use asteria.StateSync.Export.{create, metadata_of, state_chunks}
use asteria.StateSync.Import.{from_offer, apply_chunks, finalize}
use asteria.StateSync.Chunks.{state_chunks_correct}
use asteria.StateSync.Created.{IsSnapshotOf, create-IsSnapshotOf}
use asteria.StateSync.Delivery.{apply_chunks-all, chunk_digest, length-map}

module _ {EngineState : Type 0} (codec : Codec EngineState) (laws : CodecLaws codec) where
  decode_hash-encode :
      (h : Bytes) (label : HashLabel)
      → IsHash h
      → decode_hash codec (codec.hex_encode h) label ≡ ok h
  unfolding decode_hash fixed_hash
  decode_hash-encode h label w =
      rw (laws.length-hex_encode h w, laws.hex_encode-digits h w, laws.hex_decode-encode h w, w.0)

  hash_snapshot-length : (m b : Bytes) → length (hash_snapshot codec m b) ≡ 32
  unfolding hash_snapshot
  hash_snapshot-length m b = (laws.sha256-IsHash _).0

  decode_metadata-encoded :
      (m : SnapshotMetadata) (b : Bytes)
      → codec.metadata_to_vec m ≡ ok b
      → length b ≤ max_state_snapshot_metadata_bytes
      → decode_metadata codec b ≡ ok m
  unfolding decode_metadata canonical_metadata_bytes
  decode_metadata-encoded m b e small =
      let nonempty = laws.metadata_nonempty m b e in
      let test : (length b == 0 || ltb max_state_snapshot_metadata_bytes (length b)) ≡ false =
        ground arith in
      let bound : ltb max_state_snapshot_metadata_bytes (length b) ≡ false = ground arith in
      rw (test, laws.metadata_parses m b e, e, bound, bytes_eq_refl b)

  -- The import that an offer of the snapshot starts.
  abbrev offered : EngineState → Bytes → SnapshotExport → SnapshotImport
  offered state app_hash e = record {
    metadata = metadata_of codec state app_hash e.state_bytes;
    metadata_bytes = e.descriptor.metadata;
    expected_snapshot_hash = e.descriptor.hash;
    expected_app_hash = app_hash;
    chunks = [];
  }

  module _ (state : EngineState) (app_hash : Bytes) (e : SnapshotExport)
      (made : IsSnapshotOf codec state app_hash e) where
    from_offer-accepts :
        bytes_eq e.descriptor.hash (replicate 32 0) ≡ false
        → from_offer codec e.descriptor app_hash ≡ ok (offered state app_hash e)
    unfolding from_offer fixed_hash
    from_offer-accepts nonzero =
        let w = laws.app_hash-IsHash state app_hash made.hashed in
        let hash_length : length e.descriptor.hash ≡ 32 = rw made.hash (hash_snapshot-length _ _) in
        rw (
          made.format,
          hash_length,
          nonzero,
          w.0,
          decode_metadata-encoded _ _ made.encoded made.encoded_small,
          made.valid,
          made.height,
          ==-refl (codec.height state),
          decode_hash-encode app_hash metadata_app_hash w,
          bytes_eq_refl app_hash,
        )

    delivered :
        apply_chunks codec (offered state app_hash e) 0 (state_chunks e.state_bytes)
        ≡ ok (record (offered state app_hash e) { chunks = state_chunks e.state_bytes })
    delivered =
        let m = metadata_of codec state app_hash e.state_bytes in
        let (_, _, sized) = state_chunks_correct m e.state_bytes refl made.nonempty made.small in
        apply_chunks-all codec (offered state app_hash e) 0 _ _ refl refl refl sized

    finalize-restores :
        codec.audit_healthy state ≡ true
        → finalize codec (record (offered state app_hash e) { chunks = state_chunks e.state_bytes })
          ≡ ok state
    unfolding finalize
    finalize-restores healthy =
        let m = metadata_of codec state app_hash e.state_bytes in
        let (_, whole, _) = state_chunks_correct m e.state_bytes refl made.nonempty made.small in
        rw (
          length-map (chunk_digest codec) (state_chunks e.state_bytes),
          ==-refl (length (state_chunks e.state_bytes)),
          whole,
          ==-refl (length e.state_bytes),
          made.hash,
          bytes_eq_refl (hash_snapshot codec e.descriptor.metadata e.state_bytes),
          laws.state_parses state e.state_bytes made.canonical,
          made.canonical,
          bytes_eq_refl e.state_bytes,
          bytes_eq_refl (codec.chain_id state),
          ==-refl (codec.height state),
          made.hashed,
          bytes_eq_refl app_hash,
          healthy,
        )

  -- A node that is offered the snapshot which another created of a healthy state, and is given its
  -- chunks in order, ends with that state; the hash of the snapshot must not be all zeros.
  pub snapshot-round_trip :
      (state : EngineState) (app_hash : Bytes) (e : SnapshotExport)
      → create codec state app_hash ≡ ok e
      → bytes_eq e.descriptor.hash (replicate 32 0) ≡ false
      → codec.audit_healthy state ≡ true
      → (do
        offer ← from_offer codec e.descriptor app_hash
        complete ← apply_chunks codec offer 0 (state_chunks e.state_bytes)
        finalize codec complete)
        ≡ ok state
  snapshot-round_trip state app_hash e run nonzero healthy =
      let made = create-IsSnapshotOf codec state app_hash e run in
      rw (from_offer-accepts state app_hash e made nonzero, delivered state app_hash e made)
        (finalize-restores state app_hash e made healthy)
