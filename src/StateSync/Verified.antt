-- ===== src/StateSync/Verified.antt =====
-- src/state_sync.rs: what a node has verified of a state that it restores, whoever sent the chunks.
use mathlib.Core.List.{append-nil, append_assoc}
use asteria.Base.{
  not-eq-false, ℕ, suc, ◌≡◌, refl, sym, ap, ◌∙◌, subst, Bool, true, not, List, [], ◌∷◌, ◌++◌, arith,
  leb, ◌==◌, ◌||◌, length, get_or, flatten, replicate, ==_iff, Bytes, bytes_eq, bytes_eq→eq,
}
use asteria.Base.Result.{
  ok, ◌>>=◌, fail_if, >>=-eq-ok, map_err, fail_if-eq-ok, map_err-eq-ok, ok-inj,
}
use asteria.StateSync.Types.{
  Snapshot, SnapshotImport, Codec, state_snapshot_format, snapshot_hash, light_client_app_hash,
  metadata_app_hash, HashLabel,
}
use asteria.StateSync.Metadata.{
  decode_hash, fixed_hash, decode_metadata, validate_metadata, hash_snapshot, expected_chunk_len,
}
use asteria.StateSync.Import.{from_offer, apply_chunk, apply_chunks, finalize}
use asteria.StateSync.Created.{}

passes : {E : Type 0} (b : Bool) (e : E) {u : Unit {0}} → fail_if (not b) e ≡ ok u → b ≡ true
passes b e h = not-eq-false b (fail_if-eq-ok (not b) e h)

fixed_hash-eq : (b : Bytes) (l : HashLabel) {h : Bytes} → fixed_hash b l ≡ ok h → h ≡ b
unfolding fixed_hash
fixed_hash-eq b l e = ground arith

module _ {EngineState : Type 0} (codec : Codec EngineState) where
  -- The import remembers what it was offered, and holds no chunk yet.
  record Offered (snapshot : Snapshot) (h : Bytes) (i : SnapshotImport) : Type 0 where
    app_hash : i.expected_app_hash ≡ h
    snapshot_hash_kept : i.expected_snapshot_hash ≡ snapshot.hash
    metadata_kept : i.metadata_bytes ≡ snapshot.metadata
    empty : i.chunks ≡ []

  from_offer-Offered :
      (snapshot : Snapshot) (h : Bytes) (i : SnapshotImport)
      → from_offer codec snapshot h ≡ ok i
      → Offered snapshot h i
  unfolding from_offer
  from_offer-Offered snapshot h i run =
      let (_, _, k1) =
        >>=-eq-ok (fail_if (not (snapshot.format == state_snapshot_format)) _) _ run in
      let (_, _, k2) = >>=-eq-ok (fail_if (not (length snapshot.hash == 32)) _) _ k1 in
      let (kept, r3, k3) = >>=-eq-ok (fixed_hash snapshot.hash snapshot_hash) _ k2 in
      let (_, _, k4) = >>=-eq-ok (fail_if (bytes_eq kept (replicate 32 0)) _) _ k3 in
      let (trusted, r5, k5) = >>=-eq-ok (fixed_hash h light_client_app_hash) _ k4 in
      let (metadata, _, k6) = >>=-eq-ok (decode_metadata codec snapshot.metadata) _ k5 in
      let (_, _, k7) = >>=-eq-ok (validate_metadata codec metadata snapshot.chunks) _ k6 in
      let (_, _, k8) = >>=-eq-ok (fail_if (not (snapshot.height == metadata.height)) _) _ k7 in
      let (decoded, _, k9) =
        >>=-eq-ok (decode_hash codec metadata.app_hash metadata_app_hash) _ k8 in
      let (_, _, k10) = >>=-eq-ok (fail_if (not (bytes_eq decoded trusted)) _) _ k9 in
      let made : _ ≡ i = ok-inj k10 in
      subst (Offered snapshot h) made (record {
        app_hash = fixed_hash-eq h light_client_app_hash r5;
        snapshot_hash_kept = fixed_hash-eq snapshot.hash snapshot_hash r3;
        metadata_kept = refl;
        empty = refl;
      })

  -- An accepted chunk is the next one, has the announced hash, and is appended; nothing else changes.
  pub apply_chunk-accepted :
      (self : SnapshotImport) (index : ℕ) (chunk : Bytes) (next : SnapshotImport) (done : Bool)
      → apply_chunk codec self index chunk ≡ ok (next, done)
      → (index ≡ length self.chunks)
        × (codec.hex_encode (codec.sha256 chunk) ≡ get_or self.metadata.chunk_hashes index [])
        × (next ≡ record self { chunks = self.chunks ++ chunk ∷ [] })
  unfolding apply_chunk
  apply_chunk-accepted self index chunk next done run =
      let (_, f1, k1) = >>=-eq-ok (fail_if (not (index == length self.chunks)) _) _ run in
      let (_, _, k2) = >>=-eq-ok (fail_if (leb (length self.metadata.chunk_hashes) index) _) _ k1 in
      let (len, _, k3) = >>=-eq-ok (expected_chunk_len self.metadata index) _ k2 in
      let (_, _, k4) = >>=-eq-ok (fail_if (not (length chunk == len)) _) _ k3 in
      let digest = codec.hex_encode (codec.sha256 chunk) in
      let (_, f5, k5) =
        >>=-eq-ok (fail_if (not (bytes_eq digest (get_or self.metadata.chunk_hashes index []))) _) _
          k4 in
      (
        (==_iff index (length self.chunks)).0 (passes _ _ f1),
        bytes_eq→eq digest _ (passes _ _ f5),
        sym (ap (λ (r : SnapshotImport × Bool). r.0) (ok-inj k5)),
      )

  -- After the chunks the import holds them all, behind those that it had.
  apply_chunks-appends :
      (self : SnapshotImport) (index : ℕ) (chunks : List Bytes) (next : SnapshotImport)
      → apply_chunks codec self index chunks ≡ ok next
      → next ≡ record self { chunks = self.chunks ++ chunks }
  unfolding apply_chunks
  apply_chunks-appends self index [] next run =
      sym (ok-inj run) ∙ ap (λ c. record self { chunks = c }) (sym (append-nil self.chunks))
  apply_chunks-appends self index (chunk ∷ chunks) next run =
      let ((mid, done), first, rest) = >>=-eq-ok (apply_chunk codec self index chunk) _ run in
      let (_, _, same) = apply_chunk-accepted self index chunk mid done first in
      let ih = apply_chunks-appends mid (suc index) chunks next rest in
      ih
      ∙ ap (λ (m : SnapshotImport). record m { chunks = m.chunks ++ chunks }) same
      ∙ ap (λ c. record self { chunks = c }) (append_assoc self.chunks (chunk ∷ []) chunks)

  -- The checks that a finished import has passed.
  pub record Restored (i : SnapshotImport) (state : EngineState) : Type 0 where
    pub app_hash : codec.compute_app_hash state ≡ ok i.expected_app_hash
    pub canonical : codec.canonical_state_bytes state ≡ ok (flatten i.chunks)
    pub hash : hash_snapshot codec i.metadata_bytes (flatten i.chunks) ≡ i.expected_snapshot_hash
    pub complete : length i.chunks ≡ length i.metadata.chunk_hashes
    pub healthy : codec.audit_healthy state ≡ true

  finalize-Restored :
      (i : SnapshotImport) (state : EngineState) → finalize codec i ≡ ok state → Restored i state
  unfolding finalize
  finalize-Restored i state run =
      let bytes = flatten i.chunks in
      let (_, f1, k1) =
        >>=-eq-ok (fail_if (not (length i.chunks == length i.metadata.chunk_hashes)) _) _ run in
      let (_, _, k2) = >>=-eq-ok (fail_if (not (length bytes == i.metadata.state_bytes)) _) _ k1 in
      let (_, f3, k3) =
        >>=-eq-ok
          (fail_if
            (not (bytes_eq (hash_snapshot codec i.metadata_bytes bytes) i.expected_snapshot_hash))
            _)
          _ k2 in
      let (s, _, k4) = >>=-eq-ok (map_err _ (codec.state_from_slice bytes)) _ k3 in
      let (canonical, r5, k5) = >>=-eq-ok (map_err _ (codec.canonical_state_bytes s)) _ k4 in
      let (_, f6, k6) = >>=-eq-ok (fail_if (not (bytes_eq canonical bytes)) _) _ k5 in
      let (_, _, k7) =
        >>=-eq-ok
          (fail_if
            (not (bytes_eq (codec.chain_id s) i.metadata.chain_id)
              || not (codec.height s == i.metadata.height))
            _)
          _ k6 in
      let (computed, r8, k8) = >>=-eq-ok (map_err _ (codec.compute_app_hash s)) _ k7 in
      let (_, f9, k9) = >>=-eq-ok (fail_if (not (bytes_eq computed i.expected_app_hash)) _) _ k8 in
      let (_, f10, k10) = >>=-eq-ok (fail_if (not (codec.audit_healthy s)) _) _ k9 in
      let same : s ≡ state = ok-inj k10 in
      subst (Restored i) same (record {
        app_hash = map_err-eq-ok _ _ r8 ∙ ap ok (bytes_eq→eq computed _ (passes _ _ f9));
        canonical = map_err-eq-ok _ _ r5 ∙ ap ok (bytes_eq→eq canonical _ (passes _ _ f6));
        hash = bytes_eq→eq _ _ (passes _ _ f3);
        complete = (==_iff _ _).0 (passes _ _ f1);
        healthy = passes _ _ f10;
      })

  -- Whatever snapshot is offered and whatever chunks arrive: a state that is restored has the
  -- application hash that the light client verified, its canonical bytes are the chunks that were
  -- accepted, these have the hash of the offer, and its accounting audit is healthy.
  pub restored-IsVerified :
      (snapshot : Snapshot) (light_hash : Bytes) (chunks : List Bytes) (state : EngineState)
      → (do
        offer ← from_offer codec snapshot light_hash
        complete ← apply_chunks codec offer 0 chunks
        finalize codec complete)
        ≡ ok state
      → (codec.compute_app_hash state ≡ ok light_hash)
        × (codec.canonical_state_bytes state ≡ ok (flatten chunks))
        × (hash_snapshot codec snapshot.metadata (flatten chunks) ≡ snapshot.hash)
        × (codec.audit_healthy state ≡ true)
  restored-IsVerified snapshot light_hash chunks state run =
      let (offer, r1, k1) = >>=-eq-ok (from_offer codec snapshot light_hash) _ run in
      let (complete, r2, r3) = >>=-eq-ok (apply_chunks codec offer 0 chunks) _ k1 in
      let o = from_offer-Offered snapshot light_hash offer r1 in
      let appended = apply_chunks-appends offer 0 chunks complete r2 in
      let r = subst (λ i. Restored i state) appended (finalize-Restored complete state r3) in
      let all : offer.chunks ++ chunks ≡ chunks = ap (λ c. c ++ chunks) o.empty in
      (
        r.app_hash ∙ ap ok o.app_hash,
        r.canonical ∙ ap (λ c. ok (flatten c)) all,
        ap (λ m. hash_snapshot codec m (flatten chunks)) (sym o.metadata_kept)
            ∙ ap (λ c. hash_snapshot codec offer.metadata_bytes (flatten c)) (sym all)
            ∙ r.hash
            ∙ o.snapshot_hash_kept,
        r.healthy,
      )
