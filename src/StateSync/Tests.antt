-- ===== src/StateSync/Tests.antt =====
-- A small codec that keeps the laws, a snapshot of its one state, and the theorems at that snapshot.
use asteria.Base.{
  ℕ, zero, suc, ◌+◌, ◌*◌, ◌-◌, ◌/◌, ◌%◌, ◌<◌, ◌≡◌, refl, sym, ap, ap₂, Bool, true, false, List, [],
  ◌∷◌, some, arith, ◌^◌, ◌==◌, ◌&&◌, Bool-cases, inl, inr, ltb, if◌then◌else◌, length, All,
  replicate, get_elem?, flatten, Bytes, bytes_eq, bytes_eq→eq,
}
use asteria.Base.Result.{Result, ok, err, ◌>>=◌, ok-inj}
use asteria.StateSync.Types.{
  SnapshotMetadata, SnapshotExport, Codec, CodecLaws, IsHash, all_hex_digits, is_hex_digit,
  state_snapshot_format,
}
use asteria.StateSync.Metadata.{
  validate_state_size, fixed_hash, decode_hash, decode_hashes, validate_metadata,
  canonical_metadata_bytes, hash_snapshot,
}
use asteria.StateSync.Export.{create, state_chunks, chunks_of, load_chunk}
use asteria.StateSync.Import.{from_offer, apply_chunks, finalize}
use asteria.StateSync.Chunks.{load_chunk-eq-chunk}
use asteria.StateSync.RoundTrip.{snapshot-round_trip}
use asteria.StateSync.Verified.{restored-IsVerified}

abbrev hex_digit : ℕ → ℕ
hex_digit d = if ltb d 10 then 48 + d else 87 + d

abbrev hex_value : ℕ → ℕ
hex_value c = if ltb c 58 then c - 48 else c - 87

abbrev encode : Bytes → Bytes
encode [] = []
encode (b ∷ bs) = hex_digit (b / 16) ∷ hex_digit (b % 16) ∷ encode bs

abbrev decode : Bytes → Bytes
decode [] = []
decode (c ∷ []) = []
decode (c ∷ d ∷ cs) = (hex_value c * 16 + hex_value d) ∷ decode cs

digit_value : (d : ℕ) → d < 16 → hex_value (hex_digit d) ≡ d
digit_value d h = ground arith

digit_is_hex : (d : ℕ) → d < 16 → is_hex_digit (hex_digit d) ≡ true
digit_is_hex d h = ground arith

decode-encode : (h : Bytes) → All (λ b. b < 256) h → decode (encode h) ≡ h
decode-encode [] h = refl
decode-encode (b ∷ bs) h =
    let hi = digit_value (b / 16) (omega (arith, h.0)) in
    let lo = digit_value (b % 16) (omega arith) in
    ap₂ ◌∷◌ (omega (arith, hi, lo)) (decode-encode bs h.1)

length-encode : (h : Bytes) → length (encode h) ≡ 2 * length h
length-encode [] = refl
length-encode (b ∷ bs) = omega (arith, length-encode bs)

encode-digits : (h : Bytes) → All (λ b. b < 256) h → all_hex_digits (encode h) ≡ true
encode-digits [] h = refl
encode-digits (b ∷ bs) h =
    rw (digit_is_hex (b / 16) (omega (arith, h.0)), digit_is_hex (b % 16) (omega arith))
      (encode-digits bs h.1)

sevens-below : (n : ℕ) → All (λ b. b < 256) (replicate n 7)
sevens-below zero = tt
sevens-below (suc n) = (omega arith, sevens-below n)

abbrev digest : Bytes
digest = replicate 32 7

abbrev the_bytes : Bytes
the_bytes = 1 ∷ 2 ∷ 3 ∷ []

abbrev the_metadata : SnapshotMetadata
the_metadata = record {
  schema_version = 1;
  chain_id = 97 ∷ [];
  height = 5;
  app_hash = encode digest;
  state_bytes = 3;
  chunk_bytes = 4194304;
  chunk_hashes = encode digest ∷ [];
}

abbrev list_eq : List Bytes → List Bytes → Bool
list_eq [] [] = true
list_eq (a ∷ as') (b ∷ bs) = bytes_eq a b && list_eq as' bs
list_eq _ _ = false

list_eq→eq : (a b : List Bytes) → list_eq a b ≡ true → a ≡ b
list_eq→eq [] [] h = refl
list_eq→eq [] (y ∷ b) h = cc
list_eq→eq (x ∷ a) [] h = cc
list_eq→eq (x ∷ a) (y ∷ b) h = ground (arith, bytes_eq→eq x y, list_eq→eq a b)

abbrev is_the_metadata : SnapshotMetadata → Bool
is_the_metadata m =
    m.schema_version == 1
    && bytes_eq m.chain_id the_metadata.chain_id
    && m.height == 5
    && bytes_eq m.app_hash the_metadata.app_hash
    && m.state_bytes == 3
    && m.chunk_bytes == 4194304
    && list_eq m.chunk_hashes the_metadata.chunk_hashes

is_the_metadata→eq : (m : SnapshotMetadata) → is_the_metadata m ≡ true → m ≡ the_metadata
is_the_metadata→eq m h = ground (
  arith,
  bytes_eq→eq m.chain_id the_metadata.chain_id,
  bytes_eq→eq m.app_hash the_metadata.app_hash,
  list_eq→eq m.chunk_hashes the_metadata.chunk_hashes,
)

abbrev codec : Codec (Unit {0})
codec = record {
  sha256 = λ b. digest;
  hex_encode = encode;
  hex_decode = λ h. some (decode h);
  metadata_to_vec = λ m. if is_the_metadata m then ok (1 ∷ []) else err [];
  metadata_from_slice = λ b. ok the_metadata;
  trim = λ b. b;
  is_height = λ h. ltb h (2 ^ 63);
  canonical_state_bytes = λ s. ok the_bytes;
  state_from_slice = λ b. ok tt;
  compute_app_hash = λ s. ok digest;
  audit_healthy = λ s. true;
  audit_errors = λ s. [];
  chain_id = λ s. 97 ∷ [];
  height = λ s. 5;
}

digest-IsHash : IsHash digest
digest-IsHash = (refl, sevens-below 32)

metadata_vec :
    (m : SnapshotMetadata) (b : Bytes)
    → codec.metadata_to_vec m ≡ ok b
    → (m ≡ the_metadata) × (b ≡ 1 ∷ [])
metadata_vec m b h = elim (Bool-cases (is_the_metadata m)) [
  | inl e ↦ (is_the_metadata→eq m e, sym (ok-inj (rw e at h)))
  | inr e ↦ let k : ◌≡◌ {A = Result Bytes Bytes} (err []) (ok b) = rw e at h in absurd (cc)
]

codec_laws : CodecLaws codec
codec_laws = record {
  sha256-IsHash = λ b. digest-IsHash;
  hex_decode-encode = λ h w. ap some (decode-encode h w.1);
  length-hex_encode = λ h w. omega (arith, length-encode h, w.0);
  hex_encode-digits = λ h w. encode-digits h w.1;
  metadata_parses = λ m b e. ap ok (sym (metadata_vec m b e).0);
  metadata_nonempty = λ m b e. rw (metadata_vec m b e).1 (omega arith);
  state_parses = λ s b e. refl;
  app_hash-IsHash = λ s h e. rw (← ok-inj e) digest-IsHash;
}

abbrev snapshot : SnapshotExport
snapshot = record {
  descriptor = record { height = 5; format = 1; chunks = 1; hash = digest; metadata = 1 ∷ [] };
  state_bytes = the_bytes;
}

creates : create codec tt digest ≡ ok snapshot
unfolding create validate_state_size validate_metadata decode_hash decode_hashes fixed_hash
    canonical_metadata_bytes hash_snapshot state_chunks
creates = refl

restores :
    (do
      offer ← from_offer codec snapshot.descriptor digest
      complete ← apply_chunks codec offer 0 (the_bytes ∷ [])
      finalize codec complete)
    ≡ ok tt
restores =
    unfold state_chunks chunks_of in
    snapshot-round_trip codec codec_laws tt digest snapshot creates refl refl

snapshot-round_trip_example :
    (do
      offer ← from_offer codec snapshot.descriptor digest
      complete ← apply_chunks codec offer 0 (state_chunks the_bytes)
      finalize codec complete)
    ≡ ok tt
snapshot-round_trip_example =
    snapshot-round_trip codec codec_laws tt digest snapshot creates refl refl

restored-IsVerified_example :
    (codec.compute_app_hash tt ≡ ok digest)
    × (codec.canonical_state_bytes tt ≡ ok (flatten (the_bytes ∷ [])))
    × (hash_snapshot codec (1 ∷ []) (flatten (the_bytes ∷ [])) ≡ digest)
    × (codec.audit_healthy tt ≡ true)
restored-IsVerified_example =
    restored-IsVerified codec snapshot.descriptor digest (the_bytes ∷ []) tt restores

load_chunk-eq-chunk_example :
    load_chunk snapshot 5 state_snapshot_format 0 ≡ get_elem? (state_chunks the_bytes) 0
unfolding state_chunks
load_chunk-eq-chunk_example = load_chunk-eq-chunk snapshot 0 (omega arith) refl (omega arith)
