-- ===== src/StateSync/Chunks.antt =====
-- src/state_sync.rs: the chunks of a snapshot.
use native.Mathlib.Nat.{div-add-mod', mod-lt}
use asteria.Base.{
  ℕ, zero, suc, ◌+◌, ◌-◌, ◌*◌, ◌≤◌, ◌<◌, ◌≡◌, refl, sym, ap, ◌∙◌, List, [], ◌∷◌, some, arith,
  length, min, take, drop, flatten, get_elem?, u64_bound, lt→ltb, lt→leb_false, length-take,
  take-min-length, ==-refl, length-drop, take-append-drop, Bytes,
}
use asteria.Base.Result.{ok}
use asteria.StateSync.Types.{
  SnapshotMetadata, SnapshotExport, state_snapshot_chunk_bytes, state_snapshot_format,
  max_state_snapshot_bytes,
}
use asteria.StateSync.Metadata.{div_ceil, expected_chunk_len}
use asteria.StateSync.Export.{chunks_of, state_chunks, load_chunk, slice}

div_ceil_bounds : (n d : ℕ) → 0 < d → (n ≤ div_ceil n d * d) × (0 < n → div_ceil n d * d < n + d)
div_ceil_bounds n d h = (
  omega (arith, div-add-mod' (n + d - 1) d, mod-lt (n + d - 1) h),
  λ pos. omega (arith, div-add-mod' (n + d - 1) d),
)

drop-nil : (n : ℕ) → drop {A = ℕ} n [] ≡ []
drop-nil zero = refl
drop-nil (suc n) = refl

drop-drop : (m n : ℕ) (bytes : Bytes) → drop n (drop m bytes) ≡ drop (m + n) bytes
drop-drop zero n bytes = ap (λ k. drop k bytes) (omega arith)
drop-drop (suc m) n [] = drop-nil n ∙ sym (drop-nil (suc m + n))
drop-drop (suc m) n (b ∷ bytes) =
    let e : suc m + n ≡ suc (m + n) = omega arith in rw e (drop-drop m n bytes)

module _ (size : ℕ) where
  pub length-chunks_of : (count : ℕ) (bytes : Bytes) → length (chunks_of count size bytes) ≡ count
  unfolding chunks_of
  length-chunks_of zero bytes = refl
  length-chunks_of (suc count) bytes = ap suc (length-chunks_of count (drop size bytes))

  pub flatten-chunks_of :
      (count : ℕ) (bytes : Bytes)
      → length bytes ≤ count * size
      → flatten (chunks_of count size bytes) ≡ bytes
  unfolding chunks_of
  flatten-chunks_of zero [] h = refl
  flatten-chunks_of zero (b ∷ bytes) h = absurd (omega arith)
  flatten-chunks_of (suc count) bytes h =
      rw (flatten-chunks_of count (drop size bytes) (omega (arith, length-drop size bytes)))
        (take-append-drop size bytes)

  pub get_elem?-chunks_of :
      (count i : ℕ) (bytes : Bytes)
      → i < count
      → get_elem? (chunks_of count size bytes) i ≡ some (take size (drop (i * size) bytes))
  unfolding chunks_of
  get_elem?-chunks_of zero i bytes h = absurd (omega arith)
  get_elem?-chunks_of (suc count) zero bytes h = let e : 0 * size ≡ 0 = omega arith in rw e
  get_elem?-chunks_of (suc count) (suc i) bytes h =
      let e : suc i * size ≡ size + i * size = omega arith in
      rw e (
        get_elem?-chunks_of count i (drop size bytes) (omega arith)
        ∙ ap (λ k. some (take size k)) (drop-drop size (i * size) bytes))

-- The lengths that a receiver expects of chunks from an index on.
abbrev pub Sized : SnapshotMetadata → ℕ → List Bytes → Type 0
Sized metadata k [] = Unit
Sized metadata k (chunk ∷ chunks) =
    (expected_chunk_len metadata k ≡ ok (length chunk)) × Sized metadata (suc k) chunks

length-chunk :
    (size k : ℕ) (bytes : Bytes)
    → length (take size (drop (k * size) bytes)) ≡ min (length bytes - k * size) size
length-chunk size k bytes =
    omega (arith, length-take size (drop (k * size) bytes), length-drop (k * size) bytes)

expected_chunk_len-eq :
    (metadata : SnapshotMetadata) (k : ℕ)
    → k * state_snapshot_chunk_bytes < metadata.state_bytes
    → metadata.state_bytes ≤ max_state_snapshot_bytes
    → expected_chunk_len metadata k
      ≡ ok (min (metadata.state_bytes - k * state_snapshot_chunk_bytes) state_snapshot_chunk_bytes)
unfolding expected_chunk_len
expected_chunk_len-eq metadata k h small = ground arith

module _ (metadata : SnapshotMetadata) (bytes : Bytes) where
  -- What is cut from the bytes at a multiple of the chunk size has the length that is expected there.
  chunks_of-Sized :
      (count k : ℕ)
      → metadata.state_bytes ≡ length bytes
      → length bytes ≤ max_state_snapshot_bytes
      → (0 < count → (k + count - 1) * state_snapshot_chunk_bytes < length bytes)
      → Sized metadata k
          (chunks_of count state_snapshot_chunk_bytes (drop (k * state_snapshot_chunk_bytes) bytes))
  unfolding chunks_of
  chunks_of-Sized zero k m h n = tt
  chunks_of-Sized (suc count) k m h n =
      let c = state_snapshot_chunk_bytes in
      let start : k * c < length bytes = omega (arith, n (omega arith)) in
      let next : k * c + c ≡ suc k * c = omega arith in
      (
        expected_chunk_len-eq metadata k (omega (arith, m, start)) (omega (arith, m))
            ∙ ap ok (ap (λ t. min (t - k * c) c) m ∙ sym (length-chunk c k bytes)),
        rw (drop-drop (k * c) c bytes, next)
            (chunks_of-Sized count (suc k) m h (λ p. omega (arith, n (omega arith)))),
      )

-- The chunks of a snapshot of a valid size: their number, their concatenation and their lengths.
pub state_chunks_correct :
    (metadata : SnapshotMetadata) (bytes : Bytes)
    → metadata.state_bytes ≡ length bytes
    → 0 < length bytes
    → length bytes ≤ max_state_snapshot_bytes
    → (length (state_chunks bytes) ≡ div_ceil (length bytes) state_snapshot_chunk_bytes)
      × (flatten (state_chunks bytes) ≡ bytes)
      × Sized metadata 0 (state_chunks bytes)
unfolding state_chunks
state_chunks_correct metadata bytes m pos small =
    let c = state_snapshot_chunk_bytes in
    let n = div_ceil (length bytes) c in
    let (enough, tight) = div_ceil_bounds (length bytes) c (omega arith) in
    (
      length-chunks_of c n bytes,
      flatten-chunks_of c n bytes enough,
      chunks_of-Sized metadata bytes n 0 m small (λ p. omega (arith, tight pos)),
    )

slice-eq-take :
    (size start : ℕ) (bytes : Bytes)
    → slice bytes start (min (start + size) (length bytes)) ≡ take size (drop start bytes)
slice-eq-take size start bytes =
    let e : min (start + size) (length bytes) - start ≡ min size (length (drop start bytes)) =
      omega (arith, length-drop start bytes) in
    rw e (take-min-length size (drop start bytes))

load_chunk-in_range :
    (self : SnapshotExport) (i : ℕ)
    → i < self.descriptor.chunks
    → i * state_snapshot_chunk_bytes + state_snapshot_chunk_bytes < u64_bound
    → load_chunk self self.descriptor.height state_snapshot_format i
      ≡ some (
          slice self.state_bytes (i * state_snapshot_chunk_bytes) (
            min
              (i * state_snapshot_chunk_bytes + state_snapshot_chunk_bytes)
              (length self.state_bytes)))
unfolding load_chunk
load_chunk-in_range self i h fits = rw (
  ==-refl self.descriptor.height,
  lt→leb_false self.descriptor.chunks i h,
  lt→ltb (i * state_snapshot_chunk_bytes) u64_bound (omega arith),
  lt→ltb (i * state_snapshot_chunk_bytes + state_snapshot_chunk_bytes) u64_bound fits,
)

-- A serving node answers each request for one of its chunks with that chunk.
pub load_chunk-eq-chunk :
    (self : SnapshotExport) (i : ℕ)
    → i < self.descriptor.chunks
    → self.descriptor.chunks ≡ length (state_chunks self.state_bytes)
    → length self.state_bytes ≤ max_state_snapshot_bytes
    → load_chunk self self.descriptor.height state_snapshot_format i
      ≡ get_elem? (state_chunks self.state_bytes) i
unfolding state_chunks
load_chunk-eq-chunk self i h n small =
    let c = state_snapshot_chunk_bytes in
    let bytes = self.state_bytes in
    let count = div_ceil (length bytes) c in
    let inside : i < count = omega (arith, n, length-chunks_of c count bytes) in
    let fits : i * c + c < u64_bound = omega arith in
    load_chunk-in_range self i h fits
    ∙ ap some (slice-eq-take c (i * c) bytes)
    ∙ sym (get_elem?-chunks_of c count i bytes inside)
