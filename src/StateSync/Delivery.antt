-- ===== src/StateSync/Delivery.antt =====
-- src/state_sync.rs: a receiving node accepts the chunks of a snapshot in their order.
use mathlib.Core.List.{append-nil, append_assoc}
use asteria.Base.{
  ℕ, suc, ◌+◌, ◌≡◌, refl, sym, ap, ◌∙◌, List, [], ◌∷◌, ◌++◌, map, arith, ◌==◌, ==-refl,
  lt→leb_false, length, length-append, get_or, Bytes, bytes_eq_refl,
}
use asteria.Base.Result.{ok}
use asteria.StateSync.Types.{SnapshotImport, Codec}
use asteria.StateSync.Metadata.{expected_chunk_len}
use asteria.StateSync.Import.{apply_chunk, apply_chunks}
use asteria.StateSync.Chunks.{Sized}

get_or-map_middle :
    (f : Bytes → Bytes) (xs ys : List Bytes) (y : Bytes)
    → get_or (map f (xs ++ y ∷ ys)) (length xs) [] ≡ f y
get_or-map_middle f [] ys y = refl
get_or-map_middle f (x ∷ xs) ys y = get_or-map_middle f xs ys y

pub length-map : (f : Bytes → Bytes) (xs : List Bytes) → length (map f xs) ≡ length xs
length-map f [] = refl
length-map f (x ∷ xs) = ap suc (length-map f xs)

abbrev pub chunk_digest : {EngineState : Type 0} → Codec EngineState → Bytes → Bytes
chunk_digest codec chunk = codec.hex_encode (codec.sha256 chunk)

module _ {EngineState : Type 0} (codec : Codec EngineState) where
  -- The next chunk of the metadata is accepted, and appended.
  apply_chunk-next :
      (self : SnapshotImport) (k : ℕ) (ys : List Bytes) (y : Bytes)
      → length self.chunks ≡ k
      → self.metadata.chunk_hashes ≡ map (chunk_digest codec) (self.chunks ++ y ∷ ys)
      → expected_chunk_len self.metadata k ≡ ok (length y)
      → apply_chunk codec self k y
        ≡ ok (
          record self { chunks = self.chunks ++ y ∷ [] },
          length (self.chunks ++ y ∷ []) == length self.metadata.chunk_hashes,
        )
  unfolding apply_chunk
  apply_chunk-next self k ys y at hashes sized =
      let count : length self.metadata.chunk_hashes ≡ length self.chunks + suc (length ys) =
        ap length hashes
        ∙ length-map (chunk_digest codec) (self.chunks ++ y ∷ ys)
        ∙ length-append self.chunks (y ∷ ys) in
      let digest : get_or self.metadata.chunk_hashes k [] ≡ chunk_digest codec y =
        ap (λ hs. get_or hs k []) hashes
        ∙ ap (λ i. get_or (map (chunk_digest codec) (self.chunks ++ y ∷ ys)) i []) (sym at)
        ∙ get_or-map_middle (chunk_digest codec) self.chunks ys y in
      rw (
        at,
        ==-refl k,
        lt→leb_false (length self.metadata.chunk_hashes) k (omega (arith, count, at)),
        sized,
        ==-refl (length y),
        digest,
        bytes_eq_refl (chunk_digest codec y),
      )

  -- All chunks are accepted in order.
  pub apply_chunks-all :
      (self : SnapshotImport) (k : ℕ) (ys zs : List Bytes)
      → length self.chunks ≡ k
      → zs ≡ self.chunks ++ ys
      → self.metadata.chunk_hashes ≡ map (chunk_digest codec) zs
      → Sized self.metadata k ys
      → apply_chunks codec self k ys ≡ ok (record self { chunks = zs })
  unfolding apply_chunks
  apply_chunks-all self k [] zs at e hashes sized =
      ap (λ c. ok (record self { chunks = c })) (sym (append-nil self.chunks) ∙ sym e)
  apply_chunks-all self k (y ∷ ys) zs at e hashes sized =
      let next = record self { chunks = self.chunks ++ y ∷ [] } in
      rw (apply_chunk-next self k ys y at (rw (← e) hashes) sized.0) (
        apply_chunks-all next (suc k) ys zs (omega (arith, length-append self.chunks (y ∷ []), at))
          (rw (append_assoc self.chunks (y ∷ []) ys) e) hashes sized.1)
