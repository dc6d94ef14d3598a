-- ===== src/Ceremony/Peers.antt =====
-- src/dkg_ceremony.rs: the digest of the peers tells lists of peers apart.
use native.Mathlib.Nat.{div-one, div-eq_of_lt, div-div-eq-div-mul, div-add-mod', pow-suc}
use asteria.Base.{
  ℕ, zero, suc, ◌+◌, ◌*◌, ◌/◌, ◌%◌, ◌^◌, ◌<◌, ◌≡◌, ◌≢◌, ◌⊎◌, refl, sym, ap, ap₂, ◌∙◌, inl, inr,
  List, [], ◌∷◌, ◌++◌, Bytes, be_bytes, bytes_eq, bytes_eq→eq, bytes_eq_refl, Bool-cases, length,
  arith, u64_bound, All,
}
use asteria.Base.Result.{ok, map_err, map_err-eq-ok, >>=-eq-ok, ok-inj}
use asteria.Ceremony.Types.{CeremonyError}
use asteria.Ceremony.Coordinator.{Transport, ceremony_domain, peer_material, registry_digest}
use asteria.Ceremony.Rounds.{recover}
use asteria.Ceremony.Keeps.{InSync, Setting, State}
use asteria.Ceremony.Recovery.{Recovered, recover-Recovered}

abbrev tail_of : Bytes → Bytes
tail_of [] = []
tail_of (_ ∷ bytes) = bytes

abbrev head_of : Bytes → ℕ
head_of [] = 0
head_of (byte ∷ _) = byte

be_bytes-inj_above : (k m n : ℕ) → be_bytes k m ≡ be_bytes k n → m / 256 ^ k ≡ n / 256 ^ k → m ≡ n
be_bytes-inj_above zero m n h above = sym (div-one m) ∙ (above ∙ div-one n)
be_bytes-inj_above (suc k) m n h above =
    let byte : m / 256 ^ k % 256 ≡ n / 256 ^ k % 256 = ap head_of h in
    let rest : be_bytes k m ≡ be_bytes k n = ap tail_of h in
    let of_m = div-div-eq-div-mul m (256 ^ k) 256 ∙ ap (λ d. m / d) (sym (pow-suc 256 k)) in
    let of_n = div-div-eq-div-mul n (256 ^ k) 256 ∙ ap (λ d. n / d) (sym (pow-suc 256 k)) in
    let high : m / 256 ^ k / 256 ≡ n / 256 ^ k / 256 = of_m ∙ (above ∙ sym of_n) in
    let split_m = div-add-mod' (m / 256 ^ k) 256 in
    let split_n = div-add-mod' (n / 256 ^ k) 256 in
    be_bytes-inj_above k m n rest (sym split_m ∙ (ap₂ (λ q r. q * 256 + r) high byte ∙ split_n))

be_bytes-inj : (m n : ℕ) → m < u64_bound → n < u64_bound → be_bytes 8 m ≡ be_bytes 8 n → m ≡ n
be_bytes-inj m n small_m small_n h =
    be_bytes-inj_above 8 m n h (div-eq_of_lt small_m ∙ sym (div-eq_of_lt small_n))

append-inj : (a b c d : Bytes) → length a ≡ length c → a ++ b ≡ c ++ d → (a ≡ c) × (b ≡ d)
append-inj [] b [] d n h = (refl, h)
append-inj [] b (y ∷ c) d n h = absurd (omega (arith, n))
append-inj (x ∷ a) b [] d n h = absurd (omega (arith, n))
append-inj (x ∷ a) b (y ∷ c) d n h =
    let (front, back) = append-inj a b c d (omega (arith, n)) (ap tail_of h) in
    (ap₂ (λ z zs. z ∷ zs) (ap head_of h) front, back)

-- Each encoding after its length.
abbrev pub framed : List Bytes → Bytes
framed [] = []
framed (code ∷ codes) = be_bytes 8 (length code) ++ (code ++ framed codes)

framed-inj :
    (codes others : List Bytes)
    → All (λ b. length b < u64_bound) codes
    → All (λ b. length b < u64_bound) others
    → framed codes ≡ framed others
    → codes ≡ others
framed-inj [] [] s r h = refl
framed-inj [] (d ∷ ds) s r h = absurd cc
framed-inj (c ∷ cs) [] s r h = absurd cc
framed-inj (c ∷ cs) (d ∷ ds) s r h =
    let (counts, rest) =
      append-inj (be_bytes 8 (length c)) (c ++ framed cs) (be_bytes 8 (length d)) (d ++ framed ds)
        refl h in
    let (here, later) =
      append-inj c (framed cs) d (framed ds) (be_bytes-inj (length c) (length d) s.0 r.0 counts)
        rest in
    ap₂ (λ z zs. z ∷ zs) here (framed-inj cs ds s.1 r.1 later)

module _ (t : Transport) where
  -- The encodings of the peers, one by one.
  abbrev pub Encoded : List t.Peer → List Bytes → Type 0
  Encoded [] [] = Unit
  Encoded (peer ∷ peers) (code ∷ codes) = (t.peer_to_json peer ≡ ok code) × Encoded peers codes
  Encoded _ _ = ⊥

  -- The peers of the registries have the same encodings, or those are a collision of SHA-256.
  abbrev pub SamePeers : t.Registry → t.Registry → Type 0
  SamePeers registry other =
      (codes : List Bytes) × (others : List Bytes) × Encoded (t.registry_peers registry) codes
      × Encoded (t.registry_peers other) others
      × ((codes ≡ others)
          ⊎ ((framed codes ≢ framed others)
              × (t.sha256 (ceremony_domain ++ framed codes)
                  ≡ t.sha256 (ceremony_domain ++ framed others))))

  -- An encoding has less than 2^64 bytes, as every Rust vector has.
  abbrev pub FitsMemory : Type 0
  FitsMemory =
      (peer : t.Peer) (code : Bytes) → t.peer_to_json peer ≡ ok code → length code < u64_bound

  peer_material-framed :
      FitsMemory
      → (peers : List t.Peer) (material : Bytes) → peer_material t peers ≡ ok material
      → (codes : List Bytes) × Encoded peers codes
        × All (λ b. length b < u64_bound) codes
        × (material ≡ framed codes)
  unfolding peer_material
  peer_material-framed fits [] material h = ([], tt, tt, sym (ok-inj h))
  peer_material-framed fits (peer ∷ peers) material h =
      let (code, encoded, h1) =
        >>=-eq-ok (map_err CeremonyError.transport (t.peer_to_json peer)) _ h in
      let (rest, ran, h2) = >>=-eq-ok (peer_material t peers) _ h1 in
      let (codes, all, small, is) = peer_material-framed fits peers rest ran in
      let here = map_err-eq-ok _ _ encoded in
      (
        code ∷ codes,
        (here, all),
        (fits peer code here, small),
        sym (ok-inj h2) ∙ ap (λ r. be_bytes 8 (length code) ++ (code ++ r)) is,
      )

  registry_digest-SamePeers :
      FitsMemory
      → (registry other : t.Registry) (digest : Bytes) → registry_digest t registry ≡ ok digest
      → registry_digest t other ≡ ok digest
      → SamePeers registry other
  unfolding registry_digest
  registry_digest-SamePeers fits registry other digest h k =
      let (material, made, h1) = >>=-eq-ok (peer_material t (t.registry_peers registry)) _ h in
      let (material', made', k1) = >>=-eq-ok (peer_material t (t.registry_peers other)) _ k in
      let (codes, encoded, small, is) = peer_material-framed fits _ material made in
      let (codes', encoded', small', is') = peer_material-framed fits _ material' made' in
      let hashed : t.sha256 (ceremony_domain ++ framed codes)
          ≡ t.sha256 (ceremony_domain ++ framed codes') =
        ap (λ x. t.sha256 (ceremony_domain ++ x)) (sym is)
        ∙ (ok-inj h1 ∙ (sym (ok-inj k1) ∙ ap (λ x. t.sha256 (ceremony_domain ++ x)) is')) in
      (
        codes,
        codes',
        encoded,
        encoded',
        elim (Bool-cases (bytes_eq (framed codes) (framed codes'))) [
          | inl e ↦ inl (framed-inj codes codes' small small' (bytes_eq→eq _ _ e))
          | inr e ↦ inr (
            λ same.
                let f = bytes_eq_refl (framed codes) in
                let g = ap (bytes_eq (framed codes)) same in cc,
            hashed,
          )
        ],
      )

module _ (m : Setting) where
  open m use {t, J, P, durable, crypto}

  -- A coordinator that is recovered from the journal of another, whose record the journal has, goes on
  -- from that record, in that journal; and only for the chain and the epoch of the record, and for
  -- peers whose encodings are those of the other's peers, unless the two lists of encodings, each
  -- encoding after its length, are different inputs with the same SHA-256. An encoding of a peer is
  -- taken to have less than 2^64 bytes.
  pub recover-continues :
      (before self : State m) (secrets last : P) (registry : t.Registry) (chain_domain : Bytes)
      (epoch : ℕ)
      → FitsMemory t
      → InSync m before
      → recover t durable crypto before.journal secrets registry before.record_.session.ceremony_id
          chain_domain epoch
        ≡ (last, ok self)
      → Recovered m before self chain_domain epoch × SamePeers t before.registry self.registry
  recover-continues before self secrets last registry chain_domain epoch fits h e =
      let r = recover-Recovered m before self secrets last registry chain_domain epoch h e in
      (
        r,
        registry_digest-SamePeers t fits before.registry self.registry
            before.record_.registry_digest h.peers r.same_peers,
      )
