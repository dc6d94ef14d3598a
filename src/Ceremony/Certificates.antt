-- ===== src/Ceremony/Certificates.antt =====
-- src/dkg_ceremony.rs: a certificate of round one from a validator that sent one before.
use asteria.Base.{ℕ, ◌<◌, ◌≡◌, ap, ◌∙◌, false, some, Bytes, bytes_eq, lookup, leb, arith}
use asteria.Base.Result.{Result, ok, err, map_err}
use asteria.Base.Action.{choose, pure, >>=-ok, get_>>=, lift_>>=, choose-false}
use asteria.Ceremony.Types.{Phase, Record, CeremonyError, ProviderError, provider, duplicate}
use asteria.Ceremony.Record.{deadline_for}
use asteria.Ceremony.Coordinator.{ensure_live, expect_phase, is_overdue, abort_for_equivocation}
use asteria.Ceremony.FirstRound.{accept_round1_certificate}
use asteria.Ceremony.Keeps.{Setting, State}
use asteria.Ceremony.Tombstones.{live_phase}

leb-false : (a b : ℕ) → b < a → leb a b ≡ false
leb-false a b h = ground arith

module _ (m : Setting) where
  open m use {t, J, P, durable, crypto, IsGood, view, Storable, contract}

  -- Before the deadline a call goes on.
  pub ensure_live-early :
      (self : State m) (now deadline : ℕ)
      → deadline_for self.record_.deadlines self.record_.phase ≡ some deadline
      → now < deadline
      → ensure_live t durable crypto now self ≡ (self, ok tt)
  unfolding ensure_live pure
  ensure_live-early self now deadline due early =
      let (live, going, _) = live_phase self.record_ deadline due in
      let timely : is_overdue t durable crypto self.record_.deadlines self.record_.phase now
          ≡ false =
        rw (is_overdue, due) (leb-false deadline now early) in
      get_>>= _ self
      ∙ (choose-false _ _ _ _ live ∙ (choose-false _ _ _ _ going ∙ choose-false _ _ _ _ timely))

  -- A certificate that opens to a message of a sender whose message is there.
  pub record Known (self : State m) (certificate : t.CertifiedEnvelope) (now : ℕ)
      (message : t.Round1Message) (existing bytes : Bytes) : Type 0 where
    pub at_round1 : self.record_.phase ≡ Phase.round1
    pub early : now < self.record_.deadlines.round1_unix_ms
    pub opened :
        t.open_certified_round1_broadcast self.record_.session self.registry certificate
        ≡ ok message
    pub encoded : t.round1_to_json message ≡ ok bytes
    pub known : lookup (t.round1_sender message) self.record_.round1_messages ≡ some existing

  -- The call, up to the comparison of the two messages.
  pub accept-Known :
      (self : State m) (certificate : t.CertifiedEnvelope) (now : ℕ) (message : t.Round1Message)
      (existing bytes : Bytes)
      → Known self certificate now message existing bytes
      → accept_round1_certificate t durable crypto certificate now self
        ≡ choose
            (bytes_eq existing bytes)
            (pure duplicate)
            (abort_for_equivocation t durable crypto now (t.round1_sender message))
            self
  unfolding accept_round1_certificate expect_phase
  accept-Known self certificate now message existing bytes k =
      let due : deadline_for self.record_.deadlines self.record_.phase
          ≡ some self.record_.deadlines.round1_unix_ms =
        rw k.at_round1 in
      >>=-ok _ _ _ _ _ (ensure_live-early self now _ due k.early)
      ∙ (get_>>= _ _
          ∙ (lift_>>= _ _ _ tt (rw k.at_round1)
              ∙ (lift_>>= _ _ _ message (ap (map_err CeremonyError.transport) k.opened)
                  ∙ (lift_>>= _ _ _ bytes (ap (map_err CeremonyError.serialization) k.encoded)
                      ∙ rw k.known))))

  -- The error of a call that ends in an abort: the provider's, where its quarantine fails.
  abbrev pub abort_error : Result ProviderError (Unit {0}) → CeremonyError
  abort_error (ok _) = CeremonyError.aborted Phase.aborted
  abort_error (err e) = provider e
