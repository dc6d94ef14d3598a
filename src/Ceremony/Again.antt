-- ===== src/Ceremony/Again.antt =====
-- src/dkg_ceremony.rs: a certificate of round one that is sent twice.
use asteria.Base.{ℕ, ◌<◌, ◌≡◌, Bytes, insert}
use asteria.Base.Result.{Result}
use asteria.Ceremony.Types.{Phase, Record}
use asteria.Ceremony.Keeps.{Setting, State}

module _ (m : Setting) where
  open m use {t, J, P, durable, crypto}

  -- The coordinator has a record, but for its revision, and the peers of another.
  record Has (before : State m) (next : Record) (after : State m) : Type 0 where
    revision : ℕ
    is_record : after.record_ ≡ record next { revision = revision }
    same_registry : after.registry ≡ before.registry

  module _ (self next : State m) (certificate : t.CertifiedEnvelope) (now later : ℕ)
      (at_round1 : self.record_.phase ≡ Phase.round1)
      (early : now < self.record_.deadlines.round1_unix_ms)
      (still_early : later < self.record_.deadlines.round1_unix_ms) where
    abbrev with_message : t.Round1Message → Bytes → Bytes → Record
    with_message message bytes certificate_bytes = record (self.record_) {
      round1_messages = insert (t.round1_sender message) bytes self.record_.round1_messages;
      round1_certificates =
          insert (t.round1_sender message) certificate_bytes self.record_.round1_certificates;
    }
