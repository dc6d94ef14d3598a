-- ===== src/Ceremony/Calls.antt =====
-- src/dkg_ceremony.rs: sequences of calls on a coordinator, from its start or its recovery on.
use asteria.Base.{ℕ}
use asteria.Ceremony.Coordinator.{Transport}
use asteria.Ceremony.FirstRound.{begin_round1, endorse_round1, accept_round1_certificate}
use asteria.Ceremony.SecondRound.{advance_round2, accept_round2}
use asteria.Ceremony.Closing.{finalize, abort}
use asteria.Ceremony.Keeps.{InSync, Setting, State, Reaches}
use asteria.Ceremony.Round1.{
  begin_round1-Keeps, endorse_round1-Keeps, accept_round1_certificate-Keeps,
}
use asteria.Ceremony.Round2.{advance_round2-Keeps, accept_round2-Keeps}
use asteria.Ceremony.Finish.{finalize-Keeps, abort-Keeps}

-- The calls that change a coordinator, each with the time that the caller gives.
pub data Call (t : Transport) : Type 0 where
  to_begin : ℕ → Call t
  to_endorse : t.BroadcastEnvelope → ℕ → Call t
  to_certify : t.CertifiedEnvelope → ℕ → Call t
  to_advance : ℕ → Call t
  to_receive : t.PointEnvelope → ℕ → Call t
  to_finalize to_abort : ℕ → Call t

module _ (m : Setting) where
  open m use {t, J, P, durable, crypto, IsGood, view, contract}

  -- The coordinator after a call, whether the call fails or not.
  unfoldable pub perform : Call t → State m → State m
  perform (to_begin now) self = (begin_round1 t durable crypto now self).0
  perform (to_endorse envelope now) self = (endorse_round1 t durable crypto envelope now self).0
  perform (to_certify certificate now) self =
      (accept_round1_certificate t durable crypto certificate now self).0
  perform (to_advance now) self = (advance_round2 t durable crypto now self).0
  perform (to_receive envelope now) self = (accept_round2 t durable crypto envelope now self).0
  perform (to_finalize now) self = (finalize t durable crypto now self).0
  perform (to_abort now) self = (abort t durable crypto now self).0

  -- What calls leave.
  pub record Kept (before after : State m) : Type 0 where
    pub in_sync : InSync m after
    pub reaches : Reaches before.record_ after.record_

  pub perform-Kept :
      (call : Call t) (self : State m) → InSync m self → Kept self (perform call self)
  unfolding perform
  perform-Kept (to_begin now) self h =
      let k = begin_round1-Keeps m self now h in record { in_sync = k.in_sync; reaches = k.reaches }
  perform-Kept (to_endorse envelope now) self h =
      let k = endorse_round1-Keeps m self envelope now h in
      record { in_sync = k.in_sync; reaches = k.reaches }
  perform-Kept (to_certify certificate now) self h =
      let k = accept_round1_certificate-Keeps m self certificate now h in
      record { in_sync = k.in_sync; reaches = k.reaches }
  perform-Kept (to_advance now) self h =
      let k = advance_round2-Keeps m self now h in
      record { in_sync = k.in_sync; reaches = k.reaches }
  perform-Kept (to_receive envelope now) self h =
      let k = accept_round2-Keeps m self envelope now h in
      record { in_sync = k.in_sync; reaches = k.reaches }
  perform-Kept (to_finalize now) self h =
      let k = finalize-Keeps m self now h in record { in_sync = k.in_sync; reaches = k.reaches }
  perform-Kept (to_abort now) self h =
      let k = abort-Keeps m self now h in record { in_sync = k.in_sync; reaches = k.reaches }
