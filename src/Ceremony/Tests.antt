-- ===== src/Ceremony/Tests.antt =====
-- Runs of the ceremony, and the theorems at them.
use asteria.Base.{subst, length, ◌<◌, u64_bound, ◌≡◌, refl, [], ◌∷◌, some, arith, lookup, insert}
use asteria.Base.Result.{ok, ok-inj}
use asteria.Base.Action.{◌>>=◌, get, lift, pure, fail, choose}
use asteria.Ceremony.Types.{Phase}
use asteria.Ceremony.Journal.{memory_journal, get_entry}
use asteria.Ceremony.Rounds.{start, recover}
use asteria.Ceremony.Evidence.{HasEvidence}
use asteria.Ceremony.Keeps.{State, InSync}
use asteria.Ceremony.FirstRound.{begin_round1, accept_round1_certificate}
use asteria.Ceremony.SecondRound.{advance_round2, accept_round2}
use asteria.Ceremony.Closing.{enter_finalize, finalize}
use asteria.Ceremony.Calls.{
  to_begin, to_certify, to_advance, to_receive, to_finalize, to_abort, perform, perform-Kept,
}
use asteria.Ceremony.Memory.{IsCanonical, memory_view, memory_journal-JournalContract}
use asteria.Ceremony.SampleCodec.{sample_codec, sample_codec_laws}
use asteria.Ceremony.Contract.{JournalContract}
use asteria.Ceremony.Canonical.{Storable}
use asteria.Ceremony.Life.{
  Life, Life-Kept, now_, called, recovered, interrupted, Life-durable, Life-Continues,
  Life-terminal,
}
use asteria.Ceremony.History.{Continues}
use asteria.Ceremony.Recovery.{start-InSync, Recovered}
use asteria.Ceremony.Peers.{FitsMemory, SamePeers, recover-continues}
use asteria.Ceremony.Sample.{
  sample, sample_session, sample_deadlines, sample_transport, sample_provider, sample_registry,
  begun,
}

start-begun :
    start sample_transport
      (memory_journal sample_codec)
      sample_provider
      []
      0
      sample_registry
      sample_session
      sample_deadlines
      (1 ∷ [])
      7
    ≡ (begun.journal, ok begun)
unfolding start memory_journal sample_codec begun ◌>>=◌ lift
start-begun = refl

nothing_stored : IsCanonical sample_codec sample_codec_laws []
unfolding get_entry
nothing_stored key bytes e = absurd cc

begun-InSync : InSync sample begun
begun-InSync =
    start-InSync sample [] 0 sample_registry sample_session sample_deadlines (1 ∷ []) 7
      begun.journal begun nothing_stored start-begun

-- Round one: a message of one's own, and the certificates of all four.
unfoldable in_round1 : State sample
in_round1 = perform sample (to_begin 5) begun

unfoldable certified : State sample
certified = perform sample (to_certify (4, (0, 44)) 9) (
    perform sample (to_certify (3, (0, 33)) 8) (
      perform sample (to_certify (2, (0, 22)) 7)
        (perform sample (to_certify (1, (0, 11)) 6) in_round1)))

unfoldable received : State sample
received = perform sample (to_receive (4, (1, 41)) 113) (
    perform sample (to_receive (3, (1, 31)) 112)
      (perform sample (to_receive (2, (1, 21)) 111) (perform sample (to_advance 99) certified)))

-- The intent to finalize is stored first.
unfoldable intended : State sample
intended =
    (enter_finalize sample_transport (memory_journal sample_codec) sample_provider received).0

unfoldable finished : State sample
finished = perform sample (to_finalize 150) intended

in_round1-InSync : InSync sample in_round1
unfolding in_round1
in_round1-InSync = (perform-Kept sample (to_begin 5) begun begun-InSync).in_sync

finished-phase : finished.record_.phase ≡ Phase.completed
unfolding finished intended received certified in_round1 begun perform memory_journal sample_codec
    finalize enter_finalize accept_round2 advance_round2 accept_round1_certificate begin_round1
    lookup insert ◌>>=◌ get lift pure fail choose
finished-phase = refl

-- A coordinator that was started, and its life to the end; the first part of it is a crash.
restarted :
    recover sample_transport
      (memory_journal sample_codec)
      sample_provider
      in_round1.journal
      1
      sample_registry
      in_round1.record_.session.ceremony_id
      (1 ∷ [])
      7
    ≡ (1, ok in_round1)
unfolding recover in_round1 begun perform memory_journal sample_codec begin_round1 get_entry ◌>>=◌
    get lift pure fail choose
restarted = refl

sample-Life : Life sample begun finished
unfolding finished intended received certified in_round1
sample-Life = called (to_begin 5) (
    recovered {self = perform sample (to_begin 5) begun} {next = perform sample (to_begin 5) begun}
      1 1 sample_registry (1 ∷ []) 7 restarted
      (called (to_certify (1, (0, 11)) 6) (
        called (to_certify (2, (0, 22)) 7) (
          called (to_certify (3, (0, 33)) 8) (
            called (to_certify (4, (0, 44)) 9) (
              called (to_advance 99) (
                called (to_receive (2, (1, 21)) 111) (
                  called (to_receive (3, (1, 31)) 112) (
                    called (to_receive (4, (1, 41)) 113)
                      (interrupted (called (to_finalize 150) now_)))))))))))

Life-durable_example :
    ((memory_journal sample_codec).load finished.journal finished.record_.session.ceremony_id
      ≡ ok (some finished.record_))
    × HasEvidence sample_transport finished.record_
Life-durable_example =
    Life-durable sample [] 0 sample_registry sample_session sample_deadlines (1 ∷ []) 7
      begun.journal begun finished nothing_stored start-begun sample-Life

Life-Continues_example : Continues begun.record_ finished.record_
Life-Continues_example = Life-Continues sample begun finished begun-InSync sample-Life

finished-InSync : InSync sample finished
finished-InSync = (Life-Kept sample sample-Life begun-InSync).in_sync

-- A life goes on after the end, and nothing changes.
afterwards :
    Life sample finished (perform sample (to_abort 260) (perform sample (to_begin 255) finished))
afterwards = called (to_begin 255) (called (to_abort 260) now_)

Life-terminal_example :
    (perform sample (to_abort 260) (perform sample (to_begin 255) finished)).record_
    ≡ finished.record_
unfolding finished intended received certified in_round1 begun perform memory_journal sample_codec
    finalize enter_finalize accept_round2 advance_round2 accept_round1_certificate begin_round1
    lookup insert ◌>>=◌ get lift pure fail choose
Life-terminal_example =
    Life-terminal sample finished
      (perform sample (to_abort 260) (perform sample (to_begin 255) finished)) finished-InSync refl
      afterwards

sample-FitsMemory : FitsMemory sample_transport
sample-FitsMemory peer code e = subst (λ c. length c < u64_bound) (ok-inj e) (omega arith)

recover-continues_example :
    Recovered sample in_round1 in_round1 (1 ∷ []) 7
    × SamePeers sample_transport in_round1.registry in_round1.registry
recover-continues_example =
    recover-continues sample in_round1 in_round1 1 1 sample_registry (1 ∷ []) 7 sample-FitsMemory
      in_round1-InSync restarted

memory_journal-JournalContract_example :
    JournalContract
      (memory_journal sample_codec)
      (IsCanonical sample_codec sample_codec_laws)
      (memory_view sample_codec sample_codec_laws)
      (Storable sample_codec sample_codec_laws)
memory_journal-JournalContract_example =
    memory_journal-JournalContract sample_codec sample_codec_laws

-- The second validator, once more and with another message.
unfoldable one_certified : State sample
unfolding in_round1
one_certified = perform sample (to_certify (2, (0, 22)) 7) in_round1
