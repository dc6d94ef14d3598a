-- ===== src/Ceremony/SampleCodec.antt =====
-- A codec of records for the tests: every field in its order, lists and texts by their length.
use asteria.Base.{
  ℕ, ◌==◌, if◌then◌else◌, ◌<◌, ◌≡◌, refl, subst, arith, List, [], ◌∷◌, length, Option, none, some,
  Bytes,
}
use asteria.Base.Result.{Result, ok, err, ok-inj}
use asteria.Ceremony.Types.{
  DkgKind, DkgSession, Phase, Deadlines, AbortCode, timeout, Abort, Completion, Record,
}
use asteria.Ceremony.Record.{RecordCodec}
use asteria.Ceremony.Canonical.{RecordCodecLaws}
use asteria.Ceremony.Formats.{Format, number, pair, via, many, maybe}

phase_number : Phase → ℕ
phase_number Phase.initial = 0
phase_number Phase.round1 = 1
phase_number Phase.round2 = 2
phase_number Phase.finalize = 3
phase_number Phase.completed = 4
phase_number Phase.aborted = 5

phase_at : ℕ → Phase
phase_at n =
    if n == 0
    then Phase.initial
    else if n == 1
    then Phase.round1
    else if n == 2
    then Phase.round2
    else if n == 3
    then Phase.finalize
    else if n == 4
    then Phase.completed
    else Phase.aborted

phase_at-number : (p : Phase) → phase_at (phase_number p) ≡ p
unfolding phase_at phase_number
phase_at-number Phase.initial = refl
phase_at-number Phase.round1 = refl
phase_at-number Phase.round2 = refl
phase_at-number Phase.finalize = refl
phase_at-number Phase.completed = refl
phase_at-number Phase.aborted = refl

code_number : AbortCode → ℕ
code_number timeout = 0
code_number AbortCode.equivocation = 1
code_number AbortCode.round2_semantic_failure = 2
code_number AbortCode.finalize_semantic_failure = 3
code_number AbortCode.provider_failure = 4
code_number AbortCode.operator = 5

code_at : ℕ → AbortCode
code_at n =
    if n == 0
    then timeout
    else if n == 1
    then AbortCode.equivocation
    else if n == 2
    then AbortCode.round2_semantic_failure
    else if n == 3
    then AbortCode.finalize_semantic_failure
    else if n == 4
    then AbortCode.provider_failure
    else AbortCode.operator

code_at-number : (c : AbortCode) → code_at (code_number c) ≡ c
unfolding code_at code_number
code_at-number timeout = refl
code_at-number AbortCode.equivocation = refl
code_at-number AbortCode.round2_semantic_failure = refl
code_at-number AbortCode.finalize_semantic_failure = refl
code_at-number AbortCode.provider_failure = refl
code_at-number AbortCode.operator = refl

to_key : DkgKind → Option Bytes
to_key DkgKind.initial = none
to_key (DkgKind.refresh key_id) = some key_id

from_key : Option Bytes → DkgKind
from_key none = DkgKind.initial
from_key (some key_id) = DkgKind.refresh key_id

from-to_key : (k : DkgKind) → from_key (to_key k) ≡ k
unfolding from_key to_key
from-to_key DkgKind.initial = refl
from-to_key (DkgKind.refresh key_id) = refl

text : Format Bytes
unfolding many
text = many number

transcript : Format (List (ℕ × Bytes))
unfolding many text
transcript = many (pair number text)

session : Format DkgSession
unfolding text maybe from_key to_key
session =
    via (λ (s : DkgSession). (s.chain_domain, (s.ceremony_id, (s.epoch, s.kind))))
      (λ (a, (b, (c, d))). record { chain_domain = a; ceremony_id = b; epoch = c; kind = d })
      (λ s. refl)
      (pair text (pair text (pair number (via to_key from_key from-to_key (maybe text)))))

deadlines : Format Deadlines
deadlines =
    via (λ (s : Deadlines). (s.round1_unix_ms, (s.round2_unix_ms, s.finalize_unix_ms)))
      (λ (a, (b, c)). record { round1_unix_ms = a; round2_unix_ms = b; finalize_unix_ms = c })
      (λ s. refl) (pair number (pair number number))

completion : Format Completion
unfolding text
completion =
    via (λ (s : Completion). (s.validator_id, (s.epoch, (s.public_key, s.key_id))))
      (λ (a, (b, (c, d))). record { validator_id = a; epoch = b; public_key = c; key_id = d })
      (λ s. refl) (pair number (pair number (pair text text)))

abort : Format Abort
unfolding text code_at code_number
abort =
    via (λ (s : Abort). (s.at_unix_ms, (s.code, s.detail_hash)))
      (λ (a, (b, c)). record { at_unix_ms = a; code = b; detail_hash = c }) (λ s. refl)
      (pair number (pair (via code_number code_at code_at-number number) text))

whole : Format Record
unfolding session deadlines text transcript maybe completion abort phase_at phase_number
whole =
    via
      (λ (r : Record). (
        (r.version, (r.revision, (r.session, (r.validator_id, r.registry_digest)))),
        (
          (r.phase, (r.deadlines, r.provider_checkpoint)),
          (
            (
              r.local_round1_message,
              (r.local_round1_envelope, (r.round1_certificates, r.round1_messages)),
            ),
            (
              (
                r.outgoing_round2_envelopes,
                (r.incoming_round2_envelopes, r.incoming_round2_messages),
              ),
              (r.completion, r.abort),
            ),
          ),
        ),
      ))
      (λ ((a, (b, (c, (d, e)))), ((f, (g, h)), ((i, (j, (k, l))), ((n, (o, p)), (q, r))))). record {
        version = a;
        revision = b;
        session = c;
        validator_id = d;
        registry_digest = e;
        phase = f;
        deadlines = g;
        provider_checkpoint = h;
        local_round1_message = i;
        local_round1_envelope = j;
        round1_certificates = k;
        round1_messages = l;
        outgoing_round2_envelopes = n;
        incoming_round2_envelopes = o;
        incoming_round2_messages = p;
        completion = q;
        abort = r;
      })
      (λ r. refl)
      (pair (pair number (pair number (pair session (pair number text)))) (
        pair (pair (via phase_number phase_at phase_at-number number) (pair deadlines text)) (
          pair (pair (maybe text) (pair (maybe text) (pair transcript transcript))) (
            pair (pair transcript (pair transcript transcript))
              (pair (maybe completion) (maybe abort))))))

read_whole : Option (Record × Bytes) → Result Bytes Record
read_whole (some (r, [])) = ok r
read_whole (some (r, _ ∷ _)) = err []
read_whole none = err []

-- Every record has bytes, and they are read back.
unfoldable pub sample_codec : RecordCodec
unfolding whole read_whole from-to_key phase_at-number code_at-number
sample_codec = record {
  to_vec = λ r. ok (whole.put r []);
  from_slice = λ bytes. read_whole (whole.get bytes);
}

put-pos : (r : Record) → 0 < length (whole.put r [])
unfolding whole
put-pos r = omega arith

pub sample_codec_laws : RecordCodecLaws sample_codec
unfolding sample_codec read_whole
sample_codec_laws = record {
  round_trip = λ r bytes h.
      let same = ok-inj h in
      subst (λ b. read_whole (whole.get b) ≡ ok r) same (rw (whole.round_trip r []));
  written = λ r bytes h. subst (λ b. 0 < length b) (ok-inj h) (put-pos r);
}
