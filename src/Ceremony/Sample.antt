-- ===== src/Ceremony/Sample.antt =====
-- A ceremony for the tests: messages that carry their sender, a provider that counts its rounds, and
-- the journal in memory.
use asteria.Base.{ℕ, List, [], ◌∷◌, Bytes, length, ◌==◌}
use asteria.Base.Result.{Result, ok, err}
use asteria.Ceremony.Types.{DkgKind, DkgSession, Phase, Deadlines, Completion, ProviderState}
use asteria.Ceremony.Journal.{Entries, memory_journal, put_entry}
use asteria.Ceremony.Coordinator.{Transport, Provider}
use asteria.Ceremony.Rounds.{first_record}
use asteria.Ceremony.Canonical.{Storable}
use asteria.Ceremony.Memory.{IsCanonical, memory_view, memory_journal-JournalContract}
use asteria.Ceremony.SampleCodec.{sample_codec, sample_codec_laws}
use asteria.Ceremony.Keeps.{Setting, State}

abbrev pub sample_session : DkgSession
sample_session = record {
  chain_domain = 1 ∷ [];
  ceremony_id = 3 ∷ [];
  epoch = 7;
  kind = DkgKind.initial;
}

abbrev pub sample_deadlines : Deadlines
sample_deadlines = record { round1_unix_ms = 100; round2_unix_ms = 200; finalize_unix_ms = 300 }

abbrev pub sample_completion : Completion
sample_completion = record { validator_id = 1; epoch = 7; public_key = 5 ∷ []; key_id = 6 ∷ [] }

-- A message is its sender, its recipient and its content.
abbrev pub Message : Type 0
Message = ℕ × (ℕ × ℕ)

abbrev to_json : Message → Result Bytes Bytes
to_json (a, (b, c)) = ok (a ∷ b ∷ c ∷ [])

abbrev from_json : Bytes → Result Bytes Message
from_json (a ∷ b ∷ c ∷ []) = ok (a, (b, c))
from_json _ = err []

abbrev pub sample_transport : Transport
sample_transport = record {
  Peer = ℕ;
  Registry = List ℕ;
  Round1Message = Message;
  Round2Message = Message;
  BroadcastEnvelope = Message;
  CertifiedEnvelope = Message;
  Endorsement = ℕ;
  PointEnvelope = Message;
  peer_validator_id = λ p. p;
  peer_eq = λ p q. p == q;
  peer_to_json = λ p. ok (p ∷ []);
  registry_peer = λ _ id. ok id;
  registry_peers = λ peers. peers;
  round1_session = λ _. sample_session;
  round1_sender = λ (sender, _). sender;
  round1_to_json = to_json;
  round1_from_json = from_json;
  round2_session = λ _. sample_session;
  round2_sender = λ (sender, _). sender;
  round2_recipient = λ (_, (recipient, _)). recipient;
  round2_to_json = to_json;
  round2_from_json = from_json;
  broadcast_to_json = to_json;
  broadcast_from_json = from_json;
  certified_to_json = to_json;
  point_session = λ _. sample_session;
  point_sender = λ (sender, _). sender;
  point_recipient = λ (_, (recipient, _)). recipient;
  point_to_json = to_json;
  point_from_json = from_json;
  open_round1_broadcast = λ _ _ message. ok message;
  open_certified_round1_broadcast = λ _ _ message. ok message;
  sha256 = λ bytes. length bytes ∷ [];
  detail_text = λ _. [];
}

abbrev state_of : Phase → ProviderState
state_of Phase.initial = ProviderState.ready
state_of Phase.round1 = ProviderState.round1
state_of Phase.round2 = ProviderState.round2
state_of Phase.finalize = ProviderState.round2
state_of Phase.completed = ProviderState.completed
state_of Phase.aborted = ProviderState.quarantined

abbrev pub sample_provider : Provider sample_transport ℕ
sample_provider = record {
  local_peer = λ _. 1;
  checkpoint = λ round _. ok (round ∷ []);
  restore_checkpoint = λ _ phase _ round. (round, ok (state_of phase));
  begin_round1 = λ _ _. (1, ok ((1, (0, 11)), (1, (0, 11))));
  endorse_round1 = λ _ _ round. (round, ok 1);
  advance_round2 = λ _ _ _. (
    2,
    ok (
        ((1, (2, 12)), (1, (2, 12)))
        ∷ ((1, (3, 13)), (1, (3, 13)))
        ∷ ((1, (4, 14)), (1, (4, 14)))
        ∷ []),
  );
  open_round2 = λ _ envelope round. (round, ok envelope);
  finalize = λ _ _ _. (3, ok sample_completion);
  quarantine = λ _ _ _. (9, ok tt);
}

abbrev pub sample : Setting
sample = record {
  t = sample_transport;
  J = Entries;
  P = ℕ;
  durable = memory_journal sample_codec;
  crypto = sample_provider;
  IsGood = IsCanonical sample_codec sample_codec_laws;
  view = memory_view sample_codec sample_codec_laws;
  Storable = Storable sample_codec sample_codec_laws;
  contract = memory_journal-JournalContract sample_codec sample_codec_laws;
}

abbrev pub sample_registry : List ℕ
sample_registry = 1 ∷ 2 ∷ 3 ∷ 4 ∷ []

-- The coordinator that `start` makes in an empty journal.
unfoldable pub begun : State sample
unfolding put_entry sample_codec
begun =
    let fresh = first_record sample_session 1 (74 ∷ []) sample_deadlines (0 ∷ []) in
    record {
      journal = put_entry (3 ∷ []) (written (sample_codec.to_vec fresh)) [];
      provider = 0;
      registry = sample_registry;
      record_ = fresh;
    }
  where
    written : Result Bytes Bytes → Bytes
    written (ok bytes) = bytes
    written (err _) = []
