-- ===== src/Gossip/Protocol.antt =====
-- `GossipProtocol`. JSON, AES-GCM and Ed25519 are parameters; a call of theirs that raises is `none`,
-- and so is the whole operation. The asynchronous and the synchronous processing of a request do
-- the same; of the latter the case is modelled in which no loop runs.
use mathlib.Core.Option
use atlas_memory.Prelude.{
  ℕ, Bool, true, false, List, [], ◌∷◌, Option, none, some, if◌then◌else◌, ◌>>=◌, map, keep_if,
}
use atlas_memory.Prelude.Dict.{Dict, lookup, insert}
use atlas_memory.Prelude.Text.{Str}
use atlas_memory.Sync.Clock.{VectorClock, merge, concurrent}
use atlas_memory.Sync.Delta.{SyncDelta, DeltaCrdt, apply_delta, export_delta}
use atlas_memory.Bridge.Export.{AuditDelta, AuditRow, export_delta_from_audit}
use atlas_memory.Bridge.Apply.{
  Wiring, RemoteDelta, Bridge, Delivery, delivered, interrupted, apply_remote_delta,
}
use atlas_memory.Gossip.Peers.{Ed25519, PeerIdentity, verify, EpistemicReputation, note_result}

pub record PeerStatus : Type 0 where
  pub peer_id : Str
  pub vector_clock : VectorClock
  pub last_seen : ℕ

-- A field that is missing or false is `none`.
pub record Envelope : Type 0 where
  pub source_node : Option Str
  pub aad : Str
  pub ciphertext_hex : Str
  pub signature_hex : Option Str

-- A delta that was read: for the sets of the CRDT, and for the bridge if its payload, or the payload
-- in it, has mutations.
pub record Message : Type 0 where
  pub delta : SyncDelta
  pub mutations : Option RemoteDelta

-- The libraries that read a request. `check` is Ed25519.
pub record Codec : Type 0 where
  pub read_envelope : Str → Option Envelope
  pub from_hex : Str → Option Str
  pub decrypt : Str → Str → Option Str
  pub read_message : Str → Option Message
  pub check : Ed25519

pub record GossipProtocol (S : Type 0) : Type 0 where
  pub local_node_id : Str
  pub crdt : DeltaCrdt
  pub bridge : Option (Bridge S)
  pub identity : Option PeerIdentity
  pub reputation : Option EpistemicReputation
  pub peers : Dict PeerStatus
  pub peer_cursors : Dict ℕ

-- The check of a signature: false where it is not hexadecimal or cannot be checked.
unfoldable pub signature_holds : Codec → PeerIdentity → Str → Str → Str → Bool
signature_holds c p source message sig_hex = elim (c.from_hex sig_hex) [
  | none ↦ false
  | some sig ↦ elim (verify c.check source message sig p) [ none ↦ false | some valid ↦ valid ]
]

-- A request that was opened: its envelope, its plain text, what it says, and its source.
pub record Opened : Type 0 where
  pub envelope : Envelope
  pub plain : Str
  pub message : Message
  pub source : Str

-- The envelope, the plain text and the message of a request; `none` if a step of it raises.
unfoldable pub open_request : Codec → Str → Option Opened
open_request c request = do
  envelope ← c.read_envelope request
  blob ← c.from_hex envelope.ciphertext_hex
  plain ← c.decrypt blob envelope.aad
  message ← c.read_message plain
  some (record {
    envelope = envelope;
    plain = plain;
    message = message;
    source = elim envelope.source_node [ none ↦ message.delta.source_node | some s ↦ s ];
  })

-- The content of a request, before it is serialised, signed and encrypted.
pub data Content : Type 0 where
  audit : AuditDelta → Content
  sets : SyncDelta → Content

pub record SyncRequest : Type 0 where
  pub source_node : Str
  pub target_node : Str
  pub aad : VectorClock
  pub content : Content

abbrev pub cursor_or : Option ℕ → ℕ
cursor_or none = 0
cursor_or (some n) = n

module _ {S : Type 0} where
  unfoldable pub register_peer : ℕ → Str → VectorClock → GossipProtocol S → GossipProtocol S
  register_peer now peer clock g = record g {
    peers = insert peer (record { peer_id = peer; vector_clock = clock; last_seen = now }) g.peers;
  }

  -- `self.reputation.record`, if there is a reputation.
  unfoldable pub note_reputation : Str → Bool → GossipProtocol S → GossipProtocol S
  note_reputation source validated g = record g {
    reputation = Option.map (note_result source validated) g.reputation;
  }

  -- The checks of `_verify_envelope_signature`, by the identity and the signature that are there.
  unfoldable pub check_signature :
      Codec
      → Option PeerIdentity
      → Option Str
      → Str
      → Str
      → GossipProtocol S
      → GossipProtocol S × Bool
  unfolding note_reputation signature_holds
  check_signature c none sig_hex source message g = (g, true)
  check_signature c (some p) none source message g = (note_reputation source false g, false)
  check_signature c (some p) (some sig_hex) source message g =
      let valid = signature_holds c p source message sig_hex in
      (note_reputation source valid g, valid)

  -- `_verify_envelope_signature`: the protocol with what it noted, and whether it lets pass.
  unfoldable pub verify_envelope_signature :
      Codec → Envelope → Str → Str → GossipProtocol S → GossipProtocol S × Bool
  unfolding check_signature
  verify_envelope_signature c envelope source message g =
      check_signature c g.identity envelope.signature_hex source message g

  -- `true` where the bridge returned.
  abbrev with_bridge : GossipProtocol S → Delivery S → GossipProtocol S × Bool
  with_bridge g (delivered b n) = (record g { bridge = some b }, true)
  with_bridge g (interrupted b) = (record g { bridge = some b }, false)

  -- The mutations through the bridge, or the sets into the CRDT; `false` where that raises.
  unfoldable pub apply_message :
      {J : Type 0} → Wiring S J → ℕ → Message → GossipProtocol S → GossipProtocol S × Bool
  apply_message w now m g = elim g.bridge [
    | none ↦ (record g { crdt = apply_delta now m.delta g.crdt }, true)
    | some b ↦ elim m.mutations [
      | none ↦ (record g { crdt = apply_delta now m.delta g.crdt }, true)
      | some d ↦ with_bridge g (apply_remote_delta w d b)
    ]
  ]

  -- What is known of the source, if it has a name.
  unfoldable pub note_source : ℕ → Str → VectorClock → GossipProtocol S → GossipProtocol S
  unfolding register_peer
  note_source now [] clock g = g
  note_source now (c ∷ name) clock g = elim (lookup (c ∷ name) g.peers) [
    | none ↦ register_peer now (c ∷ name) clock g
    | some status ↦ record g {
      peers =
          insert (c ∷ name)
            (record status { vector_clock = merge status.vector_clock clock; last_seen = now })
            g.peers;
    }
  ]

  -- The source is noted behind a delta that was applied without an exception.
  abbrev noted_behind : ℕ → Opened → GossipProtocol S × Bool → GossipProtocol S
  noted_behind now o (g, true) = note_source now o.source o.message.delta.vector_clock g
  noted_behind now o (g, false) = g

  -- The gate, and behind it the delta and the source. `true` says that the gate let the request
  -- pass, also where the bridge raises behind it, and `false` is a `PermissionError`.
  unfoldable pub admit :
      {J : Type 0} → Codec → Wiring S J → ℕ → Opened → GossipProtocol S → GossipProtocol S × Bool
  unfolding apply_message note_source verify_envelope_signature
  admit c w now o g =
      let (noted, passed) = verify_envelope_signature c o.envelope o.source o.plain g in
      if passed
      then (noted_behind now o (apply_message w now o.message noted), true)
      else (noted, false)

  -- A request that cannot be opened raises and changes nothing.
  unfoldable pub process_opened :
      {J : Type 0}
      → Codec
      → Wiring S J
      → ℕ
      → Option Opened
      → GossipProtocol S
      → GossipProtocol S × Bool
  unfolding admit
  process_opened c w now none g = (g, false)
  process_opened c w now (some o) g = admit c w now o g

  unfoldable pub process_sync_response :
      {J : Type 0} → Codec → Wiring S J → ℕ → Str → GossipProtocol S → GossipProtocol S × Bool
  unfolding process_opened
  process_sync_response c w now request g = process_opened c w now (open_request c request) g

  -- The peers whose clock is concurrent with the own clock.
  unfoldable pub detect_conflicts : GossipProtocol S → List Str
  detect_conflicts g =
      let clock : VectorClock = elim g.bridge [ none ↦ g.crdt.clock | some b ↦ b.clock ] in
      map (λ e. e.0) (keep_if (λ e. concurrent clock e.1.vector_clock) g.peers)

  -- `create_sync_request`, with the default limit of an export; `audit_log` is the store's.
  unfoldable pub create_sync_request :
      (S → Option (List AuditRow))
      → Str
      → Option ℕ
      → GossipProtocol S
      → GossipProtocol S × SyncRequest
  create_sync_request audit_log target since_seq g = elim g.bridge [
    | none ↦
        let peer_clock : Option VectorClock = elim (lookup target g.peers) [
          | none ↦ none
          | some p ↦ some p.vector_clock
        ] in
        (
          g,
          record {
            source_node = g.local_node_id;
            target_node = target;
            aad = g.crdt.clock;
            content = sets (export_delta g.crdt peer_clock);
          },
        )
    | some b ↦
        let since : ℕ = elim since_seq [
          | none ↦ cursor_or (lookup target g.peer_cursors)
          | some n ↦ n
        ] in
        let (sender, page) =
          export_delta_from_audit since 200
            (record { node_id = b.node_id; clock = b.clock; audit_log = audit_log b.store }) in
        (
          record g {
            bridge = some (record b { clock = sender.clock });
            peer_cursors = insert target page.max_seq g.peer_cursors;
          },
          record {
            source_node = g.local_node_id;
            target_node = target;
            aad = sender.clock;
            content = audit page;
          },
        )
  ]
