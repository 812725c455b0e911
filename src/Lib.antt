-- ===== src/Lib.antt =====
-- ATLAS, a memory for language-model agents (atlas_memory): the parts that decide what is
-- remembered, modelled and verified.
--
-- Prelude: Python's text as lists of code points, its dictionaries as association lists, tests.
-- Sync (src/atlas_memory/sync/crdt.py): replicas of an agent's memory exchange deltas.
--   Sync.Clock is CompactVectorClock, Sync.Lww is CompactLWWSet with the order of its metadata
--   (_crdt_meta_dominates), Sync.Delta is DeltaCRDT, which holds a clock and a set for each key.
-- Audit (src/atlas_memory/l2_semantic/repositories/audit_repository.py): the SHA-256 hash chain of
--   Sha256AuditLedgerRepository. Audit.Ledger has the tables and the writes (append_audit_log,
--   authorize_redaction, redact_audit_entry), Audit.Verify verify_audit_log, Audit.Heal
--   heal_audit_log_chain.
-- HotBuffer (src/atlas_memory/l1_working/hot_buffer.py): the L1 working memory. HotBuffer.Session
--   has the session rules, HotBuffer.Policy the methods of HotBufferPolicy.
-- Causal (src/atlas_memory/causal/retro_causal_edge.py): Causal.Graph is detect_cpof with its
--   get_reachable, Causal.Reach the invariant of the search, Causal.Search its termination,
--   Causal.Ranking the order of the reports, Causal.Cpof what they say.
-- Bridge (src/atlas_memory/sync/bridge.py): StateSyncBridge. Bridge.Export is
--   export_delta_from_audit, Bridge.Apply apply_remote_delta over an interface of the store and the
--   write path, whose calls may raise; Bridge.Cursor, Bridge.Stale and Bridge.Guard hold the proofs.
-- Gossip (src/atlas_memory/sync/protocol.py, peer_identity.py and epistemic_reputation.py):
--   Gossip.Peers has the registry of keys and the history of validations, Gossip.Protocol
--   GossipProtocol, which feeds a checked request to Sync.Delta or Bridge.Apply; Gossip.Gate and
--   Gossip.History hold the proofs.
-- Security (src/atlas_memory/security/delete_guard.py): is_delete_protected, next to the prefixes
--   that HotBuffer.Session keeps for all sessions.
-- Packing (src/atlas_memory/cognitive/retrieval/render.py): pack_knapsack_01, which packs records into
--   a token budget. Packing.Records has the candidates and their relations, Packing.Components the
--   search for connected components, Packing.Greedy the packing; Packing.Fresh and
--   Packing.Partition hold the proofs on the search, Packing.Filling, Packing.Rounds and
--   Packing.Budget those on the packing.
-- State (src/atlas_memory/l2_semantic/repositories/state_repository.py): SqliteStateRepository.
--   State.Table has the table, its full-text table with the triggers, and the writes (set_state,
--   delete_state, purge_stale_probe_keys, init_schema), State.Reading the reads of keys
--   (row_to_state_dict, get_state, get_states, get_all, get_recent, filter_existing_keys),
--   State.Query the searches (search_candidates, get_arbitration_candidates); State.Mirror,
--   State.Changes, State.Purge, State.Access, State.Round, State.Existing, State.Pages and
--   State.Limits hold the proofs. A statement of SQL is written out as what it does to the rows.
-- Graph (src/atlas_memory/l2_semantic/kuzu/ram_multigraph.py): the graph in memory and its
--   hydration. Graph.Paging is _hydrate_paged, Graph.Hydrate the stages for entities and relations of
--   hydrate_from_disk_sync, Graph.Multigraph is AtlasMultiDiGraph; Graph.Scan, Graph.Merge,
--   Graph.Twice and Graph.Index hold the proofs.
-- Arbiter (src/atlas_memory/cognitive/conflict_arbiter.py and lexicon.py): ConflictArbiter, which
--   compares a write with the stored facts. Arbiter.Lexicon has the word lists and the stemmer,
--   Arbiter.Coordinate EpistemicCoordinate, Arbiter.Kernel EpistemicDecisionKernel, Arbiter.Profile
--   the profiles and the guards, Arbiter.Detect the detectors and the score, Arbiter.Candidate and
--   Arbiter.Scan generate_candidates, Arbiter.Arbitrate arbitrate; the other modules hold the proofs.
--   Its items are those that State.Query.get_arbitration_candidates selects.
-- Shadow (src/atlas_memory/active/shadow_worker.py, shadow_reconcile of orchestrator.py, and
--   MemoryRecord of core/models.py): facts are extracted from the turns of a conversation.
--   Shadow.Record has the record, Shadow.Reconcile shadow_reconcile, which asks Arbiter.Arbitrate,
--   Shadow.Worker OmniRouteShadowWorker, Shadow.Steps its interleavings; Shadow.Provenance,
--   Shadow.Fitting, Shadow.Drain and Shadow.Retry hold the proofs.
-- Trajectory (src/atlas_memory/l1_working/trajectory_buffer.py): ArrowTrajectoryBuffer.
--   Trajectory.Buffer has the columns and the methods that write them, Trajectory.Views the batches
--   and the trajectories of the sessions; Trajectory.Growth, Trajectory.Aligned,
--   Trajectory.Streaming and Trajectory.Sessions hold the proofs.
-- Session (src/atlas_memory/l1_working/session_tracker.py): HermesSessionHook. Session.Hook has its
--   state and methods, Session.Repeat the proof; the keys of the hot buffer come from HotBuffer's
--   entries, the sessions of trajectories from Trajectory's.
--
-- Bounds and numbers. The loops run over lists that are given, except `while queue` of
-- pack_knapsack_01, whose fuel is one more than the number of candidates, since each is queued at
-- most once (Packing.Partition proves it enough), the loop over chunks of filter_existing_keys,
-- whose fuel is the number of keys (State.Existing), the scan of _hydrate_paged, which halves its
-- page and so ends in as many attempts as there are rows and units of the first page size
-- (Graph.Scan), the loop of process_all_pending, whose fuel is more than the turns that wait or
-- arrive while it runs (Shadow.Drain proves it enough), and `while stack` of get_reachable: its fuel is the number of relations and two,
-- one round for the root, one for each node that a relation can add, one to see the empty stack
-- (Causal.Search proves it enough). Floats are natural numbers of billionths: none of the values
-- is negative where they are compared, and a comparison with a difference is written with a sum.
-- A product of two is rounded down, and exact in Bridge. A reward is a gain less a loss, and the
-- loop over a range of Trajectory.Views has the number of steps as its fuel. The scores of
-- Arbiter are counted from forty below zero, the lowest that there is. Locks are left out where a
-- method runs whole under its lock. Times are arguments.
--
-- Parameters. The key-value store, the write path and JSON (Bridge.Apply), JSON, decryption and
-- Ed25519 (Gossip.Protocol), SHA-256 and the printing of numbers (Audit.Hashing), Unicode lower
-- case and digits (HotBuffer.Session), semantic deduplication and ranking (Packing.Records),
-- LIKE, LOWER and MATCH of SQLite, JSON and the normalisation of stored text (State), the disk
-- engine, networkx and is_valid_graph_entity (Graph), lower case, the tokenizers, the developer
-- tools and is_entity_critical (Arbiter), the model and the reading of its answers, the fall-back
-- rules, the canonicalizer, the test of a first word, the client and the engine (Shadow), numpy's
-- assignment of a row and the reading of metadata (Trajectory). What is relied on of them is a
-- hypothesis of the theorem that needs it.
--
-- Not modelled: serialisation to JSON, SQL migrations, encryption and transport, the servers and
-- plugins, and the floating-point scoring, encoding and learning layers.
mod Prelude
pub mod Sync
pub mod Audit
pub mod HotBuffer
pub mod Causal
pub mod Bridge
pub mod Gossip
pub mod Security
pub mod State
pub mod Arbiter
pub mod Shadow
pub mod Trajectory
pub mod Session
pub mod Packing
pub mod Graph
