-- ===== src/Gossip.antt =====
-- The gossip protocol and what it knows of its peers: src/atlas_memory/sync/protocol.py,
-- peer_identity.py and epistemic_reputation.py beside it.
pub mod Peers
pub mod History
pub mod Protocol
pub mod Gate
mod Tests
