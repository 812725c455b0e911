-- ===== src/Causal.antt =====
-- Critical points of failure: `detect_cpof` of src/atlas_memory/causal/retro_causal_edge.py, on the
-- relations that `_fetch_subgraph` returned. A set is the list of its elements in the order in
-- which they were added; the order of iteration over a set is not specified.
pub mod Graph
pub mod Reach
pub mod Search
pub mod Ranking
pub mod Cpof
mod Tests
