-- ===== src/Packing.antt =====
-- Packing of records into a token budget: `estimate_tokens` and `pack_knapsack_01` of
-- src/atlas_memory/cognitive/retrieval/render.py. The semantic deduplication in front and the rank
-- of a record without a score are parameters.
pub mod Records
pub mod Components
pub mod Greedy
pub mod Fresh
pub mod Partition
pub mod Filling
pub mod Rounds
pub mod Budget
mod Tests
