-- ===== src/Graph.antt =====
-- The graph in memory and its hydration from disk: AtlasMultiDiGraph and KuzuRamHydrationMixin of
-- src/atlas_memory/l2_semantic/kuzu/ram_multigraph.py. The disk engine and networkx are parameters.
pub mod Paging
pub mod Scan
pub mod Hydrate
pub mod Merge
pub mod Twice
pub mod Multigraph
pub mod Index
mod Tests
mod MultigraphTests
