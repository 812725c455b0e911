-- ===== src/Arbiter.antt =====
-- Belief arbitration: cognitive/conflict_arbiter.py and cognitive/lexicon.py of src/atlas_memory.
pub mod Lexicon
pub mod Coordinate
pub mod Kernel
pub mod Profile
pub mod Detect
pub mod Candidate
pub mod Scan
pub mod Arbitrate
mod Semantic
pub mod Ranking
mod Justified
pub mod Safety
pub mod Established
pub mod Fatigue
mod Tests
