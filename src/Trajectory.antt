-- ===== src/Trajectory.antt =====
-- The trajectory buffer: ArrowTrajectoryBuffer of l1_working/trajectory_buffer.py of
-- src/atlas_memory.
pub mod Buffer
pub mod Views
pub mod Growth
pub mod Aligned
pub mod Streaming
pub mod Sessions
mod Tests
