-- ===== src/Mesh.antt =====
-- internal/mesh
pub mod Blackboard
pub mod ProjectBoards
pub mod Router
pub mod Tracker
mod Tests
mod RouterTests
mod TrackerTests
