-- ===== src/Storage.antt =====
-- Storage of crates/temnion-storage: reference holds and retention policies of src/lifecycle.rs.
pub mod Lifecycle
pub mod Candidates
pub mod Reclaim
mod Tests
