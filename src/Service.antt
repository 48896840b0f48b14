-- ===== src/Service.antt =====
-- core/application/services/embedding_service.py: generation of embeddings.
pub mod Port
pub mod Generate
pub mod Backfill
pub mod Settled
pub mod Complete
pub mod Rerun
pub mod Counted
pub mod Semantic
pub mod Hybrid
pub mod Shown
pub mod Halves
pub mod Fallback
pub mod Status
pub mod Work
