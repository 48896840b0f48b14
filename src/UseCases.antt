-- ===== src/UseCases.antt =====
-- core/application/use_cases: the guards around the store.
pub mod Memories
pub mod Projects
pub mod Vectors
pub mod Batch
pub mod Search
pub mod Answers
pub mod Stats
pub mod Histograms
