-- ===== src/Maintenance.antt =====
-- core/application/services/maintenance_loop.py.
pub mod Jobs
pub mod Loop
pub mod Exclusion
pub mod Counters
pub mod Config
pub mod Loaded
