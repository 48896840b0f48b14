-- ===== src/Export.antt =====
-- core/application/use_cases/export_memory.py.
pub mod Build
pub mod Checked
pub mod Rows
pub mod RoundTrip
