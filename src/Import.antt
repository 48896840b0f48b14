-- ===== src/Import.antt =====
-- core/application/use_cases/import_memory.py.
pub mod Validate
pub mod Apply
pub mod Sound
pub mod Rows
pub mod Counting
pub mod Loops
pub mod Union
