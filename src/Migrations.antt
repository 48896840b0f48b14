-- ===== src/Migrations.antt =====
-- core/infrastructure/persistence/migrator.py.
pub mod Script
pub mod Apply
pub mod Whole
pub mod Due
pub mod Resume
