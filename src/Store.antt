-- ===== src/Store.antt =====
-- core/infrastructure/persistence/sqlite_store.py.
pub mod Conn
pub mod Transaction
pub mod Keeps
pub mod Projects
pub mod Memory
pub mod Embedding
pub mod Valid
pub mod Writes
pub mod Deletes
pub mod Calls
pub mod Laws
pub mod Removal
pub mod Contents
pub mod Refines
