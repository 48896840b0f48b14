-- ===== src/Search.antt =====
-- Keyword search: the ranked search methods of sqlite_store.py and the keyword path of
-- core/application/use_cases/search_memory.py.
pub mod Words
pub mod Ranked
pub mod Fetch
pub mod Scored
pub mod Keyword
