-- ===== src/Core.antt =====
-- crates/aresadb-core: the contract of a storage engine, the reference engine and the keyspace.
pub mod KeyRange
pub mod Error
pub mod WriteBatch
pub mod Memory
pub mod Keys
mod Tests
