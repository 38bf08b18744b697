-- ===== src/Pd.antt =====
-- crates/aresadb-pd: the placement driver, which knows where each range of the keyspace lives.
pub mod Types
pub mod Error
pub mod Command
pub mod Replicas
pub mod Catalog
pub mod Persist
pub mod StateMachine
pub mod Raft
mod Tests
