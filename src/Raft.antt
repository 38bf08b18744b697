-- ===== src/Raft.antt =====
-- crates/aresadb-raft: the log and the replicated state machine behind openraft.
pub mod Error
pub mod LogStore
pub mod Command
pub mod StateMachine
mod Tests
