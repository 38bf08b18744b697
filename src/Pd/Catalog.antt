-- ===== src/Pd/Catalog.antt =====
-- crates/aresadb-pd/src/catalog.rs: the catalog of ranges and nodes, its reads and its checks. The
-- operations that change it are in `Apply`; the other children hold the proofs.
pub mod State
pub mod Apply
pub mod Load
pub mod Valid
pub mod Lookup
pub mod Overlap
pub mod Create
pub mod Split
pub mod Merge
pub mod Routes
pub mod Amend
pub mod Invariant
pub mod History
pub mod Groups
pub mod Counters
pub mod Epochs
pub mod Heartbeats
pub use State.{Catalog, new}
