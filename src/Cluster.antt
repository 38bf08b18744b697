-- ===== src/Cluster.antt =====
-- crates/aresadb-cluster: a node that runs many ranges.
pub mod Reconciler
mod Tests
