-- ===== src/Distributed.antt =====
-- src/distributed: what version 1 uses to spread its data, here the Bloom filter.
pub mod Bloom
mod Tests
