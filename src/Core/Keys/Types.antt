-- ===== src/Core/Keys/Types.antt =====
-- The types of crates/aresadb-core/src/keys.rs.
use aresadb.Prelude.{ℕ}
use aresadb.Ord.Bytes.{Bytes}

pub data Key : Type 0 where
  metadata : Bytes → Key
  node : Bytes → Key
  node_index : Bytes → Key
  edge : Bytes → Key
  edge_from : Bytes → Bytes → Key
  edge_to : Bytes → Bytes → Key
  property_index : Bytes → Bytes → Bytes → Bytes → Key
  fulltext_index : Bytes → Bytes → Bytes → Bytes → Key
  vector_index : Bytes → Bytes → Bytes → Key
  schema : Bytes → Key
  transaction : Bytes → Key

-- The regions of the keyspace, one for each constant of `prefix`.
pub data Kind : Type 0 where
  metadata node node_index edge edge_from edge_to property_index fulltext_index vector_index schema
        transaction :
      Kind

pub data DecodeError : Type 0 where
  too_short : ℕ → DecodeError
  unknown_prefix : Bytes → DecodeError
  missing_terminator : ℕ → DecodeError
  malformed_escape : ℕ → ℕ → DecodeError

-- A result, or a failed `expect`.
pub data Decoded {ℓ} (A : Type ℓ) : Type ℓ where
  ok : A → Decoded A
  err : DecodeError → Decoded A
  panicked : Decoded A

infixl 5 ◌>>=◌
abbrev pub ◌>>=◌ {ℓ κ} : {A : Type ℓ} {B : Type κ} → Decoded A → (A → Decoded B) → Decoded B
ok a >>= f = f a
err e >>= f = err e
panicked >>= f = panicked
