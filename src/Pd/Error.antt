-- ===== src/Pd/Error.antt =====
-- crates/aresadb-pd/src/error.rs, and what a catalog operation returns: a result, or a panic of an
-- index or an `expect`. Rendered keys are texts of ASCII codes.
use aresadb.Prelude.{ℕ}
use aresadb.Ord.Bytes.{Bytes}
use aresadb.Pd.Types.{RangeId, NodeId, GroupId, StoreId}

pub data CatalogError : Type 0 where
  range_already_exists : RangeId → CatalogError
  range_not_found : RangeId → CatalogError
  node_not_registered : NodeId → CatalogError
  group_id_in_use : GroupId → RangeId → CatalogError
  overlapping_range : Bytes → Bytes → RangeId → CatalogError
  invalid_span : CatalogError
  split_key_out_of_bounds : RangeId → Bytes → CatalogError
  epoch_regression : RangeId → ℕ → ℕ → CatalogError
  not_adjacent : RangeId → RangeId → CatalogError
  replica_set_mismatch : RangeId → RangeId → CatalogError
  unknown_store : StoreId → CatalogError

pub data Result {ℓ} (A : Type ℓ) : Type ℓ where
  ok : A → Result A
  err : CatalogError → Result A
  panicked : Result A

infixl 5 ◌>>=◌ ◌>>◌
abbrev pub ◌>>=◌ {ℓ κ} : {A : Type ℓ} {B : Type κ} → Result A → (A → Result B) → Result B
ok a >>= f = f a
err e >>= f = err e
panicked >>= f = panicked

abbrev pub ◌>>◌ {ℓ} : {B : Type ℓ} → Result (Unit {0}) → Result B → Result B
m >> k = m >>= λ _. k
