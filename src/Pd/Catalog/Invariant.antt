-- ===== src/Pd/Catalog/Invariant.antt =====
-- What holds of a catalog after any commands (crates/aresadb-pd/src/catalog.rs).
use aresadb.Prelude.{◌+◌, ◌<◌, List, [], ◌∷◌, arith}
use aresadb.Ord.Nat.{nat_ord}
use aresadb.Ord.Bytes.{bytes_ord}
use aresadb.Map
use aresadb.Map.{IsSorted}
use aresadb.Pd.Types.{u64_mod}
use aresadb.Pd.Command.{PdCommand}
use aresadb.Pd.Catalog.State.{Catalog, new}
use aresadb.Pd.Catalog.Apply.{apply}
use aresadb.Pd.Catalog.Valid.{IsValid}
use aresadb.Pd.Catalog.Create.{create_range-IsValid}
use aresadb.Pd.Catalog.Split.{split_range-IsValid}
use aresadb.Pd.Catalog.Merge.{merge_ranges-IsValid}
use aresadb.Pd.Catalog.Amend.{
  register_node-IsValid, heartbeat_node-IsValid, update_membership-IsValid, update_lease-IsValid,
}

-- The id counter has room for the command: what it counts past stays below the largest `u64`.
abbrev pub HasRoom : Catalog → PdCommand → Type 0
HasRoom c (PdCommand.create_range desc) = desc.range_id + 1 < u64_mod
HasRoom c (PdCommand.split_range p key) = c.next_range_id + 1 < u64_mod
HasRoom c _ = Unit

-- Every command, accepted or not, keeps a well-formed catalog well formed.
pub apply-IsValid :
    (c : Catalog) (cmd : PdCommand) → IsValid c → HasRoom c cmd → IsValid (apply c cmd).0
unfolding apply
apply-IsValid c (PdCommand.register_node info) v r = register_node-IsValid c v info
apply-IsValid c (PdCommand.heartbeat_node n t) v r = heartbeat_node-IsValid c v n t
apply-IsValid c (PdCommand.create_range desc) v r = create_range-IsValid c desc v r
apply-IsValid c (PdCommand.split_range p key) v r = split_range-IsValid c p key v r
apply-IsValid c (PdCommand.merge_ranges left right) v r = (merge_ranges-IsValid c v left right).0
apply-IsValid c (PdCommand.update_membership i reps epoch) v r =
    update_membership-IsValid c v i reps epoch
apply-IsValid c (PdCommand.update_lease i lease) v r = update_lease-IsValid c v i lease

pub new-IsValid : IsValid new
unfolding Map.get
new-IsValid = record {
  own_id = λ i d h. cc;
  non_empty = λ i d h. cc;
  disjoint = λ i j d e key h g k l. cc;
  indexed = λ i d h. cc;
  owned = λ s i h. absurd (cc h);
  below = λ i d h. absurd (cc h);
  fits = omega arith;
  sorted = tt;
}

-- The catalog after a log of commands, and room for each command when its turn comes.
abbrev pub run : Catalog → List PdCommand → Catalog
run c [] = c
run c (cmd ∷ log) = run (apply c cmd).0 log

abbrev pub LogHasRoom : Catalog → List PdCommand → Type 0
LogHasRoom c [] = Unit
LogHasRoom c (cmd ∷ log) = HasRoom c cmd × LogHasRoom (apply c cmd).0 log

-- Whatever log of commands is applied to a well-formed catalog, accepted and rejected ones in any
-- order, the catalog stays well formed: no two ranges share a key, each has one, and the index by
-- start keys is exact. Each command has room for its id when its turn comes.
pub run-IsValid :
    (c : Catalog) (log : List PdCommand) → IsValid c → LogHasRoom c log → IsValid (run c log)
run-IsValid c [] v r = v
run-IsValid c (cmd ∷ log) v r = run-IsValid (apply c cmd).0 log (apply-IsValid c cmd v r.0) r.1
