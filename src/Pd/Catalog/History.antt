-- ===== src/Pd/Catalog/History.antt =====
-- What one command does to the counters of crates/aresadb-pd/src/catalog.rs, and what a rejected
-- command leaves behind.
use aresadb.Prelude.{◌≡◌, ◌≢◌, refl, Option, none, some, arith, Bool-cases, inl, inr}
use aresadb.Ord.Nat.{nat_ord}
use aresadb.Ord.Bytes.{Bytes, bytes_ord}
use aresadb.Map
use aresadb.Map.{IsSorted}
use aresadb.Pd.Types.{RangeId, RangeDescriptor, has_non_empty_span}
use aresadb.Pd.Error.{Result, ok, err, panicked, CatalogError}
use aresadb.Pd.Command.{PdCommand}
use aresadb.Pd.Catalog.State.{Catalog, check_create}
use aresadb.Pd.Catalog.Apply.{
  apply, heartbeat_node, create_range, create_checked, split_range, split_found, merge_ranges,
  merge_found, merge_left, merge_right, update_membership, update_lease,
}
use aresadb.Pd.Catalog.Valid.{IsValid}
use aresadb.Pd.Catalog.Create.{in_own_span}
use aresadb.Pd.Catalog.Merge.{merge_ranges-IsValid}
use aresadb.Pd.Catalog.Overlap.{find_overlap-exact}

create_checked-err :
    (c : Catalog) (d : RangeDescriptor) (r : Result (Unit {0})) (e : CatalogError)
    → (create_checked c d r).1 ≡ err e
    → (create_checked c d r).0 ≡ c
create_checked-err c d (ok u) e h = cc
create_checked-err c d (err x) e h = refl
create_checked-err c d panicked e h = refl

split_found-err :
    (c : Catalog) (p : RangeId) (key : Bytes) (o : Option RangeDescriptor) (e : CatalogError)
    → (split_found c p key o).1 ≡ err e
    → (split_found c p key o).0 ≡ c
split_found-err c p key none e h = refl
split_found-err c p key (some parent) e h = ground arith

merge_found-err :
    (c : Catalog) (i j : RangeId) (l r : RangeDescriptor) (e : CatalogError)
    → (merge_found c i j l r).1 ≡ err e
    → (merge_found c i j l r).0 ≡ c
unfolding merge_found
merge_found-err c i j l r e h = ground arith

merge_right-err :
    (c : Catalog) (i j : RangeId) (l : RangeDescriptor) (o : Option RangeDescriptor)
    (e : CatalogError)
    → (merge_right c i j l o).1 ≡ err e
    → (merge_right c i j l o).0 ≡ c
merge_right-err c i j l none e h = refl
merge_right-err c i j l (some r) e h = merge_found-err c i j l r e h

merge_left-err :
    (c : Catalog) (i j : RangeId) (o : Option RangeDescriptor) (e : CatalogError)
    → (merge_left c i j o).1 ≡ err e
    → (merge_left c i j o).0 ≡ c
merge_left-err c i j none e h = refl
merge_left-err c i j (some l) e h = merge_right-err c i j l (Map.get j c.ranges) e h

-- A rejected command leaves the catalog as it was.
pub apply-err :
    (c : Catalog) (cmd : PdCommand) (e : CatalogError)
    → (apply c cmd).1 ≡ err e
    → (apply c cmd).0 ≡ c
unfolding apply
apply-err c (PdCommand.register_node info) e h = cc
apply-err c (PdCommand.heartbeat_node n t) e h = unfold heartbeat_node in ground arith
apply-err c (PdCommand.create_range d) e h =
    unfold create_range in ground (arith, create_checked-err c d (check_create c d) e)
apply-err c (PdCommand.split_range p key) e h =
    unfold split_range in ground (arith, split_found-err c p key (Map.get p c.ranges) e)
apply-err c (PdCommand.merge_ranges i j) e h =
    unfold merge_ranges in ground (arith, merge_left-err c i j (Map.get i c.ranges) e)
apply-err c (PdCommand.update_membership i reps epoch) e h =
    unfold update_membership in ground arith
apply-err c (PdCommand.update_lease i lease) e h = unfold update_lease in ground arith

check_create-no_panic :
    (c : Catalog) (d : RangeDescriptor) → IsValid c → check_create c d ≢ panicked
unfolding check_create
check_create-no_panic c d v h = elim (Bool-cases (has_non_empty_span d)) [
  | inl e ↦ elim (find_overlap-exact v d.start_key d.end_key (in_own_span d e)) [
    | inl r ↦ ground arith
    | inr (i, r, o) ↦ ground arith
  ]
  | inr e ↦ ground arith
]

create_checked-panicked :
    (c : Catalog) (d : RangeDescriptor) (r : Result (Unit {0}))
    → r ≢ panicked
    → (create_checked c d r).1 ≢ panicked
create_checked-panicked c d (ok u) n h = cc
create_checked-panicked c d (err x) n h = cc
create_checked-panicked c d panicked n h = n refl

-- On a well-formed catalog no command panics: no index lookup and no `expect` fails.
pub apply-no_panic : (c : Catalog) (cmd : PdCommand) → IsValid c → (apply c cmd).1 ≢ panicked
unfolding apply
apply-no_panic c (PdCommand.register_node info) v h = cc
apply-no_panic c (PdCommand.heartbeat_node n t) v h = unfold heartbeat_node in ground arith
apply-no_panic c (PdCommand.create_range d) v h =
    unfold create_range in
    ground (arith, create_checked-panicked c d (check_create c d) (check_create-no_panic c d v))
apply-no_panic c (PdCommand.split_range p key) v h = unfold split_range in ground arith
apply-no_panic c (PdCommand.merge_ranges i j) v h = ground (arith, (merge_ranges-IsValid c v i j).1)
apply-no_panic c (PdCommand.update_membership i reps epoch) v h =
    unfold update_membership in ground arith
apply-no_panic c (PdCommand.update_lease i lease) v h = unfold update_lease in ground arith
