-- ===== src/Pd/Catalog/Apply.antt =====
-- The mutators of crates/aresadb-pd/src/catalog.rs and its command dispatch. Each takes the catalog
-- and gives the new one with its result.
use aresadb.Prelude.{ℕ, max, Bool, not, ◌&&◌, ◌||◌, Option, none, some, List, leb, if◌then◌else◌}
use aresadb.Ord.{lt?, eq?}
use aresadb.Ord.Nat.{nat_ord}
use aresadb.Ord.Bytes.{Bytes, bytes_ord}
use aresadb.Span.{is_empty}
use aresadb.Map
use aresadb.Map.{BTreeMap}
use aresadb.Pd.Types.{RangeId, NodeId, NodeInfo, RangeDescriptor, ReplicaPlacement, LeaseInfo, incr}
use aresadb.Pd.Error.{
  Result, ok, err, panicked, range_not_found, node_not_registered, split_key_out_of_bounds,
  not_adjacent, replica_set_mismatch, epoch_regression,
}
use aresadb.Pd.Command.{PdCommand, PdResponse, done, range}
use aresadb.Pd.Replicas.{replica_sets_equal}
use aresadb.Pd.Catalog.State.{Catalog, check_create, to_hex}

abbrev pub Update : Type 0 → Type 0
Update A = Catalog × Result A

abbrev pub with_heartbeat_of : NodeInfo → Option NodeInfo → NodeInfo
with_heartbeat_of info none = info
with_heartbeat_of info (some existing) = record info {
  last_heartbeat_millis = existing.last_heartbeat_millis;
}

unfoldable pub register_node : Catalog → NodeInfo → Catalog
register_node c info = record c {
  nodes = Map.insert info.node_id (with_heartbeat_of info (Map.get info.node_id c.nodes)) c.nodes;
}

abbrev pub beat : Catalog → NodeId → ℕ → Option NodeInfo → Update (Unit {0})
beat c node_id last_seen_millis none = (c, err (node_not_registered node_id))
beat c node_id last_seen_millis (some entry) = (
  record c {
    nodes =
        Map.insert node_id
          (record entry {
            last_heartbeat_millis = max last_seen_millis entry.last_heartbeat_millis;
          })
          c.nodes;
  },
  ok tt,
)

unfoldable pub heartbeat_node : Catalog → NodeId → ℕ → Update (Unit {0})
heartbeat_node c node_id last_seen_millis =
    beat c node_id last_seen_millis (Map.get node_id c.nodes)

-- What `create_range` does once its checks have passed.
unfoldable pub insert_range : Catalog → RangeDescriptor → Catalog
insert_range c desc = record c {
  by_start = Map.insert desc.start_key desc.range_id c.by_start;
  by_group = Map.insert desc.raft_group_id desc.range_id c.by_group;
  next_range_id = max c.next_range_id (incr desc.range_id);
  ranges = Map.insert desc.range_id desc c.ranges;
}

abbrev pub create_checked : Catalog → RangeDescriptor → Result (Unit {0}) → Update RangeDescriptor
create_checked c desc (ok u) = (insert_range c desc, ok desc)
create_checked c desc (err e) = (c, err e)
create_checked c desc panicked = (c, panicked)

unfoldable pub create_range : Catalog → RangeDescriptor → Update RangeDescriptor
create_range c desc = create_checked c desc (check_create c desc)

-- The right-hand side of a split, and what is left of the parent.
abbrev pub split_rhs : Catalog → RangeDescriptor → Bytes → RangeDescriptor
split_rhs c parent split_key = record {
  range_id = c.next_range_id;
  start_key = split_key;
  end_key = parent.end_key;
  replicas = parent.replicas;
  raft_group_id = c.next_range_id;
  epoch = parent.epoch;
  generation = incr parent.generation;
  lease = none;
}

abbrev pub split_lhs : RangeDescriptor → Bytes → RangeDescriptor
split_lhs parent split_key = record parent {
  end_key = split_key;
  generation = incr parent.generation;
  lease = none;
}

unfoldable pub split_state : Catalog → RangeId → RangeDescriptor → Bytes → Catalog
split_state c parent_range_id parent split_key =
    let rhs = split_rhs c parent split_key in
    record c {
      next_range_id = incr c.next_range_id;
      by_start = Map.insert rhs.start_key rhs.range_id c.by_start;
      by_group = Map.insert rhs.raft_group_id rhs.range_id c.by_group;
      ranges =
          Map.insert rhs.range_id rhs
            (Map.insert parent_range_id (split_lhs parent split_key) c.ranges);
    }

abbrev pub inside : RangeDescriptor → Bytes → Bool
inside parent split_key =
    lt? parent.start_key split_key && (is_empty parent.end_key || lt? split_key parent.end_key)

abbrev pub split_found : Catalog → RangeId → Bytes → Option RangeDescriptor → Update RangeDescriptor
split_found c parent_range_id split_key none = (c, err (range_not_found parent_range_id))
split_found c parent_range_id split_key (some parent) =
    if inside parent split_key
    then (split_state c parent_range_id parent split_key, ok (split_rhs c parent split_key))
    else (c, err (split_key_out_of_bounds parent_range_id (to_hex split_key)))

unfoldable pub split_range : Catalog → RangeId → Bytes → Update RangeDescriptor
split_range c parent_range_id split_key =
    split_found c parent_range_id split_key (Map.get parent_range_id c.ranges)

-- The right range is dropped from every index before the left one is looked up again.
unfoldable pub drop_range : Catalog → RangeId → RangeDescriptor → Catalog
drop_range c right right_desc = record c {
  by_start = Map.remove right_desc.start_key c.by_start;
  by_group = Map.remove right_desc.raft_group_id c.by_group;
  ranges = Map.remove right c.ranges;
}

abbrev pub merged : RangeDescriptor → RangeDescriptor → RangeDescriptor → RangeDescriptor
merged stored left_desc right_desc = record stored {
  end_key = right_desc.end_key;
  generation = incr (max left_desc.generation right_desc.generation);
  lease = none;
}

abbrev pub extend_left :
    Catalog
    → RangeId
    → RangeDescriptor
    → RangeDescriptor
    → Option RangeDescriptor
    → Update (Unit {0})
extend_left c left left_desc right_desc none = (c, panicked)
extend_left c left left_desc right_desc (some stored) =
    (record c { ranges = Map.insert left (merged stored left_desc right_desc) c.ranges }, ok tt)

unfoldable pub merge_found :
    Catalog → RangeId → RangeId → RangeDescriptor → RangeDescriptor → Update (Unit {0})
merge_found c left right left_desc right_desc =
    if not (eq? left_desc.end_key right_desc.start_key) || is_empty left_desc.end_key
    then (c, err (not_adjacent left right))
    else if not (replica_sets_equal left_desc.replicas right_desc.replicas)
    then (c, err (replica_set_mismatch left right))
    else (let c' = drop_range c right right_desc in
        extend_left c' left left_desc right_desc (Map.get left c'.ranges))

abbrev pub merge_right :
    Catalog → RangeId → RangeId → RangeDescriptor → Option RangeDescriptor → Update (Unit {0})
merge_right c left right left_desc none = (c, err (range_not_found right))
merge_right c left right left_desc (some right_desc) = merge_found c left right left_desc right_desc

abbrev pub merge_left : Catalog → RangeId → RangeId → Option RangeDescriptor → Update (Unit {0})
merge_left c left right none = (c, err (range_not_found left))
merge_left c left right (some left_desc) =
    merge_right c left right left_desc (Map.get right c.ranges)

unfoldable pub merge_ranges : Catalog → RangeId → RangeId → Update (Unit {0})
merge_ranges c left right = merge_left c left right (Map.get left c.ranges)

abbrev pub update_found :
    Catalog → RangeId → List ReplicaPlacement → ℕ → Option RangeDescriptor → Update (Unit {0})
update_found c range_id new_replicas new_epoch none = (c, err (range_not_found range_id))
update_found c range_id new_replicas new_epoch (some desc) =
    if leb new_epoch desc.epoch
    then (c, err (epoch_regression range_id desc.epoch new_epoch))
    else (
      record c {
        ranges =
            Map.insert range_id (record desc { replicas = new_replicas; epoch = new_epoch })
              c.ranges;
      },
      ok tt,
    )

unfoldable pub update_membership : Catalog → RangeId → List ReplicaPlacement → ℕ → Update (Unit {0})
update_membership c range_id new_replicas new_epoch =
    update_found c range_id new_replicas new_epoch (Map.get range_id c.ranges)

abbrev pub lease_found :
    Catalog → RangeId → Option LeaseInfo → Option RangeDescriptor → Update (Unit {0})
lease_found c range_id lease none = (c, err (range_not_found range_id))
lease_found c range_id lease (some desc) =
    (record c { ranges = Map.insert range_id (record desc { lease = lease }) c.ranges }, ok tt)

unfoldable pub update_lease : Catalog → RangeId → Option LeaseInfo → Update (Unit {0})
update_lease c range_id lease = lease_found c range_id lease (Map.get range_id c.ranges)

abbrev pub respond {ℓ} : {A : Type ℓ} → (A → PdResponse) → Result A → Result PdResponse
respond f (ok a) = ok (f a)
respond f (err e) = err e
respond f panicked = panicked

abbrev pub answer : {A : Type 0} → (A → PdResponse) → Update A → Update PdResponse
answer f u = (u.0, respond f u.1)

unfoldable pub apply : Catalog → PdCommand → Update PdResponse
apply c (PdCommand.register_node info) = (register_node c info, ok done)
apply c (PdCommand.heartbeat_node node_id last_seen_millis) =
    answer (λ _. done) (heartbeat_node c node_id last_seen_millis)
apply c (PdCommand.create_range desc) = answer range (create_range c desc)
apply c (PdCommand.split_range parent_range_id split_key) =
    answer range (split_range c parent_range_id split_key)
apply c (PdCommand.merge_ranges left right) = answer (λ _. done) (merge_ranges c left right)
apply c (PdCommand.update_membership range_id new_replicas new_epoch) =
    answer (λ _. done) (update_membership c range_id new_replicas new_epoch)
apply c (PdCommand.update_lease range_id lease) = answer (λ _. done) (update_lease c range_id lease)
