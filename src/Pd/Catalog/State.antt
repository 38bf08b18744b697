-- ===== src/Pd/Catalog/State.antt =====
-- The state of crates/aresadb-pd/src/catalog.rs, its reads, and the checks of `create_range`.
use aresadb.Prelude.{
  ℕ, ◌+◌, ◌/◌, ◌%◌, not, ◌||◌, Option, none, some, List, [], ◌∷◌, ◌==◌, ltb, length, if◌then◌else◌,
}
use aresadb.Ord.{lt?}
use aresadb.Ord.Nat.{nat_ord}
use aresadb.Ord.Bytes.{Bytes, bytes_ord}
use aresadb.Span.{is_empty}
use aresadb.Map
use aresadb.Map.{BTreeMap}
use aresadb.Map.Neighbours.{floor, above}
use aresadb.Pd.Types.{
  RangeId, GroupId, NodeId, NodeInfo, RangeDescriptor, contains, has_non_empty_span,
}
use aresadb.Pd.Error.{
  Result, ok, err, panicked, ◌>>=◌, ◌>>◌, invalid_span, range_already_exists, group_id_in_use,
  overlapping_range,
}

pub record Catalog : Type 0 where
  pub ranges : BTreeMap RangeId RangeDescriptor
  pub by_start : BTreeMap Bytes RangeId
  pub by_group : BTreeMap GroupId RangeId
  pub nodes : BTreeMap NodeId NodeInfo
  pub next_range_id : RangeId

abbrev pub new : Catalog
new = record { ranges = []; by_start = []; by_group = []; nodes = []; next_range_id = 1 }

unfoldable pub get_range : Catalog → RangeId → Option RangeDescriptor
get_range c range_id = Map.get range_id c.ranges

unfoldable pub get_node : Catalog → NodeId → Option NodeInfo
get_node c node_id = Map.get node_id c.nodes

unfoldable pub iter_ranges : Catalog → List RangeDescriptor
iter_ranges c = Map.values c.ranges

-- `expect` panics where the index by start keys names an id without a range.
abbrev pub ranges_at :
    BTreeMap RangeId RangeDescriptor → List RangeId → Result (List RangeDescriptor)
ranges_at ranges [] = ok []
ranges_at ranges (id ∷ ids) = do
  desc ← elim (Map.get id ranges) [ none ↦ panicked | some d ↦ ok d ]
  descs ← ranges_at ranges ids
  ok (desc ∷ descs)

unfoldable pub iter_ranges_by_start : Catalog → Result (List RangeDescriptor)
unfolding Map.values
iter_ranges_by_start c = ranges_at c.ranges (Map.values c.by_start)

unfoldable pub iter_nodes : Catalog → List NodeInfo
iter_nodes c = Map.values c.nodes

unfoldable pub peek_next_range_id : Catalog → RangeId
peek_next_range_id c = c.next_range_id

unfoldable pub range_count : Catalog → ℕ
range_count c = length c.ranges

abbrev pub if_contains : Bytes → Option RangeDescriptor → Option RangeDescriptor
if_contains key none = none
if_contains key (some candidate) = if contains candidate key then some candidate else none

abbrev pub candidate_at : Catalog → Bytes → Option (Bytes × RangeId) → Option RangeDescriptor
candidate_at c key none = none
candidate_at c key (some (start, range_id)) = if_contains key (Map.get range_id c.ranges)

unfoldable pub find_range_for_key : Catalog → Bytes → Option RangeDescriptor
find_range_for_key c key = candidate_at c key (floor key c.by_start)

abbrev hex_digit : ℕ → ℕ
hex_digit n = if ltb n 10 then b'0' + n else 87 + n

abbrev hex_digits : Bytes → Bytes
hex_digits [] = []
hex_digits (b ∷ bytes) = hex_digit (b / 16) ∷ hex_digit (b % 16) ∷ hex_digits bytes

unfoldable pub to_hex : Bytes → Bytes
to_hex bytes = b'0' ∷ b'x' ∷ hex_digits bytes

unfoldable pub end_hex : Bytes → Bytes
unfolding to_hex
end_hex bytes = if is_empty bytes then b'+' ∷ b'i' ∷ b'n' ∷ b'f' ∷ [] else to_hex bytes

-- The range at or before the start: `self.ranges[pred_id]` panics if the index names no range.
abbrev pub pred_covers : RangeId → Bytes → Option RangeDescriptor → Result (Option RangeId)
pred_covers pred_id start none = panicked
pred_covers pred_id start (some pred) =
    if is_empty pred.end_key || lt? start pred.end_key then ok (some pred_id) else ok none

abbrev pub pred_conflict : Catalog → Bytes → Option (Bytes × RangeId) → Result (Option RangeId)
pred_conflict c start none = ok none
pred_conflict c start (some (pred_start, pred_id)) =
    pred_covers pred_id start (Map.get pred_id c.ranges)

abbrev pub suc_conflict : Bytes → Option (Bytes × RangeId) → Option RangeId
suc_conflict end none = none
suc_conflict end (some (suc_start, suc_id)) =
    if is_empty end || lt? suc_start end then some suc_id else none

abbrev pub or_else : Option RangeId → Option RangeId → Option RangeId
or_else (some id) other = some id
or_else none other = other

unfoldable pub find_overlap : Catalog → Bytes → Bytes → Result (Option RangeId)
find_overlap c start end = do
  pred ← pred_conflict c start (floor start c.by_start)
  ok (or_else pred (suc_conflict end (above start c.by_start)))

abbrev pub check_group : RangeDescriptor → Option RangeId → Result (Unit {0})
check_group desc none = ok tt
check_group desc (some owner) =
    if owner == desc.range_id then ok tt else err (group_id_in_use desc.raft_group_id owner)

abbrev pub check_overlap : RangeDescriptor → Option RangeId → Result (Unit {0})
check_overlap desc none = ok tt
check_overlap desc (some conflict) =
    err (overlapping_range (to_hex desc.start_key) (end_hex desc.end_key) conflict)

-- The early returns of `create_range`, in order.
unfoldable pub check_create : Catalog → RangeDescriptor → Result (Unit {0})
check_create c desc =
    if not (has_non_empty_span desc)
    then err invalid_span
    else if Map.contains_key desc.range_id c.ranges
    then err (range_already_exists desc.range_id)
    else do
      check_group desc (Map.get desc.raft_group_id c.by_group)
      conflict ← find_overlap c desc.start_key desc.end_key
      check_overlap desc conflict
