-- ===== src/Pd/Replicas.antt =====
-- `replica_sets_equal` of crates/aresadb-pd/src/catalog.rs: two replica lists as multisets.
use aresadb.Prelude.{ℕ, Bool, true, false, ◌&&◌, List, [], ◌∷◌, ◌==◌, length, if◌then◌else◌}
use aresadb.Ord.{le?}
use aresadb.Ord.Bytes.{bytes_ord}
use aresadb.Pd.Types.{ReplicaRole, voter, learner, ReplicaPlacement}

-- `role as u8 as u64`
abbrev pub role_code : ReplicaRole → ℕ
role_code voter = 0
role_code learner = 1

-- The sort key `(node_id, store_id, role)`: such tuples compare as lists of their parts do.
abbrev pub sort_key : ReplicaPlacement → List ℕ
sort_key r = r.node_id ∷ r.store_id ∷ role_code r.role ∷ []

-- The derived `==` of placements.
abbrev pub eq_placement : ReplicaPlacement → ReplicaPlacement → Bool
eq_placement a b =
    a.node_id == b.node_id && (a.store_id == b.store_id && role_code a.role == role_code b.role)

abbrev pub eq_placements : List ReplicaPlacement → List ReplicaPlacement → Bool
eq_placements [] [] = true
eq_placements (a ∷ as') (b ∷ bs) = eq_placement a b && eq_placements as' bs
eq_placements _ _ = false

-- `sort_by_key`, which is stable: an element goes before the first one that its key does not pass.
unfoldable pub insert_sorted : ReplicaPlacement → List ReplicaPlacement → List ReplicaPlacement
insert_sorted a [] = a ∷ []
insert_sorted a (b ∷ bs) =
    if le? (sort_key a) (sort_key b) then a ∷ b ∷ bs else b ∷ insert_sorted a bs

unfoldable pub sort_by_key : List ReplicaPlacement → List ReplicaPlacement
unfolding insert_sorted
sort_by_key [] = []
sort_by_key (a ∷ as') = insert_sorted a (sort_by_key as')

unfoldable pub replica_sets_equal : List ReplicaPlacement → List ReplicaPlacement → Bool
unfolding sort_by_key
replica_sets_equal a b =
    if length a == length b then eq_placements (sort_by_key a) (sort_by_key b) else false
