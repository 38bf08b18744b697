-- ===== src/Cluster/Tests.antt =====
-- Runs of the reconciler and the theorems at concrete inputs.
use aresadb.Prelude.{◌≡◌, true, false, [], ◌∷◌}
use aresadb.Ord.Nat.{nat_ord}
use aresadb.Map
use aresadb.Pd.Types
use aresadb.Pd.Types.{RangeId, RangeDescriptor, ReplicaPlacement, ReplicaRole}
use aresadb.Cluster.Reconciler.{BTreeSet, plan_reconcile}
use aresadb.Cluster.Reconciler.Plan.{has_id, elem, plan_reconcile-to_add, plan_reconcile-to_remove}

abbrev on_node_3 : RangeId → RangeDescriptor
on_node_3 i =
    Types.new i [] [] (record { node_id = 3; store_id = 1; role = ReplicaRole.voter } ∷ [])

-- The default range 1 is skipped.
abbrev skip : BTreeSet RangeId
skip = (1, tt) ∷ []

plan_reconcile-to_add_example :
    has_id 5
      (plan_reconcile 3
        (on_node_3 5 ∷ on_node_3 2 ∷ [])
        (on_node_3 1 ∷ on_node_3 4 ∷ [])
        skip).to_add
    ≡ true
unfolding Map.contains_key Map.get
plan_reconcile-to_add_example =
    plan_reconcile-to_add 3 (on_node_3 5 ∷ on_node_3 2 ∷ []) (on_node_3 1 ∷ on_node_3 4 ∷ []) skip 5

plan_reconcile-to_remove_example :
    elem 1
      (plan_reconcile 3
        (on_node_3 5 ∷ on_node_3 2 ∷ [])
        (on_node_3 1 ∷ on_node_3 4 ∷ [])
        skip).to_remove
    ≡ false
unfolding Map.contains_key Map.get
plan_reconcile-to_remove_example =
    plan_reconcile-to_remove 3 (on_node_3 5 ∷ on_node_3 2 ∷ []) (on_node_3 1 ∷ on_node_3 4 ∷ [])
      skip 1
