-- ===== src/Pd/Catalog/Amend.antt =====
-- The updates of crates/aresadb-pd/src/catalog.rs that leave the spans alone: membership, lease and nodes.
use aresadb.Prelude.{
  ℕ, ◌≡◌, ◌≢◌, refl, ◌∙◌, Option, none, some, List, arith, Bool-cases, inl, inr, ◌⊎◌, ◌==◌, leb,
}
use aresadb.Ord.Nat.{nat_ord}
use aresadb.Ord.Bytes.{Bytes, bytes_ord}
use aresadb.Map
use aresadb.Map.{IsSorted}
use aresadb.Map.Laws.{get-insert}
use aresadb.Pd.Types.{
  RangeId, NodeId, NodeInfo, ReplicaPlacement, LeaseInfo, RangeDescriptor, contains,
  has_non_empty_span,
}
use aresadb.Pd.Catalog.State.{Catalog}
use aresadb.Pd.Catalog.Apply.{
  register_node, heartbeat_node, beat, update_membership, update_found, update_lease, lease_found,
}
use aresadb.Pd.Catalog.Valid.{IsValid, Holds}

module _ {c : Catalog} (v : IsValid c) (n : RangeId) (d d' : RangeDescriptor) (h : Holds c n d)
    (same_id : d'.range_id ≡ d.range_id) (same_start : d'.start_key ≡ d.start_key)
    (same_end : d'.end_key ≡ d.end_key) where
  amended : Catalog
  amended = record c { ranges = Map.insert n d' c.ranges }

  Holds-amended :
      (i : RangeId) (e : RangeDescriptor)
      → Holds amended i e
      → ((n ≡ i) × (d' ≡ e)) ⊎ ((n ≢ i) × Holds c i e)
  unfolding amended
  Holds-amended i e g = ground (arith, get-insert n i d' c.ranges)

  contains-amended : (key : Bytes) → contains d' key ≡ contains d key
  unfolding contains
  contains-amended key = ground (arith, same_start, same_end)

  span-amended : has_non_empty_span d' ≡ has_non_empty_span d
  unfolding has_non_empty_span
  span-amended = ground (arith, same_start, same_end)

  owned-amended :
      (s : Bytes) (i : RangeId)
      → Map.get s c.by_start ≡ some i
      → (e : RangeDescriptor) × (Map.get i amended.ranges ≡ some e) × (e.start_key ≡ s)
  owned-amended s i g =
      let (e, holds, starts) = v.owned s i g in
      elim (Bool-cases (n == i)) [
        | inl same ↦ (
          d',
          unfold amended in ground (arith, get-insert n i d' c.ranges),
          same_start ∙ ground (arith, starts),
        )
        | inr other ↦ (e, unfold amended in ground (arith, get-insert n i d' c.ranges), starts)
      ]

  -- A range may be given another descriptor with the same id and span.
  amend-IsValid : IsValid amended
  amend-IsValid = record {
    own_id = λ i e g. ground (arith, Holds-amended i e g, v.own_id i e, v.own_id n d h);
    non_empty = λ i e g.
        ground (arith, Holds-amended i e g, v.non_empty i e, v.non_empty n d h, span-amended);
    disjoint = λ i j e f key g k l m. ground (
      arith,
      Holds-amended i e g,
      Holds-amended j f k,
      contains-amended key,
      v.disjoint i j e f key,
      v.disjoint n j d f key h,
      v.disjoint i n e d key,
    );
    indexed = λ i e g.
        unfold amended in ground (arith, Holds-amended i e g, v.indexed i e, v.indexed n d h);
    owned = λ s i g. owned-amended s i (unfold amended in g);
    below =
        λ i e g. unfold amended in ground (arith, Holds-amended i e g, v.below i e, v.below n d h);
    fits = unfold amended in v.fits;
    sorted = unfold amended in v.sorted;
  }

nodes-IsValid :
    {c : Catalog} (v : IsValid c) (m : Map.BTreeMap NodeId NodeInfo)
    → IsValid (record c { nodes = m })
nodes-IsValid v m = record {
  own_id = v.own_id;
  non_empty = v.non_empty;
  disjoint = v.disjoint;
  indexed = v.indexed;
  owned = v.owned;
  below = v.below;
  fits = v.fits;
  sorted = v.sorted;
}

module _ (c : Catalog) (v : IsValid c) where
  pub register_node-IsValid : (info : NodeInfo) → IsValid (register_node c info)
  unfolding register_node
  register_node-IsValid info = nodes-IsValid v _

  beat-IsValid : (n : NodeId) (t : ℕ) (o : Option NodeInfo) → IsValid (beat c n t o).0
  beat-IsValid n t none = v
  beat-IsValid n t (some entry) = nodes-IsValid v _

  pub heartbeat_node-IsValid : (n : NodeId) (t : ℕ) → IsValid (heartbeat_node c n t).0
  unfolding heartbeat_node
  heartbeat_node-IsValid n t = beat-IsValid n t (Map.get n c.nodes)

  update_found-IsValid :
      (i : RangeId) (reps : List ReplicaPlacement) (epoch : ℕ) (o : Option RangeDescriptor)
      → Map.get i c.ranges ≡ o
      → IsValid (update_found c i reps epoch o).0
  update_found-IsValid i reps epoch none h = v
  update_found-IsValid i reps epoch (some d) h = elim (Bool-cases (leb epoch d.epoch)) [
    | inl e ↦ rw e v
    | inr e ↦ rw e (
        unfold amended in
        amend-IsValid v i d (record d { replicas = reps; epoch = epoch }) h refl refl refl)
  ]

  pub update_membership-IsValid :
      (i : RangeId) (reps : List ReplicaPlacement) (epoch : ℕ)
      → IsValid (update_membership c i reps epoch).0
  unfolding update_membership
  update_membership-IsValid i reps epoch =
      update_found-IsValid i reps epoch (Map.get i c.ranges) refl

  lease_found-IsValid :
      (i : RangeId) (lease : Option LeaseInfo) (o : Option RangeDescriptor)
      → Map.get i c.ranges ≡ o
      → IsValid (lease_found c i lease o).0
  lease_found-IsValid i lease none h = v
  lease_found-IsValid i lease (some d) h =
      unfold amended in amend-IsValid v i d (record d { lease = lease }) h refl refl refl

  pub update_lease-IsValid :
      (i : RangeId) (lease : Option LeaseInfo) → IsValid (update_lease c i lease).0
  unfolding update_lease
  update_lease-IsValid i lease = lease_found-IsValid i lease (Map.get i c.ranges) refl
