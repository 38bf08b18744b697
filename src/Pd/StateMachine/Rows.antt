-- ===== src/Pd/StateMachine/Rows.antt =====
-- The rows that each accepted command writes (crates/aresadb-pd/src/state_machine.rs).
use aresadb.Prelude.{
  ℕ, ◌+◌, ◌<◌, ◌≡◌, refl, sym, ap, ◌∙◌, subst, Option, none, some, List, [], ◌∷◌, ◌++◌, true,
  Option-cases, inl, inr, arith,
}
use aresadb.Ord.Nat.{nat_ord}
use aresadb.Ord.Bytes.{Bytes, bytes_ord}
use aresadb.Map
use aresadb.Map.{BTreeMap}
use aresadb.Map.Laws.{get-insert, get-remove}
use aresadb.Core.WriteBatch
use aresadb.Core.WriteBatch.{WriteBatch}
use aresadb.Core.WriteBatch.Op.{WriteOp}
use aresadb.Core.Memory.{Data, write_ops, write_op}
use aresadb.Pd.Types.{RangeId, NodeInfo, RangeDescriptor, ReplicaPlacement, LeaseInfo, u64_mod}
use aresadb.Pd.Catalog.State.{Catalog, get_range}
use aresadb.Pd.Catalog.Apply
use aresadb.Pd.Catalog.Valid.{IsValid, Holds}
use aresadb.Pd.Catalog.Split.{get-split}
use aresadb.Pd.Catalog.Merge.{merged_state, Adjacent, get-merged_state, two_ranges}
use aresadb.Pd.Catalog.Apply.{merged}
use aresadb.Pd.Error.{Result}
use aresadb.Pd.Persist.{range_key, node_key}
use aresadb.Pd.StateMachine.{
  from_bincode, Applied, ok, err, panicked, ◌>>=◌, Bincode, expect, put_range, put_node,
}
use aresadb.Pd.StateMachine.Mirror.{
  Mirrors, insert-Mirrors, insert-other-Mirrors, eq?-node_key, eq?-range_key,
}

-- A chain that gives a result has one from each step.
pub bind_ok {ℓ κ} :
    {A : Type ℓ} {B : Type κ} (r : Applied A) (f : A → Applied B) (x : B)
    → (r >>= f) ≡ ok x
    → (a : A) × (r ≡ ok a) × (f a ≡ ok x)
bind_ok (ok a) f x h = (a, refl, h)
bind_ok (err e) f x h = absurd (cc h)
bind_ok panicked f x h = absurd (cc h)

expect_ok {ℓ} : {A : Type ℓ} (o : Option A) (a : A) → expect o ≡ ok a → o ≡ some a
expect_ok none a h = absurd (cc h)
expect_ok (some x) a h = ground arith

serialized :
    (o : Option Bytes) (f : Bytes → WriteBatch) (out : WriteBatch)
    → (from_bincode o >>= λ v. ok (f v)) ≡ ok out
    → (v : Bytes) × (o ≡ some v) × (out ≡ f v)
serialized none f out h = absurd (cc h)
serialized (some v) f out h = (v, refl, ground arith)

module _ (b : Bincode) where
  pub put_range-ops :
      (batch out : WriteBatch) (d : RangeDescriptor)
      → put_range b batch d ≡ ok out
      → (v : Bytes) × (b.serialize_range d ≡ some v)
        × (out ≡ record { ops = batch.ops ++ WriteOp.put (range_key d.range_id) v ∷ [] })
  unfolding put_range WriteBatch.put WriteBatch.push
  put_range-ops batch out d h =
      serialized (b.serialize_range d) (λ v. WriteBatch.put batch (range_key d.range_id) v) out h

  pub put_node-ops :
      (batch out : WriteBatch) (info : NodeInfo)
      → put_node b batch info ≡ ok out
      → (v : Bytes) × (b.serialize_node info ≡ some v)
        × (out ≡ record { ops = batch.ops ++ WriteOp.put (node_key info.node_id) v ∷ [] })
  unfolding put_node WriteBatch.put WriteBatch.push
  put_node-ops batch out info h =
      serialized (b.serialize_node info) (λ v. WriteBatch.put batch (node_key info.node_id) v) out h

  pub put_node-Mirrors :
      (o : Option NodeInfo) (batch : WriteBatch) (m : Data)
      (ranges : BTreeMap RangeId RangeDescriptor)
      → (expect o >>= λ info. put_node b WriteBatch.new info) ≡ ok batch
      → Mirrors b m ranges
      → Mirrors b (write_ops batch.ops m).0 ranges
  unfolding write_ops write_op
  put_node-Mirrors none batch m ranges h k = absurd (cc h)
  put_node-Mirrors (some info) batch m ranges h k =
      let (v, s, e) = put_node-ops WriteBatch.new batch info h in
      rw e (insert-other-Mirrors b m ranges (node_key info.node_id) v (eq?-node_key info.node_id) k)

  pub put_range-Mirrors :
      (d : RangeDescriptor) (batch : WriteBatch) (m : Data)
      (ranges : BTreeMap RangeId RangeDescriptor)
      → put_range b WriteBatch.new d ≡ ok batch
      → d.range_id < u64_mod
      → Mirrors b m ranges
      → Mirrors b (write_ops batch.ops m).0 (Map.insert d.range_id d ranges)
  unfolding write_ops write_op
  put_range-Mirrors d batch m ranges h u k =
      let (v, s, e) = put_range-ops WriteBatch.new batch d h in
      rw e (insert-Mirrors b m ranges d.range_id d v u s k)

  -- A command that puts `d` in the place of the range `i`.
  amend-Mirrors :
      (c c' : Catalog) (i : RangeId) (d : RangeDescriptor) (batch : WriteBatch) (m : Data)
      → c'.ranges ≡ Map.insert i d c.ranges
      → d.range_id ≡ i
      → i < u64_mod
      → (expect (get_range c' i) >>= λ d. put_range b WriteBatch.new d) ≡ ok batch
      → Mirrors b m c.ranges
      → Mirrors b (write_ops batch.ops m).0 c'.ranges
  amend-Mirrors c c' i d batch m after own u h k =
      let stored : get_range c' i ≡ some d =
        unfold get_range in ground (arith, after, get-insert i i d c.ranges) in
      let made : put_range b WriteBatch.new d ≡ ok batch = rw stored at h in
      subst (λ r. Mirrors b (write_ops batch.ops m).0 r)
        (ap (λ j. Map.insert j d c.ranges) own ∙ sym after)
        (put_range-Mirrors d batch m c.ranges made (rw own u) k)

  pub split-Mirrors :
      (c : Catalog) (p : RangeId) (parent : RangeDescriptor) (key : Bytes) (batch : WriteBatch)
      (m : Data)
      → IsValid c
      → c.next_range_id + 1 < u64_mod
      → Holds c p parent
      → Apply.inside parent key ≡ true
      → (expect (get_range (Apply.split_state c p parent key) p) >>= λ l.
          put_range b WriteBatch.new l >>= λ batch.
          put_range b batch (Apply.split_rhs c parent key))
        ≡ ok batch
      → Mirrors b m c.ranges
      → Mirrors b (write_ops batch.ops m).0 (Apply.split_state c p parent key).ranges
  unfolding write_ops write_op
  split-Mirrors c p parent key batch m v room hp ins h k =
      let lhs = Apply.split_lhs parent key in
      let rhs = Apply.split_rhs c parent key in
      let stored : get_range (Apply.split_state c p parent key) p ≡ some lhs =
        unfold get_range in
        ground (arith, get-split v p parent key hp ins room p, v.below p parent hp) in
      let both : (put_range b WriteBatch.new lhs >>= λ batch. put_range b batch rhs) ≡ ok batch =
        rw stored at h in
      let (first, l, r) =
        bind_ok (put_range b WriteBatch.new lhs) (λ batch. put_range b batch rhs) batch both in
      let (x, sx, ex) = put_range-ops WriteBatch.new first lhs l in
      let (y, sy, ey) = put_range-ops first batch rhs r in
      let own : parent.range_id ≡ p = v.own_id p parent hp in
      let left_row : Mirrors b (Map.insert (range_key parent.range_id) x m)
          (Map.insert p lhs c.ranges) =
        subst (λ j. Mirrors b (Map.insert (range_key j) x m) (Map.insert p lhs c.ranges)) (sym own)
          (insert-Mirrors b m c.ranges p lhs x (omega (arith, v.below p parent hp)) sx k) in
      rw (ey, ex)
        (unfold Apply.split_state in
          insert-Mirrors b (Map.insert (range_key parent.range_id) x m) (Map.insert p lhs c.ranges)
            rhs.range_id rhs y (omega arith) sy left_row)

  pub merge-Mirrors :
      (c : Catalog) (left right : RangeId) (l r : RangeDescriptor) (batch : WriteBatch) (m : Data)
      → IsValid c
      → Holds c left l
      → Holds c right r
      → Adjacent l r
      → (expect (get_range (merged_state c left right l r) left) >>= λ d.
          put_range b WriteBatch.new d >>= λ batch. ok (WriteBatch.delete batch (range_key right)))
        ≡ ok batch
      → Mirrors b m c.ranges
      → Mirrors b (write_ops batch.ops m).0 (merged_state c left right l r).ranges
  unfolding write_ops write_op WriteBatch.delete WriteBatch.push
  merge-Mirrors c left right l r batch m v hl hr adj h k =
      let whole = merged l l r in
      let stored : get_range (merged_state c left right l r) left ≡ some whole =
        unfold get_range in ground (arith, get-merged_state v left right l r hl hr adj left) in
      let made : (put_range b WriteBatch.new whole >>= λ batch.
      ok (WriteBatch.delete batch (range_key right)))
          ≡ ok batch =
        rw stored at h in
      let (first, f, e) =
        bind_ok (put_range b WriteBatch.new whole)
          (λ batch. ok (WriteBatch.delete batch (range_key right))) batch made in
      let (x, sx, ex) = put_range-ops WriteBatch.new first whole f in
      let out : WriteBatch.delete first (range_key right) ≡ batch = ground arith in
      let put_left = Map.insert (range_key l.range_id) x m in
      let own : l.range_id ≡ left = v.own_id left l hl in
      let left_fits : l.range_id < u64_mod = omega (arith, own, v.below left l hl, v.fits) in
      let right_fits : right < u64_mod = omega (arith, v.below right r hr, v.fits) in
      rw (sym out, ex)
        (λ i w. ground (
          arith,
          get-remove (range_key right) (range_key i) put_left,
          get-insert (range_key l.range_id) (range_key i) x m,
          eq?-range_key right i right_fits w,
          eq?-range_key l.range_id i left_fits w,
          get-merged_state v left right l r hl hr adj i,
          two_ranges v left right l r hl hr adj,
          k i w,
        ))

  pub update_membership-Mirrors :
      (c : Catalog) (i : RangeId) (reps : List ReplicaPlacement) (epoch : ℕ) (u : Unit {0})
      (batch : WriteBatch) (m : Data)
      → IsValid c
      → (Apply.update_membership c i reps epoch).1 ≡ Result.ok u
      → (expect (get_range (Apply.update_membership c i reps epoch).0 i) >>= λ d.
          put_range b WriteBatch.new d)
        ≡ ok batch
      → Mirrors b m c.ranges
      → Mirrors b (write_ops batch.ops m).0 (Apply.update_membership c i reps epoch).0.ranges
  unfolding Apply.update_membership
  update_membership-Mirrors c i reps epoch u batch m v a h k =
      elim (Option-cases (Map.get i c.ranges)) [
        | inl e ↦ absurd (ground arith)
        | inr (d, e) ↦
            amend-Mirrors c (Apply.update_membership c i reps epoch).0 i
              (record d { replicas = reps; epoch = epoch }) batch m (ground arith) (v.own_id i d e)
              (omega (arith, v.below i d e, v.fits)) h k
      ]

  pub update_lease-Mirrors :
      (c : Catalog) (i : RangeId) (lease : Option LeaseInfo) (u : Unit {0}) (batch : WriteBatch)
      (m : Data)
      → IsValid c
      → (Apply.update_lease c i lease).1 ≡ Result.ok u
      → (expect (get_range (Apply.update_lease c i lease).0 i) >>= λ d.
          put_range b WriteBatch.new d)
        ≡ ok batch
      → Mirrors b m c.ranges
      → Mirrors b (write_ops batch.ops m).0 (Apply.update_lease c i lease).0.ranges
  unfolding Apply.update_lease
  update_lease-Mirrors c i lease u batch m v a h k = elim (Option-cases (Map.get i c.ranges)) [
    | inl e ↦ absurd (ground arith)
    | inr (d, e) ↦
        amend-Mirrors c (Apply.update_lease c i lease).0 i (record d { lease = lease }) batch m
          (ground arith) (v.own_id i d e) (omega (arith, v.below i d e, v.fits)) h k
  ]
