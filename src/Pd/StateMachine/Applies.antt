-- ===== src/Pd/StateMachine/Applies.antt =====
-- Commands of the state machine, against the rows on disk (crates/aresadb-pd/src/state_machine.rs).
use aresadb.Prelude.{
  ℕ, ◌+◌, ◌<◌, ◌≡◌, refl, sym, ◌∙◌, subst, Option, none, some, Bool-cases, inl, inr, arith,
}
use aresadb.Ord.Nat.{nat_ord}
use aresadb.Ord.Bytes.{Bytes, bytes_ord}
use aresadb.Map
use aresadb.Map.{BTreeMap}
use aresadb.Core.WriteBatch.{WriteBatch}
use aresadb.Core.Memory.{Data, write_ops}
use aresadb.Pd.Types.{RangeId, NodeId, RangeDescriptor, u64_mod}
use aresadb.Pd.Command.{PdCommand, PdResponse, done, range}
use aresadb.Pd.Catalog.State.{Catalog, get_node, check_create}
use aresadb.Pd.Catalog.Apply
use aresadb.Pd.Catalog.Valid.{IsValid}
use aresadb.Pd.Catalog.Merge.{merge_outcome, far, unlike, joined}
use aresadb.Pd.Catalog.Apply.{merged}
use aresadb.Pd.Error.{Result}
use aresadb.Pd.Catalog.Invariant.{HasRoom}
use aresadb.Pd.StateMachine.{ok, Bincode, build_write_batch}
use aresadb.Pd.StateMachine.Mirror.{Mirrors}
use aresadb.Pd.StateMachine.Rows.{
  put_node-Mirrors, put_range-Mirrors, split-Mirrors, merge-Mirrors, update_membership-Mirrors,
  update_lease-Mirrors,
}

-- A command that answers `done` was accepted.
pub answered :
    (r : Result (Unit {0})) (resp : PdResponse)
    → Apply.respond (λ _. done) r ≡ Result.ok resp
    → r ≡ Result.ok tt
answered (Result.ok u) resp h = refl
answered (Result.err e) resp h = absurd (cc h)
answered Result.panicked resp h = absurd (cc h)

pub answered_range :
    (r : Result RangeDescriptor) (resp : PdResponse)
    → Apply.respond range r ≡ Result.ok resp
    → (d : RangeDescriptor) × (r ≡ Result.ok d) × (resp ≡ range d)
answered_range (Result.ok d) resp h = (d, refl, ground arith)
answered_range (Result.err e) resp h = absurd (cc h)
answered_range Result.panicked resp h = absurd (cc h)

heartbeat_node-ranges :
    (c : Catalog) (n : NodeId) (t : ℕ) → (Apply.heartbeat_node c n t).0.ranges ≡ c.ranges
unfolding Apply.heartbeat_node
heartbeat_node-ranges c n t = ground arith

create_range-ranges :
    (c : Catalog) (d x : RangeDescriptor)
    → (Apply.create_range c d).1 ≡ Result.ok x
    → (Apply.create_range c d).0.ranges ≡ Map.insert d.range_id d c.ranges
unfolding Apply.create_range Apply.insert_range
create_range-ranges c d x h = checked (check_create c d) h
  where
    checked :
        (r : Result (Unit {0}))
        → (Apply.create_checked c d r).1 ≡ Result.ok x
        → (Apply.create_checked c d r).0.ranges ≡ Map.insert d.range_id d c.ranges
    checked (Result.ok u) h = refl
    checked (Result.err e) h = absurd (cc h)
    checked Result.panicked h = absurd (cc h)

module _ (b : Bincode) where
  split_built :
      (c : Catalog) (p : RangeId) (key : Bytes) (o : Option RangeDescriptor) (resp : PdResponse)
      (batch : WriteBatch) (m : Data)
      → IsValid c
      → c.next_range_id + 1 < u64_mod
      → Map.get p c.ranges ≡ o
      → Apply.respond range (Apply.split_found c p key o).1 ≡ Result.ok resp
      → build_write_batch b (PdCommand.split_range p key) resp (Apply.split_found c p key o).0
        ≡ ok batch
      → Mirrors b m c.ranges
      → Mirrors b (write_ops batch.ops m).0 (Apply.split_found c p key o).0.ranges
  unfolding build_write_batch
  split_built c p key none resp batch m v room hp a h k = absurd (cc a)
  split_built c p key (some parent) resp batch m v room hp a h k =
      elim (Bool-cases (Apply.inside parent key)) [
        | inl ins ↦
            let same : resp ≡ range (Apply.split_rhs c parent key) = ground arith in
            rw ins (split-Mirrors b c p parent key batch m v room hp ins (rw (ins, same) at h) k)
        | inr out ↦ absurd (ground arith)
      ]

  merge_built :
      (c : Catalog) (left right : RangeId) (o q : Option RangeDescriptor) (batch : WriteBatch)
      (m : Data)
      → IsValid c
      → Map.get left c.ranges ≡ o
      → Map.get right c.ranges ≡ q
      → (Apply.merge_ranges c left right).1 ≡ Result.ok tt
      → build_write_batch b
          (PdCommand.merge_ranges left right)
          done
          (Apply.merge_ranges c left right).0
        ≡ ok batch
      → Mirrors b m c.ranges
      → Mirrors b (write_ops batch.ops m).0 (Apply.merge_ranges c left right).0.ranges
  unfolding build_write_batch Apply.merge_ranges
  merge_built c left right none q batch m v hl hr a h k = absurd (cc (rw hl at a))
  merge_built c left right (some l) none batch m v hl hr a h k = absurd (cc (rw (hl, hr) at a))
  merge_built c left right (some l) (some r) batch m v hl hr a h k =
      let found : Apply.merge_ranges c left right ≡ Apply.merge_found c left right l r =
        rw (hl, hr) refl in
      elim (merge_outcome c v left right l r hl hr) [
        | far t e ↦ absurd (cc (rw (found ∙ e) at a))
        | unlike adj t e ↦ absurd (cc (rw (found ∙ e) at a))
        | joined adj t e ↦
            rw (found ∙ e)
              (merge-Mirrors b c left right l r batch m v hl hr adj (rw (found ∙ e) at h) k)
      ]

  -- What `build_write_batch` derives from an accepted command brings the rows to the new catalog.
  pub built-Mirrors :
      (c : Catalog) (cmd : PdCommand) (resp : PdResponse) (batch : WriteBatch) (m : Data)
      → IsValid c
      → HasRoom c cmd
      → (Apply.apply c cmd).1 ≡ Result.ok resp
      → build_write_batch b cmd resp (Apply.apply c cmd).0 ≡ ok batch
      → Mirrors b m c.ranges
      → Mirrors b (write_ops batch.ops m).0 (Apply.apply c cmd).0.ranges
  unfolding Apply.apply build_write_batch
  built-Mirrors c (PdCommand.register_node info) resp batch m v room a h k =
      unfold Apply.register_node in
      put_node-Mirrors b (get_node (Apply.register_node c info) info.node_id) batch m c.ranges h k
  built-Mirrors c (PdCommand.heartbeat_node n t) resp batch m v room a h k =
      subst (Mirrors b (write_ops batch.ops m).0) (sym (heartbeat_node-ranges c n t))
        (put_node-Mirrors b (get_node (Apply.heartbeat_node c n t).0 n) batch m c.ranges h k)
  built-Mirrors c (PdCommand.create_range d) resp batch m v room a h k =
      let (x, e, f) = answered_range (Apply.create_range c d).1 resp a in
      subst (Mirrors b (write_ops batch.ops m).0) (sym (create_range-ranges c d x e))
        (put_range-Mirrors b d batch m c.ranges h (omega (arith, room)) k)
  built-Mirrors c (PdCommand.split_range p key) resp batch m v room a h k =
      unfold Apply.split_range in
      split_built c p key (Map.get p c.ranges) resp batch m v room refl a h k
  built-Mirrors c (PdCommand.merge_ranges left right) resp batch m v room a h k =
      merge_built c left right (Map.get left c.ranges) (Map.get right c.ranges) batch m v refl refl
        (answered (Apply.merge_ranges c left right).1 resp a) h k
  built-Mirrors c (PdCommand.update_membership i reps epoch) resp batch m v room a h k =
      update_membership-Mirrors b c i reps epoch tt batch m v
        (answered (Apply.update_membership c i reps epoch).1 resp a) h k
  built-Mirrors c (PdCommand.update_lease i lease) resp batch m v room a h k =
      update_lease-Mirrors b c i lease tt batch m v
        (answered (Apply.update_lease c i lease).1 resp a) h k
