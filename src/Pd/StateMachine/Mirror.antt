-- ===== src/Pd/StateMachine/Mirror.antt =====
-- Rows on disk against the ranges of a catalog (crates/aresadb-pd/src/state_machine.rs).
use aresadb.Prelude.{
  ℕ, ◌<◌, ◌≡◌, refl, ap, ◌∙◌, Option, none, some, List, [], ◌∷◌, ◌++◌, false, arith,
}
use aresadb.Ord.{eq?, is_eq}
use aresadb.Ord.Nat.{nat_ord}
use aresadb.Ord.Bytes.{Bytes, bytes_ord}
use aresadb.Map
use aresadb.Map.{BTreeMap}
use aresadb.Map.Laws.{get-insert, get-remove}
use aresadb.Core.WriteBatch.Op.{WriteOp, put}
use aresadb.Core.Memory.{Data, write_ops, write_op, write_next}
use aresadb.Core.Error.{Outcome, ok, err, panicked}
use aresadb.Pd.Types.{RangeId, RangeDescriptor, u64_mod}
use aresadb.Pd.Persist.{range_key, node_key}
use aresadb.Pd.Persist.Keys.{range_key-order}
use aresadb.Pd.StateMachine.{Bincode, pd_raft_meta_key}

abbrev pub row : Bincode → Option RangeDescriptor → Option Bytes
row b none = none
row b (some d) = b.serialize_range d

-- The row of every id is what its range serialises to, and is missing where the range is.
abbrev pub Mirrors : Bincode → Data → BTreeMap RangeId RangeDescriptor → Type 0
Mirrors b m ranges =
    (i : RangeId) → i < u64_mod → Map.get (range_key i) m ≡ row b (Map.get i ranges)

pub eq?-range_key :
    (i j : ℕ) → i < u64_mod → j < u64_mod → eq? (range_key i) (range_key j) ≡ eq? i j
eq?-range_key i j h k = ap is_eq (range_key-order i j h k)

pub eq?-node_key : (n j : ℕ) → eq? (node_key n) (range_key j) ≡ false
unfolding node_key range_key
eq?-node_key n j = refl

pub eq?-pd_raft_meta_key : (j : ℕ) → eq? pd_raft_meta_key (range_key j) ≡ false
unfolding range_key
eq?-pd_raft_meta_key j = refl

module _ (b : Bincode) where
  pub insert-Mirrors :
      (m : Data) (ranges : BTreeMap RangeId RangeDescriptor) (i : RangeId) (d : RangeDescriptor)
      (v : Bytes)
      → i < u64_mod
      → b.serialize_range d ≡ some v
      → Mirrors b m ranges
      → Mirrors b (Map.insert (range_key i) v m) (Map.insert i d ranges)
  insert-Mirrors m ranges i d v u s h j w = ground (
    arith,
    get-insert (range_key i) (range_key j) v m,
    get-insert i j d ranges,
    eq?-range_key i j u w,
    h j w,
  )

  pub remove-Mirrors :
      (m : Data) (ranges : BTreeMap RangeId RangeDescriptor) (i : RangeId)
      → i < u64_mod
      → Mirrors b m ranges
      → Mirrors b (Map.remove (range_key i) m) (Map.remove i ranges)
  remove-Mirrors m ranges i u h j w = ground (
    arith,
    get-remove (range_key i) (range_key j) m,
    get-remove i j ranges,
    eq?-range_key i j u w,
    h j w,
  )

  -- A write at a key that is no range's changes no row of a range.
  pub insert-other-Mirrors :
      (m : Data) (ranges : BTreeMap RangeId RangeDescriptor) (k v : Bytes)
      → ((j : ℕ) → eq? k (range_key j) ≡ false)
      → Mirrors b m ranges
      → Mirrors b (Map.insert k v m) ranges
  insert-other-Mirrors m ranges k v other h j w =
      get-insert k (range_key j) v m ∙ rw (other j) (h j w)

next-keeps :
    (P : Data → Type 0) (r : Outcome Data) (m : Data) (f g : Data → Data × Outcome (Unit {0}))
    → ((m' : Data) → P (f m').0 → P (g m').0)
    → P (write_next r m f).0
    → P (write_next r m g).0
next-keeps P (ok m') m f g step h = step m' h
next-keeps P (err e) m f g step h = h
next-keeps P panicked m f g step h = h

-- What holds after operations, and a write of the Raft adapter's row does not change, holds also where
-- that row is written last.
pub put_meta-keeps :
    (P : Data → Type 0) (meta : Bytes) (ops : List WriteOp) (m : Data)
    → ((m : Data) → P m → P (Map.insert pd_raft_meta_key meta m))
    → P (write_ops ops m).0
    → P (write_ops (ops ++ put pd_raft_meta_key meta ∷ []) m).0
unfolding write_ops write_op
put_meta-keeps P meta [] m stable h = stable m h
put_meta-keeps P meta (op ∷ ops) m stable h =
    next-keeps P (write_op op m) m (write_ops ops)
      (write_ops (ops ++ put pd_raft_meta_key meta ∷ []))
      (λ m'. put_meta-keeps P meta ops m' stable) h
