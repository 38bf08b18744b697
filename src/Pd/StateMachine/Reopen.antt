-- ===== src/Pd/StateMachine/Reopen.antt =====
-- Opening a backend whose rows mirror a catalog (`open` of crates/aresadb-pd/src/state_machine.rs).
use aresadb.Prelude.{
  ℕ, ◌≡◌, refl, sym, ap, ◌∙◌, Bool, true, false, ◌||◌, Option, none, some, List, [], ◌∷◌, All,
  Bool-cases, Option-cases, inl, inr, arith,
}
use aresadb.Ord.{eq?, eq?_iff, eq?_refl}
use aresadb.Ord.Nat.{nat_ord}
use aresadb.Ord.Bytes.{Bytes, bytes_ord}
use aresadb.Map
use aresadb.Map.{BTreeMap, IsSorted}
use aresadb.Core.KeyRange
use aresadb.Core.KeyRange.{KeyRange, contains}
use aresadb.Core.Memory.{Data, KeyValue, key_values}
use aresadb.Pd.Types.{RangeId, RangeDescriptor, NodeInfo}
use aresadb.Pd.Catalog.State.{Catalog}
use aresadb.Pd.Catalog.Load.Laws.{From, has_id}
use aresadb.Pd.Persist.{range_key, range_prefix, node_prefix, range_id_from_key, node_id_from_key}
use aresadb.Pd.StateMachine.{ok, Bincode}
use aresadb.Pd.StateMachine.Recovery.{read_ranges, read_nodes}

-- A row that is a range's is read as the range that the catalog holds under its id.
abbrev pub RangeRow : Bincode → Catalog → Bytes → Bytes → Type 0
RangeRow b c key value =
    (i : RangeId)
    → range_id_from_key key ≡ some i
    → (d : RangeDescriptor) × (b.deserialize_range value ≡ some d)
      × (d.range_id ≡ i)
      × (Map.get i c.ranges ≡ some d)
      × (Map.get d.start_key c.by_start ≡ some i)

abbrev pub NodeRow : Bincode → Bytes → Bytes → Type 0
NodeRow b key value =
    (i : RangeId)
    → node_id_from_key key ≡ some i
    → (n : NodeInfo) × (b.deserialize_node value ≡ some n)

abbrev is_row_of : RangeId → Option RangeId → Bool
is_row_of i none = false
is_row_of i (some j) = eq? j i

abbrev pub has_row : RangeId → List KeyValue → Bool
has_row i [] = false
has_row i (kv ∷ kvs) = is_row_of i (range_id_from_key kv.key) || has_row i kvs

-- What holds of every entry of a map holds of what a scan collects.
pub All-key_values :
    (P : Bytes → Bytes → Type 0) (p : Bytes → Bool) (m : Data)
    → All (λ e. P e.0 e.1) m
    → All (λ kv. P kv.key kv.value) (key_values (Map.filter_keys p m))
unfolding Map.filter_keys
All-key_values P p [] h = tt
All-key_values P p ((k, v) ∷ m) h = elim (Bool-cases (p k)) [
  | inl e ↦ rw e (h.0, All-key_values P p m h.1)
  | inr e ↦ rw e (All-key_values P p m h.1)
]

pub has_row_of_get :
    (i : RangeId) (key value : Bytes) (p : Bytes → Bool) (m : Data)
    → Map.get key m ≡ some value
    → p key ≡ true
    → range_id_from_key key ≡ some i
    → has_row i (key_values (Map.filter_keys p m)) ≡ true
unfolding Map.filter_keys Map.get
has_row_of_get i key value p [] g h e = cc
has_row_of_get i key value p ((k, v) ∷ m) g h e =
    ground (arith, has_row_of_get i key value p m, eq?_iff k key, eq?_refl i)

module _ (b : Bincode) where
  pub read_ranges_lem :
      (c : Catalog) (kvs : List KeyValue)
      → All (λ kv. RangeRow b c kv.key kv.value) kvs
      → (ds : List RangeDescriptor) × (read_ranges b kvs ≡ ok ds)
        × From c ds
        × ((i : RangeId) → has_id i ds ≡ has_row i kvs)
  read_ranges_lem c [] h = ([], refl, tt, λ i. refl)
  read_ranges_lem c (kv ∷ kvs) h =
      let (ds, e, from, same) = read_ranges_lem c kvs h.1 in
      elim (Option-cases (range_id_from_key kv.key)) [
        | inl none_ ↦ (ds, rw (none_, e) refl, from, λ i. rw none_ (same i))
        | inr (j, id) ↦
            let (d, read, own, held, indexed) = h.0 j id in
            (
              d ∷ ds,
              rw (id, read, e) refl,
              ((ap (λ x. Map.get x c.ranges) own ∙ held, indexed ∙ ap some (sym own)), from),
              λ i. rw (id, same i) (ap (λ x. eq? x i || has_row i kvs) own),
            )
      ]

  pub read_nodes_lem :
      (kvs : List KeyValue)
      → All (λ kv. NodeRow b kv.key kv.value) kvs
      → (ns : List NodeInfo) × (read_nodes b kvs ≡ ok ns)
  read_nodes_lem [] h = ([], refl)
  read_nodes_lem (kv ∷ kvs) h =
      let (ns, e) = read_nodes_lem kvs h.1 in
      elim (Option-cases (node_id_from_key kv.key)) [
        | inl none_ ↦ (ns, rw (none_, e) refl)
        | inr (j, id) ↦ let (n, read) = h.0 j id in (n ∷ ns, rw (id, read, e) refl)
      ]

abbrev pub range_rows : KeyRange
range_rows = KeyRange.new range_prefix (b'/' ∷ b'm' ∷ b'/' ∷ b'p' ∷ b'd' ∷ b'/' ∷ b'r' ∷ b'0' ∷ [])

abbrev pub node_rows : KeyRange
node_rows = KeyRange.new node_prefix (b'/' ∷ b'm' ∷ b'/' ∷ b'p' ∷ b'd' ∷ b'/' ∷ b'n' ∷ b'0' ∷ [])

pub contains-range_key : (i : ℕ) → contains range_rows (range_key i) ≡ true
unfolding contains range_key
contains-range_key i = refl
