-- ===== src/Pd/Persist.antt =====
-- crates/aresadb-pd/src/persist.rs: the keys of the rows on disk.
pub mod Keys
use aresadb.Prelude.{
  ℕ, zero, suc, ◌+◌, ◌*◌, ◌/◌, ◌%◌, Option, none, some, List, [], ◌∷◌, ◌++◌, ◌==◌, length,
  if◌then◌else◌,
}
use aresadb.Ord.Bytes.{Bytes}
use aresadb.BigEndian.{be_bytes, from_be_bytes, put_u64}
use aresadb.Core.Error.{Outcome, ok, panicked}
use aresadb.Pd.Types.{RangeId, NodeId}

abbrev pub range_prefix : Bytes
range_prefix = b'/' ∷ b'm' ∷ b'/' ∷ b'p' ∷ b'd' ∷ b'/' ∷ b'r' ∷ b'/' ∷ []

abbrev pub node_prefix : Bytes
node_prefix = b'/' ∷ b'm' ∷ b'/' ∷ b'p' ∷ b'd' ∷ b'/' ∷ b'n' ∷ b'/' ∷ []

unfoldable pub strip_prefix : Bytes → Bytes → Option Bytes
strip_prefix [] key = some key
strip_prefix (p ∷ prefix) [] = none
strip_prefix (p ∷ prefix) (b ∷ key) =
    let rest = strip_prefix prefix key in if p == b then rest else none

abbrev pub id_of_rest : Option Bytes → Option ℕ
id_of_rest none = none
id_of_rest (some rest) = if length rest == 8 then some (from_be_bytes 0 rest) else none

unfoldable pub range_key : RangeId → Bytes
unfolding be_bytes
range_key range_id = range_prefix ++ put_u64 range_id

unfoldable pub node_key : NodeId → Bytes
unfolding be_bytes
node_key node_id = node_prefix ++ put_u64 node_id

unfoldable pub range_id_from_key : Bytes → Option RangeId
unfolding strip_prefix from_be_bytes
range_id_from_key key = id_of_rest (strip_prefix range_prefix key)

unfoldable pub node_id_from_key : Bytes → Option NodeId
unfolding strip_prefix from_be_bytes
node_id_from_key key = id_of_rest (strip_prefix node_prefix key)

-- Both assertions panic: on an empty prefix, and on one whose last byte is 0xff.
unfoldable pub prefix_upper_bound : Bytes → Outcome Bytes
prefix_upper_bound [] = panicked
prefix_upper_bound (b ∷ []) = if b == 255 then panicked else ok ((b + 1) ∷ [])
prefix_upper_bound (b ∷ c ∷ prefix) = after b (prefix_upper_bound (c ∷ prefix))
  where
    after : ℕ → Outcome Bytes → Outcome Bytes
    after b (ok out) = ok (b ∷ out)
    after b r = r
