-- ===== src/Pd/Persist/Keys.antt =====
-- The keys of rows on disk, and the ids read back (crates/aresadb-pd/src/persist.rs).
use aresadb.Prelude.{ℕ, ◌<◌, ◌≡◌, ◌↔◌, refl, ◌∙◌, none, some, [], ◌∷◌, ◌++◌, compare, arith}
use aresadb.Ord.Bytes.{Bytes, cmp_bytes, cmp_bytes-append_left}
use aresadb.Core.KeyRange.Prefix.{IsBytes}
use aresadb.Pd.Types.{u64_mod}
use aresadb.BigEndian.{put_u64}
use aresadb.BigEndian.Laws.{
  from_be_bytes-u64, cmp_bytes-be_bytes, Fits-u64, length-put_u64, from_be_bytes-put_u64,
  put_u64-from_be_bytes,
}
use aresadb.Pd.Persist.{
  strip_prefix, id_of_rest, range_key, node_key, range_prefix, node_prefix, range_id_from_key,
}

-- The row keys of two ranges, whose ids fit a `u64`, compare as the ids do.
pub range_key-order :
    (i j : ℕ) → i < u64_mod → j < u64_mod → cmp_bytes (range_key i) (range_key j) ≡ compare i j
unfolding range_key
range_key-order i j h k =
    cmp_bytes-append_left range_prefix (put_u64 i) (put_u64 j)
    ∙ cmp_bytes-be_bytes 8 i j (Fits-u64 i h) (Fits-u64 j k)

-- So do those of two nodes.
pub node_key-order :
    (i j : ℕ) → i < u64_mod → j < u64_mod → cmp_bytes (node_key i) (node_key j) ≡ compare i j
unfolding node_key
node_key-order i j h k =
    cmp_bytes-append_left node_prefix (put_u64 i) (put_u64 j)
    ∙ cmp_bytes-be_bytes 8 i j (Fits-u64 i h) (Fits-u64 j k)

strip_prefix-append : (p key : Bytes) → strip_prefix p (p ++ key) ≡ some key
unfolding strip_prefix
strip_prefix-append [] key = refl
strip_prefix-append (x ∷ p) key = ground (arith, strip_prefix-append p key)

append-of_strip_prefix : (p key rest : Bytes) → strip_prefix p key ≡ some rest → p ++ rest ≡ key
unfolding strip_prefix
append-of_strip_prefix [] key rest h = cc
append-of_strip_prefix (x ∷ p) [] rest h = cc
append-of_strip_prefix (x ∷ p) (b ∷ key) rest h = ground (arith, append-of_strip_prefix p key rest)

id_of_rest-exact :
    (p key : Bytes) (i : ℕ)
    → IsBytes key
    → i < u64_mod
    → (id_of_rest (strip_prefix p key) ≡ some i) ↔ (key ≡ p ++ put_u64 i)
unfolding strip_prefix
id_of_rest-exact [] key i h u = (
  λ e. ground (arith, put_u64-from_be_bytes key h),
  λ e. ground (arith, length-put_u64 i, from_be_bytes-put_u64 i u),
)
id_of_rest-exact (x ∷ p) [] i h u = (λ e. cc, λ e. cc)
id_of_rest-exact (x ∷ p) (b ∷ key) i h u = (
  λ e. ground (arith, (id_of_rest-exact p key i h.1 u).0),
  λ e. ground (arith, (id_of_rest-exact p key i h.1 u).1),
)

-- An id that fits a `u64` is read from a byte string exactly when the byte string is the row key of
-- that id.
pub range_id_from_key-exact :
    (key : Bytes) (i : ℕ)
    → IsBytes key
    → i < u64_mod
    → (range_id_from_key key ≡ some i) ↔ (key ≡ range_key i)
unfolding range_id_from_key range_key
range_id_from_key-exact key i h u = id_of_rest-exact range_prefix key i h u

-- A key of a node row is not one of a range row.
pub range_id_from_key-node_key : (n : ℕ) → range_id_from_key (node_key n) ≡ none
unfolding range_id_from_key node_key strip_prefix
range_id_from_key-node_key n = refl

id_of_rest-u64 :
    (p key : Bytes) (i : ℕ) → IsBytes key → id_of_rest (strip_prefix p key) ≡ some i → i < u64_mod
unfolding strip_prefix
id_of_rest-u64 [] key i h e = ground (arith, from_be_bytes-u64 key h)
id_of_rest-u64 (x ∷ p) [] i h e = cc
id_of_rest-u64 (x ∷ p) (b ∷ key) i h e = ground (arith, id_of_rest-u64 p key i h.1)

-- The id that a key of bytes has fits a `u64`.
pub range_id_from_key-u64 :
    (key : Bytes) (i : ℕ) → IsBytes key → range_id_from_key key ≡ some i → i < u64_mod
unfolding range_id_from_key
range_id_from_key-u64 key i h e = id_of_rest-u64 range_prefix key i h e
