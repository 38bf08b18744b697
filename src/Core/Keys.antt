-- ===== src/Core/Keys.antt =====
-- crates/aresadb-core/src/keys.rs: the structured keys of the one sorted keyspace, and their
-- encoding as byte strings. The proofs are in the children.
mod Segments
mod Types
pub mod RoundTrip
pub mod Canonical
pub mod Order
pub mod Scans
pub use Types.*
unfoldable pub use Segments.{escape, write_multi, split_segments}
use aresadb.Prelude.{
  ℕ, ◌+◌, Bool, true, false, ◌&&◌, List, [], ◌∷◌, ◌++◌, ◌==◌, length, take, if◌then◌else◌,
}
use aresadb.Ord.Bytes.{Bytes}

abbrev pub tag : Kind → Bytes
tag Kind.metadata = b'/' ∷ b'm' ∷ b'/' ∷ []
tag Kind.node = b'/' ∷ b'n' ∷ b'/' ∷ []
tag Kind.node_index = b'/' ∷ b'i' ∷ b'/' ∷ []
tag Kind.edge = b'/' ∷ b'e' ∷ b'/' ∷ []
tag Kind.edge_from = b'/' ∷ b'e' ∷ b'f' ∷ b'/' ∷ []
tag Kind.edge_to = b'/' ∷ b'e' ∷ b't' ∷ b'/' ∷ []
tag Kind.property_index = b'/' ∷ b'p' ∷ b'/' ∷ []
tag Kind.fulltext_index = b'/' ∷ b'f' ∷ b't' ∷ b'/' ∷ []
tag Kind.vector_index = b'/' ∷ b'v' ∷ b'/' ∷ []
tag Kind.schema = b'/' ∷ b's' ∷ b'/' ∷ []
tag Kind.transaction = b'/' ∷ b'x' ∷ b'/' ∷ []

abbrev pub write_single : Bytes → Bytes → Bytes
write_single prefix payload = prefix ++ payload

unfoldable pub encode : Key → Bytes
encode (metadata tail) = write_single (tag Kind.metadata) tail
encode (node node_id) = write_single (tag Kind.node) node_id
encode (node_index node_id) = write_single (tag Kind.node_index) node_id
encode (edge edge_id) = write_single (tag Kind.edge) edge_id
encode (edge_from from edge_id) = write_multi (tag Kind.edge_from) (from ∷ []) edge_id
encode (edge_to to edge_id) = write_multi (tag Kind.edge_to) (to ∷ []) edge_id
encode (property_index type field value node_id) =
    write_multi (tag Kind.property_index) (type ∷ field ∷ value ∷ []) node_id
encode (fulltext_index type field token node_id) =
    write_multi (tag Kind.fulltext_index) (type ∷ field ∷ token ∷ []) node_id
encode (vector_index type field node_id) =
    write_multi (tag Kind.vector_index) (type ∷ field ∷ []) node_id
encode (schema type) = write_single (tag Kind.schema) type
encode (transaction tx_id) = write_single (tag Kind.transaction) tx_id

-- `segs.into_iter().next().expect(..)`, once for each segment that was requested.
abbrev pub one_segment : (Bytes → Bytes → Key) → List Bytes × Bytes → Decoded Key
one_segment key (a ∷ segs, last) = ok (key a last)
one_segment key ([], last) = panicked

abbrev pub two_segments : (Bytes → Bytes → Bytes → Key) → List Bytes × Bytes → Decoded Key
two_segments key (a ∷ b ∷ segs, last) = ok (key a b last)
two_segments key (segs, last) = panicked

abbrev pub three_segments : (Bytes → Bytes → Bytes → Bytes → Key) → List Bytes × Bytes → Decoded Key
three_segments key (a ∷ b ∷ c ∷ segs, last) = ok (key a b c last)
three_segments key (segs, last) = panicked

-- `bytes.len() >= 4 && bytes[3] == b'/'`, on what follows the third byte
abbrev pub is_slash : Bytes → Bool
is_slash [] = false
is_slash (b ∷ rest) = b == b'/'

abbrev pub tail : Bytes → Bytes
tail [] = []
tail (b ∷ rest) = rest

-- The `match bytes[1]` of `decode`, arm by arm, in three functions: each passes on what none of
-- its arms takes.
unfoldable pub decode_tail : ℕ → ℕ → Bytes → Decoded Key
decode_tail b1 b2 rest =
    if b1 == b'v' && b2 == b'/'
    then split_segments rest 2 >>= two_segments vector_index
    else if b1 == b's' && b2 == b'/'
    then ok (schema rest)
    else if b1 == b'x' && b2 == b'/'
    then ok (transaction rest)
    else err (unknown_prefix (b'/' ∷ b1 ∷ b2 ∷ take 1 rest))

unfoldable pub decode_index : ℕ → ℕ → Bytes → Decoded Key
decode_index b1 b2 rest =
    if b1 == b'e' && (b2 == b'f' && is_slash rest)
    then split_segments (tail rest) 1 >>= one_segment edge_from
    else if b1 == b'e' && (b2 == b't' && is_slash rest)
    then split_segments (tail rest) 1 >>= one_segment edge_to
    else if b1 == b'p' && b2 == b'/'
    then split_segments rest 3 >>= three_segments property_index
    else if b1 == b'f' && (b2 == b't' && is_slash rest)
    then split_segments (tail rest) 3 >>= three_segments fulltext_index
    else decode_tail b1 b2 rest

unfoldable pub decode_kind : ℕ → ℕ → Bytes → Decoded Key
decode_kind b1 b2 rest =
    if b1 == b'm' && b2 == b'/'
    then ok (metadata rest)
    else if b1 == b'n' && b2 == b'/'
    then ok (node rest)
    else if b1 == b'i' && b2 == b'/'
    then ok (node_index rest)
    else if b1 == b'e' && b2 == b'/'
    then ok (edge rest)
    else decode_index b1 b2 rest

unfoldable pub decode : Bytes → Decoded Key
decode (b0 ∷ b1 ∷ b2 ∷ rest) =
    if b0 == b'/' then decode_kind b1 b2 rest else err (too_short (length (b0 ∷ b1 ∷ b2 ∷ rest)))
decode bytes = err (too_short (length bytes))
