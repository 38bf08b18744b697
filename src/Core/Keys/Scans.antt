-- ===== src/Core/Keys/Scans.antt =====
-- The prefixes by which index entries are scanned (`edge_from_prefix` and its neighbours in
-- crates/aresadb-core/src/keys.rs), and what lies under each.
use aresadb.Prelude.{◌≡◌, refl, ◌∙◌, Bool, true, false, ◌&&◌, [], ◌∷◌, ◌++◌, arith}
use aresadb.Ord.{eq?}
use aresadb.Ord.Bytes.{Bytes, bytes_ord}
use aresadb.Core.Keys
use aresadb.Core.Keys.{tag}
use aresadb.Core.KeyRange.{contains, prefix}
use aresadb.Core.KeyRange.Prefix.{IsBytes, starts_with, contains-prefix}
use aresadb.Core.Keys.Segments.{escape, write_multi, nul, terminator}
use aresadb.Core.Keys.Types.{
  Key, Kind, edge_from, edge_to, property_index, fulltext_index, vector_index,
}

unfoldable pub node_prefix : Bytes
node_prefix = tag Kind.node

unfoldable pub edge_prefix : Bytes
edge_prefix = tag Kind.edge

unfoldable pub edge_from_prefix : Bytes → Bytes
edge_from_prefix from_id = tag Kind.edge_from ++ (escape from_id ++ (nul ∷ terminator ∷ []))

unfoldable pub edge_to_prefix : Bytes → Bytes
edge_to_prefix to_id = tag Kind.edge_to ++ (escape to_id ++ (nul ∷ terminator ∷ []))

unfoldable pub property_equality_prefix : Bytes → Bytes → Bytes → Bytes
property_equality_prefix type field value =
    tag Kind.property_index
    ++ (escape type
        ++ (nul
            ∷ terminator
            ∷ (escape field ++ (nul ∷ terminator ∷ (escape value ++ (nul ∷ terminator ∷ []))))))

unfoldable pub property_field_prefix : Bytes → Bytes → Bytes
property_field_prefix type field =
    tag Kind.property_index
    ++ (escape type ++ (nul ∷ terminator ∷ (escape field ++ (nul ∷ terminator ∷ []))))

unfoldable pub fulltext_token_prefix : Bytes → Bytes → Bytes → Bytes
fulltext_token_prefix type field token =
    tag Kind.fulltext_index
    ++ (escape type
        ++ (nul
            ∷ terminator
            ∷ (escape field ++ (nul ∷ terminator ∷ (escape token ++ (nul ∷ terminator ∷ []))))))

unfoldable pub vector_field_prefix : Bytes → Bytes → Bytes
vector_field_prefix type field =
    tag Kind.vector_index
    ++ (escape type ++ (nul ∷ terminator ∷ (escape field ++ (nul ∷ terminator ∷ []))))

-- A terminated segment begins another only if the two segments are equal.
starts_with-escape :
    (a b p q : Bytes)
    → starts_with (escape a ++ (nul ∷ terminator ∷ p)) (escape b ++ (nul ∷ terminator ∷ q))
      ≡ (eq? a b && starts_with p q)
unfolding escape
starts_with-escape [] [] p q = refl
starts_with-escape [] (b ∷ bs) p q = ground arith
starts_with-escape (a ∷ as') [] p q = ground arith
starts_with-escape (a ∷ as') (b ∷ bs) p q = ground (arith, starts_with-escape as' bs p q)

-- The six scans, each with the prefix that the source builds for it.
pub data IndexScan : Type 0 where
  edges_from : Bytes → IndexScan
  edges_to : Bytes → IndexScan
  property_equality : Bytes → Bytes → Bytes → IndexScan
  property_field : Bytes → Bytes → IndexScan
  fulltext_token : Bytes → Bytes → Bytes → IndexScan
  vector_field : Bytes → Bytes → IndexScan

abbrev pub scan_prefix : IndexScan → Bytes
scan_prefix (edges_from from_id) = edge_from_prefix from_id
scan_prefix (edges_to to_id) = edge_to_prefix to_id
scan_prefix (property_equality t f v) = property_equality_prefix t f v
scan_prefix (property_field t f) = property_field_prefix t f
scan_prefix (fulltext_token t f w) = fulltext_token_prefix t f w
scan_prefix (vector_field t f) = vector_field_prefix t f

-- What a scan is meant to find, by the fields of a key.
abbrev pub selects : IndexScan → Key → Bool
selects (edges_from id) (edge_from from edge_id) = eq? id from
selects (edges_to id) (edge_to to edge_id) = eq? id to
selects (property_equality t f v) (property_index type field value node_id) =
    eq? t type && (eq? f field && eq? v value)
selects (property_field t f) (property_index type field value node_id) = eq? t type && eq? f field
selects (fulltext_token t f w) (fulltext_index type field token node_id) =
    eq? t type && (eq? f field && eq? w token)
selects (vector_field t f) (vector_index type field node_id) = eq? t type && eq? f field
selects _ _ = false

and_true : (b : Bool) → (b && true) ≡ b
and_true true = refl
and_true false = refl

starts_with-scan_prefix :
    (s : IndexScan) (k : Key) → starts_with (scan_prefix s) (Keys.encode k) ≡ selects s k
unfolding edge_from_prefix edge_to_prefix property_equality_prefix property_field_prefix
    fulltext_token_prefix vector_field_prefix Keys.encode write_multi
starts_with-scan_prefix (edges_from id) (edge_from from edge_id) =
    simp (starts_with-escape, and_true)
starts_with-scan_prefix (edges_to id) (edge_to to edge_id) = simp (starts_with-escape, and_true)
starts_with-scan_prefix (property_equality t f v) (property_index type field value node_id) =
    simp (starts_with-escape, and_true)
starts_with-scan_prefix (property_field t f) (property_index type field value node_id) =
    simp (starts_with-escape, and_true)
starts_with-scan_prefix (fulltext_token t f w) (fulltext_index type field token node_id) =
    simp (starts_with-escape, and_true)
starts_with-scan_prefix (vector_field t f) (vector_index type field node_id) =
    simp (starts_with-escape, and_true)
starts_with-scan_prefix _ _ = refl

-- The key range built from a scan's prefix holds the encoding of a key of bytes exactly when the
-- scan is meant to find that key: no entry of another node, type, field, value or token, and no
-- other kind of key, lies in it.
pub contains-scan_prefix :
    (s : IndexScan) (k : Key)
    → IsBytes (Keys.encode k)
    → contains (prefix (scan_prefix s)) (Keys.encode k) ≡ selects s k
contains-scan_prefix s k h =
    contains-prefix (scan_prefix s) (Keys.encode k) h ∙ starts_with-scan_prefix s k
