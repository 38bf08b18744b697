-- ===== src/Core/Keys/Order.antt =====
-- The byte order of encoded keys is the order of the structured keys: by region first, then field
-- by field.
use aresadb.Prelude.{ℕ, ◌≡◌, refl, ap, sym, ◌∙◌, List, [], ◌∷◌, ◌++◌, length, arith, Ordering, ◌≢◌}
use Prim.Native.Nat.Ordering.{lt, eq, gt}
use aresadb.Ord.Bytes.{Bytes, cmp_bytes, and_then, cmp_bytes-append_left}
use aresadb.Core.Keys
use aresadb.Core.Keys.{tag}
use aresadb.Core.Keys.Segments.{escape, write_segments, write_multi, nul, terminator}
use aresadb.Core.Keys.Types.{
  Key, Kind, metadata, node, node_index, edge, edge_from, edge_to, property_index, fulltext_index,
  vector_index, schema, transaction,
}

-- The terminator sorts below every continuation of a segment, the escape below every other byte.
cmp_bytes-escape :
    (a b x y : Bytes)
    → cmp_bytes (escape a ++ (nul ∷ terminator ∷ x)) (escape b ++ (nul ∷ terminator ∷ y))
      ≡ and_then (cmp_bytes a b) (cmp_bytes x y)
unfolding escape
cmp_bytes-escape [] [] x y = refl
cmp_bytes-escape [] (b ∷ bs) x y = ground arith
cmp_bytes-escape (a ∷ as') [] x y = ground arith
cmp_bytes-escape (a ∷ as') (b ∷ bs) x y = ground (arith, cmp_bytes-escape as' bs x y)

-- Lists of fields, compared field by field.
abbrev pub cmp_fields : List Bytes → List Bytes → Ordering
cmp_fields [] [] = eq
cmp_fields [] (g ∷ gs) = lt
cmp_fields (f ∷ fs) [] = gt
cmp_fields (f ∷ fs) (g ∷ gs) = and_then (cmp_bytes f g) (cmp_fields fs gs)

abbrev pub kind : Key → Kind
kind (metadata tail) = Kind.metadata
kind (node node_id) = Kind.node
kind (node_index node_id) = Kind.node_index
kind (edge edge_id) = Kind.edge
kind (edge_from from edge_id) = Kind.edge_from
kind (edge_to to edge_id) = Kind.edge_to
kind (property_index type field value node_id) = Kind.property_index
kind (fulltext_index type field token node_id) = Kind.fulltext_index
kind (vector_index type field node_id) = Kind.vector_index
kind (schema type) = Kind.schema
kind (transaction tx_id) = Kind.transaction

-- The fields before the last one, and the last one.
abbrev pub head_fields : Key → List Bytes
head_fields (edge_from from edge_id) = from ∷ []
head_fields (edge_to to edge_id) = to ∷ []
head_fields (property_index type field value node_id) = type ∷ field ∷ value ∷ []
head_fields (fulltext_index type field token node_id) = type ∷ field ∷ token ∷ []
head_fields (vector_index type field node_id) = type ∷ field ∷ []
head_fields _ = []

abbrev pub last_field : Key → Bytes
last_field (metadata tail) = tail
last_field (node node_id) = node_id
last_field (node_index node_id) = node_id
last_field (edge edge_id) = edge_id
last_field (edge_from from edge_id) = edge_id
last_field (edge_to to edge_id) = edge_id
last_field (property_index type field value node_id) = node_id
last_field (fulltext_index type field token node_id) = node_id
last_field (vector_index type field node_id) = node_id
last_field (schema type) = type
last_field (transaction tx_id) = tx_id

abbrev pub fields : Key → List Bytes
fields k = head_fields k ++ (last_field k ∷ [])

-- One shape for all variants.
pub encode-eq-write_segments :
    (k : Key) → Keys.encode k ≡ tag (kind k) ++ write_segments (head_fields k) (last_field k)
unfolding Keys.encode write_multi write_segments
encode-eq-write_segments (metadata tail) = refl
encode-eq-write_segments _ = refl

abbrev arity : Kind → ℕ
arity Kind.edge_from = 1
arity Kind.edge_to = 1
arity Kind.property_index = 3
arity Kind.fulltext_index = 3
arity Kind.vector_index = 2
arity _ = 0

length-head_fields : (k : Key) → length (head_fields k) ≡ arity (kind k)
length-head_fields (metadata tail) = refl
length-head_fields _ = refl

and_then-eq : (c : Ordering) → and_then c eq ≡ c
and_then-eq lt = refl
and_then-eq eq = refl
and_then-eq gt = refl

cmp_bytes-write_segments :
    (fs gs : List Bytes) (x y : Bytes)
    → length fs ≡ length gs
    → cmp_bytes (write_segments fs x) (write_segments gs y)
      ≡ cmp_fields (fs ++ x ∷ []) (gs ++ y ∷ [])
unfolding write_segments
cmp_bytes-write_segments [] [] x y h = sym (and_then-eq (cmp_bytes x y))
cmp_bytes-write_segments [] (g ∷ gs) x y h = absurd (omega arith)
cmp_bytes-write_segments (f ∷ fs) [] x y h = absurd (omega arith)
cmp_bytes-write_segments (f ∷ fs) (g ∷ gs) x y h =
    cmp_bytes-escape f g (write_segments fs x) (write_segments gs y)
    ∙ ap (and_then (cmp_bytes f g)) (cmp_bytes-write_segments fs gs x y (omega arith))

-- Two keys of one region compare, as byte strings, as their fields do one after another, each as a
-- byte string.
pub encode-order_same :
    (k l : Key)
    → kind k ≡ kind l
    → cmp_bytes (Keys.encode k) (Keys.encode l) ≡ cmp_fields (fields k) (fields l)
encode-order_same k l h =
    rw (encode-eq-write_segments k, encode-eq-write_segments l, h)
      (cmp_bytes-append_left (tag (kind l)) (write_segments (head_fields k) (last_field k))
          (write_segments (head_fields l) (last_field l))
        ∙ cmp_bytes-write_segments (head_fields k) (head_fields l) (last_field k) (last_field l)
            (length-head_fields k ∙ (ap arity h ∙ sym (length-head_fields l))))

-- No tag begins another, so what follows two different tags does not count.
tag-prefix_free :
    (a b : Kind) (x y : Bytes)
    → a ≢ b
    → cmp_bytes (tag a ++ x) (tag b ++ y) ≡ cmp_bytes (tag a) (tag b)
tag-prefix_free Kind.metadata Kind.metadata x y h = absurd (h refl)
tag-prefix_free Kind.node Kind.node x y h = absurd (h refl)
tag-prefix_free Kind.node_index Kind.node_index x y h = absurd (h refl)
tag-prefix_free Kind.edge Kind.edge x y h = absurd (h refl)
tag-prefix_free Kind.edge_from Kind.edge_from x y h = absurd (h refl)
tag-prefix_free Kind.edge_to Kind.edge_to x y h = absurd (h refl)
tag-prefix_free Kind.property_index Kind.property_index x y h = absurd (h refl)
tag-prefix_free Kind.fulltext_index Kind.fulltext_index x y h = absurd (h refl)
tag-prefix_free Kind.vector_index Kind.vector_index x y h = absurd (h refl)
tag-prefix_free Kind.schema Kind.schema x y h = absurd (h refl)
tag-prefix_free Kind.transaction Kind.transaction x y h = absurd (h refl)
tag-prefix_free _ _ x y h = refl

-- Two keys of different regions compare as the tags of their regions do, whatever their fields:
-- each region is one contiguous block of the keyspace.
pub encode-order_regions :
    (k l : Key)
    → kind k ≢ kind l
    → cmp_bytes (Keys.encode k) (Keys.encode l) ≡ cmp_bytes (tag (kind k)) (tag (kind l))
encode-order_regions k l h =
    rw (encode-eq-write_segments k, encode-eq-write_segments l)
      (tag-prefix_free (kind k) (kind l) (write_segments (head_fields k) (last_field k))
        (write_segments (head_fields l) (last_field l)) h)
