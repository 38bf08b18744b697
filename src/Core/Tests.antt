-- ===== src/Core/Tests.antt =====
-- Runs of the core's code and the theorems at concrete inputs.
use aresadb.Prelude.{◌≡◌, refl, false, none, [], ◌∷◌, arith, if◌then◌else◌, List}
use aresadb.Ord.Bytes.{Bytes, bytes_ord, cmp_bytes}
use aresadb.Map
use aresadb.Map.{IsSorted}
use aresadb.Core.Error.{ok}
use aresadb.Core.KeyRange.{KeyRange, contains, prefix, prefix_successor, bump_last}
use aresadb.Core.KeyRange.Prefix.{contains-prefix, starts_with}
use aresadb.Core.WriteBatch.{WriteBatch}
use aresadb.Core.WriteBatch.Op.{put, delete_range}
use aresadb.Core.Memory.{MemoryBackend, KeyValue, write_batch, scan}
use aresadb.Core.Memory.Batch.{Applies, write_batch-view}
use aresadb.Span.{in_span}
use aresadb.Core.Memory.Scan.{scan-exact, entries}
use aresadb.Core.Keys
use aresadb.Core.Keys.{tag, Key, Kind, decode, encode}
use aresadb.Core.Keys.RoundTrip.{decode-encode}
use aresadb.Core.Keys.Canonical.{encode-decode}
use aresadb.Core.Keys.Order.{cmp_fields, encode-order_same, encode-order_regions}
use aresadb.Core.Keys.Scans.{IndexScan, scan_prefix, selects, contains-scan_prefix}

abbrev k_a : Bytes
k_a = b'a' ∷ []

abbrev k_b : Bytes
k_b = b'b' ∷ []

abbrev k_c : Bytes
k_c = b'c' ∷ []

abbrev k_d : Bytes
k_d = b'd' ∷ []

successor_of_ff : prefix_successor (1 ∷ 255 ∷ []) ≡ 2 ∷ []
unfolding prefix_successor bump_last
successor_of_ff = refl

contains-prefix_example :
    contains (prefix (1 ∷ 255 ∷ [])) (1 ∷ 255 ∷ 7 ∷ [])
    ≡ starts_with (1 ∷ 255 ∷ []) (1 ∷ 255 ∷ 7 ∷ [])
contains-prefix_example = contains-prefix (1 ∷ 255 ∷ []) (1 ∷ 255 ∷ 7 ∷ []) (omega arith)

abbrev posting : Key
posting = Key.fulltext_index (0 ∷ k_a) k_b (0 ∷ 255 ∷ []) k_c

decode-encode_example : decode (encode posting) ≡ Keys.ok posting
decode-encode_example = decode-encode posting

encode-decode_example :
    encode (Key.edge_from k_a k_b) ≡ b'/' ∷ b'e' ∷ b'f' ∷ b'/' ∷ b'a' ∷ 0 ∷ 1 ∷ b'b' ∷ []
unfolding Keys.decode Keys.decode_kind Keys.decode_index Keys.split_segments
encode-decode_example =
    encode-decode (b'/' ∷ b'e' ∷ b'f' ∷ b'/' ∷ b'a' ∷ 0 ∷ 1 ∷ b'b' ∷ []) (Key.edge_from k_a k_b)
      refl

encode-order_same_example :
    cmp_bytes (encode (Key.edge_to k_a k_d)) (encode (Key.edge_to (b'a' ∷ 0 ∷ []) k_c))
    ≡ cmp_fields (k_a ∷ k_d ∷ []) ((b'a' ∷ 0 ∷ []) ∷ k_c ∷ [])
encode-order_same_example =
    encode-order_same (Key.edge_to k_a k_d) (Key.edge_to (b'a' ∷ 0 ∷ []) k_c) refl

encode-order_regions_example :
    cmp_bytes (encode (Key.edge k_d)) (encode (Key.edge_from k_a k_b))
    ≡ cmp_bytes (tag Kind.edge) (tag Kind.edge_from)
encode-order_regions_example = encode-order_regions (Key.edge k_d) (Key.edge_from k_a k_b) (λ e. cc)

contains-scan_prefix_example :
    contains (prefix (scan_prefix (IndexScan.edges_from k_a))) (encode (Key.edge_from k_a k_b))
    ≡ selects (IndexScan.edges_from k_a) (Key.edge_from k_a k_b)
contains-scan_prefix_example =
    contains-scan_prefix (IndexScan.edges_from k_a) (Key.edge_from k_a k_b)
      (unfold encode Keys.write_multi in omega arith)

abbrev store : MemoryBackend
store = record { contents = (k_a, k_b) ∷ (k_b, k_c) ∷ (k_c, k_d) ∷ []; is_closed = false }

abbrev batch : WriteBatch
batch = record { ops = put k_d k_a ∷ delete_range k_a k_c ∷ put k_a k_d ∷ [] }

batch_run : (write_batch store batch).0.contents ≡ (k_a, k_d) ∷ (k_c, k_d) ∷ (k_d, k_a) ∷ []
unfolding write_batch
batch_run = refl

write_batch-view_example : Applies store batch
write_batch-view_example = write_batch-view store batch refl (tt, (refl, (tt, tt)))

store-IsSorted : IsSorted store.contents
store-IsSorted = ((refl, (refl, tt)), ((refl, tt), (tt, tt)))

abbrev b_to_d : KeyRange
b_to_d = record { start = k_b; end = k_d }

scan-exact_example :
    (l : List KeyValue) × (scan store b_to_d ≡ ok l)
    × IsSorted (entries l)
    × ((k : Bytes)
        → Map.get k (entries l) ≡ (if in_span k_b k_d k then Map.get k store.contents else none))
scan-exact_example = scan-exact store b_to_d refl store-IsSorted
