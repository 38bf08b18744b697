-- ===== src/Core/Keys/Segments.antt =====
-- `escape_into`, `write_multi` and `split_segments` of crates/aresadb-core/src/keys.rs: a segment
-- with its zero bytes escaped, and a two-byte terminator behind it.
use aresadb.Prelude.{ℕ, zero, suc, ◌+◌, Bool, true, false, List, [], ◌∷◌, ◌++◌, ◌==◌, if◌then◌else◌}
use aresadb.Ord.Bytes.{Bytes}
use aresadb.Core.Keys.Types.{Decoded, ok, err, missing_terminator, malformed_escape}

abbrev pub nul : ℕ
nul = 0x00

abbrev pub terminator : ℕ
terminator = 0x01

abbrev pub escape_byte : ℕ
escape_byte = 0xff

unfoldable pub escape : Bytes → Bytes
escape [] = []
escape (b ∷ segment) =
    let rest = escape segment in if b == nul then nul ∷ escape_byte ∷ rest else b ∷ rest

-- The segments of `head`, escaped and terminated, before the raw last one.
unfoldable pub write_segments : List Bytes → Bytes → Bytes
unfolding escape
write_segments [] last = last
write_segments (seg ∷ head) last = escape seg ++ (nul ∷ terminator ∷ write_segments head last)

unfoldable pub write_multi : Bytes → List Bytes → Bytes → Bytes
unfolding write_segments
write_multi prefix head last = prefix ++ write_segments head last

-- The loop of `split_segments`, over the bytes from `i` on: `left` segments are still wanted,
-- `index` are done and stand in `segments`, and `current` is begun. `after_nul` says that the byte
-- at `i` was a zero byte and that the next one decides what it is.
unfoldable pub split_from :
    Bytes → ℕ → Bool → ℕ → ℕ → Bytes → List Bytes → Decoded (List Bytes × Bytes)
split_from body zero after_nul index i current segments = ok (segments, body)
split_from [] (suc left) false index i current segments = err (missing_terminator index)
split_from [] (suc left) true index i current segments = err (malformed_escape i 0)
split_from (b ∷ body) (suc left) false index i current segments =
    let escaped = split_from body (suc left) true index i current segments in
    let plain = split_from body (suc left) false index (i + 1) (current ++ b ∷ []) segments in
    if b == nul then escaped else plain
split_from (b ∷ body) (suc left) true index i current segments =
    let literal = split_from body (suc left) false index (i + 2) (current ++ nul ∷ []) segments in
    let ended = split_from body left false (index + 1) (i + 2) [] (segments ++ current ∷ []) in
    if b == escape_byte
    then literal
    else if b == terminator
    then ended
    else err (malformed_escape i b)

unfoldable pub split_segments : Bytes → ℕ → Decoded (List Bytes × Bytes)
unfolding split_from
split_segments body n = split_from body n false 0 0 [] []
