-- ===== src/Core/KeyRange.antt =====
-- crates/aresadb-core/src/range.rs: half-open ranges of keys, where an empty `end` is no bound.
pub mod Prefix
use mathlib.Core.List.{reverse}
use aresadb.Prelude.{ℕ, ◌+◌, Bool, true, false, ◌&&◌, ◌||◌, List, [], ◌∷◌, ◌==◌, if◌then◌else◌}
use aresadb.Ord.{lt?, le?}
use aresadb.Ord.Bytes.{Bytes, bytes_ord}
use aresadb.Span.{is_empty}

pub record KeyRange : Type 0 where
  pub start : Bytes
  pub end : Bytes

abbrev pub all : KeyRange
all = record { start = []; end = [] }

abbrev pub new : Bytes → Bytes → KeyRange
new start end = record { start = start; end = end }

abbrev pub from : Bytes → KeyRange
from start = record { start = start; end = [] }

abbrev pub to : Bytes → KeyRange
to end = record { start = []; end = end }

unfoldable pub is_open_ended : KeyRange → Bool
is_open_ended r = is_empty r.end

unfoldable pub contains : KeyRange → Bytes → Bool
contains r key =
    let after_start = le? r.start key in
    let before_end = is_empty r.end || lt? key r.end in after_start && before_end

-- The loop of `prefix_successor`, on the bytes from the last to the first: a 0xff is popped, any
-- other byte is incremented and ends the loop.
unfoldable pub bump_last : Bytes → Bytes
bump_last [] = []
bump_last (last ∷ out) =
    let popped = bump_last out in if last == 0xff then popped else (last + 1) ∷ out

unfoldable pub prefix_successor : Bytes → Bytes
prefix_successor prefix = reverse (bump_last (reverse prefix))

unfoldable pub prefix : Bytes → KeyRange
prefix p = record { start = p; end = prefix_successor p }
