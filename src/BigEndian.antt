-- ===== src/BigEndian.antt =====
-- Big-endian bytes of a `u64`: `to_be_bytes`, `from_be_bytes` and `put_u64`.
pub mod Laws
use aresadb.Prelude.{ℕ, zero, suc, ◌+◌, ◌*◌, ◌/◌, ◌%◌, ◌^◌, [], ◌∷◌, ◌++◌}
use aresadb.Ord.Bytes.{Bytes}

abbrev pub u64_mod : ℕ
u64_mod = 2 ^ 64

-- `put_u64` writes eight big-endian bytes, and `u64::from_be_bytes` reads them.
unfoldable pub be_bytes : ℕ → ℕ → Bytes
be_bytes zero n = []
be_bytes (suc width) n = be_bytes width (n / 256) ++ (n % 256 ∷ [])

unfoldable pub from_be_bytes : ℕ → Bytes → ℕ
from_be_bytes acc [] = acc
from_be_bytes acc (b ∷ bytes) = from_be_bytes (acc * 256 + b) bytes

abbrev pub put_u64 : ℕ → Bytes
put_u64 n = be_bytes 8 n
