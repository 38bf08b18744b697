-- ===== src/Raft/LogStore.antt =====
-- crates/aresadb-raft/src/log_store.rs: the Raft log, the vote and two log ids on a backend, here the
-- in-memory engine. What openraft's types hold and what bincode makes of them are parameters.
pub mod Spec
pub mod Ranges
pub mod Writes
pub mod Purge
pub mod Refines
use aresadb.Prelude.{ℕ, ◌+◌, ◌-◌, min, Option, none, some, List, [], ◌∷◌, ◌==◌, leb, if◌then◌else◌}
use aresadb.Ord.Bytes.{Bytes}
use aresadb.BigEndian.{u64_mod, be_bytes, put_u64}
use aresadb.Core.KeyRange
use aresadb.Core.KeyRange.{KeyRange}
use aresadb.Core.WriteBatch
use aresadb.Core.WriteBatch.{WriteBatch}
use aresadb.Core.Memory
use aresadb.Core.Memory.{MemoryBackend, KeyValue}
use aresadb.Core.Error.{Outcome}
use aresadb.Raft.Error.{
  Stored, ok, err, panicked, ◌>>=◌, ◌>>◌, Cause, StorageError, storage_err, storage_err_ctx,
  map_err, coded, ErrorSubject, ErrorVerb,
}

abbrev pub log_prefix : ℕ
log_prefix = 0x00

abbrev pub meta_prefix : ℕ
meta_prefix = 0x01

abbrev pub meta_vote : ℕ
meta_vote = 0x01

abbrev pub meta_committed : ℕ
meta_committed = 0x02

abbrev pub meta_purged : ℕ
meta_purged = 0x03

unfoldable pub log_key : ℕ → Bytes
unfolding be_bytes
log_key index = log_prefix ∷ put_u64 index

abbrev pub meta_key : ℕ → Bytes
meta_key tag = meta_prefix ∷ tag ∷ []

pub data Bound : Type 0 where
  included excluded : ℕ → Bound
  unbounded : Bound

abbrev pub u64_max : ℕ
u64_max = u64_mod - 1

abbrev pub saturating_incr : ℕ → ℕ
saturating_incr i = min (i + 1) u64_max

abbrev pub start_key : Bound → Bytes
start_key (included i) = log_key i
start_key (excluded i) = log_key (saturating_incr i)
start_key unbounded = log_prefix ∷ []

abbrev pub end_key : Bound → Bytes
end_key (included i) = if i == u64_max then (log_prefix + 1) ∷ [] else log_key (i + 1)
end_key (excluded i) = log_key i
end_key unbounded = (log_prefix + 1) ∷ []

unfoldable pub log_range : Bound → Bound → KeyRange
log_range start_bound end_bound = KeyRange.new (start_key start_bound) (end_key end_bound)

-- openraft's log ids, votes and entries, and their bytes; none is an error of bincode.
pub record LogTypes (LogId Vote Entry : Type 0) : Type 0 where
  pub index : LogId → ℕ
  pub get_log_id : Entry → LogId
  pub serialize_vote : Vote → Option Bytes
  pub deserialize_vote : Bytes → Option Vote
  pub serialize_log_id : Option LogId → Option Bytes
  pub deserialize_log_id : Bytes → Option (Option LogId)
  pub serialize_entry : Entry → Option Bytes
  pub deserialize_entry : Bytes → Option Entry

pub record LogState (LogId : Type 0) : Type 0 where
  pub last_purged_log_id : Option LogId
  pub last_log_id : Option LogId

abbrev pub Update : Type 0 → Type 0
Update LogId = MemoryBackend × Stored LogId (Unit {0})

module _ {LogId : Type 0} where
  -- A written batch, with what the write returned.
  abbrev pub written :
      (Cause → StorageError LogId) → MemoryBackend × Outcome (Unit {0}) → Update LogId
  written f r = (r.0, map_err f r.1)

  -- A flush after a write that went well.
  abbrev pub then_flush : (Cause → StorageError LogId) → Update LogId → Update LogId
  then_flush f u = (u.0, (do u.1; map_err f (Memory.flush u.0)))

  -- `write_batch` of a batch that may not have been built.
  abbrev pub write_built :
      (Cause → StorageError LogId) → MemoryBackend → Stored LogId WriteBatch → Update LogId
  write_built f b (ok batch) = written f (Memory.write_batch b batch)
  write_built f b (err e) = (b, err e)
  write_built f b panicked = (b, panicked)

  -- A further step, where the one before went well.
  abbrev pub and_then : Update LogId → (MemoryBackend → Update LogId) → Update LogId
  and_then (b, ok u) next = next b
  and_then (b, err e) next = (b, err e)
  and_then (b, panicked) next = (b, panicked)

module _ {LogId Vote Entry : Type 0} (t : LogTypes LogId Vote Entry) where
  abbrev pub decode_vote : Option Bytes → Stored LogId (Option Vote)
  decode_vote none = ok none
  decode_vote (some bytes) = do vote ← coded storage_err (t.deserialize_vote bytes); ok (some vote)

  unfoldable pub read_vote : MemoryBackend → Stored LogId (Option Vote)
  read_vote b = do
    bytes ← map_err storage_err (Memory.get b (meta_key meta_vote))
    decode_vote bytes

  abbrev pub decode_log_id : ErrorSubject LogId → Option Bytes → Stored LogId (Option LogId)
  decode_log_id subject none = ok none
  decode_log_id subject (some bytes) =
      coded (storage_err_ctx subject ErrorVerb.read) (t.deserialize_log_id bytes)

  unfoldable pub read_meta_log_id :
      MemoryBackend → ℕ → ErrorSubject LogId → Stored LogId (Option LogId)
  read_meta_log_id b tag subject = do
    bytes ← map_err (storage_err_ctx subject ErrorVerb.read) (Memory.get b (meta_key tag))
    decode_log_id subject bytes

  -- The loop over the scan: the first row that cannot be read ends it.
  abbrev pub decode_entries : List KeyValue → Stored LogId (List Entry)
  decode_entries [] = ok []
  decode_entries (kv ∷ kvs) = do
    entry ← coded storage_err (t.deserialize_entry kv.value)
    entries ← decode_entries kvs
    ok (entry ∷ entries)

  abbrev pub last_of : Option LogId → List KeyValue → Stored LogId (Option LogId)
  last_of last [] = ok last
  last_of last (kv ∷ kvs) = coded storage_err (t.deserialize_entry kv.value) >>= λ entry.
      last_of (some (t.get_log_id entry)) kvs

  unfoldable pub last_log_id_on_disk : MemoryBackend → Stored LogId (Option LogId)
  last_log_id_on_disk b = do
    kvs ← map_err storage_err (Memory.scan b (log_range unbounded unbounded))
    last_of none kvs

  unfoldable pub try_get_log_entries : MemoryBackend → Bound → Bound → Stored LogId (List Entry)
  try_get_log_entries b start_bound end_bound = do
    kvs ← map_err storage_err (Memory.scan b (log_range start_bound end_bound))
    decode_entries kvs

  abbrev pub or_purged : Option LogId → Option LogId → Option LogId
  or_purged none purged = purged
  or_purged (some last) purged = some last

  unfoldable pub get_log_state : MemoryBackend → Stored LogId (LogState LogId)
  get_log_state b = do
    last_purged ← read_meta_log_id b meta_purged ErrorSubject.store
    last_entry ← last_log_id_on_disk b
    ok (record { last_purged_log_id = last_purged; last_log_id = or_purged last_entry last_purged })

  abbrev pub vote_err : Cause → StorageError LogId
  vote_err = storage_err_ctx ErrorSubject.vote ErrorVerb.write

  unfoldable pub save_vote : MemoryBackend → Vote → Update LogId
  save_vote b vote = then_flush vote_err (
      write_built vote_err b (do
        bytes ← coded vote_err (t.serialize_vote vote)
        ok (WriteBatch.put WriteBatch.new (meta_key meta_vote) bytes)))

  unfoldable pub save_committed : MemoryBackend → Option LogId → Update LogId
  save_committed b committed = write_built storage_err b (do
    bytes ←
        coded (storage_err_ctx ErrorSubject.store ErrorVerb.write) (t.serialize_log_id committed)
    ok (WriteBatch.put WriteBatch.new (meta_key meta_committed) bytes))

  unfoldable pub read_committed : MemoryBackend → Stored LogId (Option LogId)
  read_committed b = read_meta_log_id b meta_committed ErrorSubject.store

  -- The loop of `append`, which fills the batch.
  unfoldable pub stage : WriteBatch → List Entry → Stored LogId WriteBatch
  stage batch [] = ok batch
  stage batch (entry ∷ entries) =
      let log_id = t.get_log_id entry in
      coded (storage_err_ctx (ErrorSubject.log log_id) ErrorVerb.write) (t.serialize_entry entry)
      >>= λ value. stage (WriteBatch.put batch (log_key (t.index log_id)) value) entries

  abbrev pub logs_err : Cause → StorageError LogId
  logs_err = storage_err_ctx ErrorSubject.logs ErrorVerb.write

  -- Nothing is written for an empty batch. The callback is completed exactly where this is `ok`.
  abbrev pub append_staged : MemoryBackend → Stored LogId WriteBatch → Update LogId
  append_staged b (ok batch) =
      if WriteBatch.is_empty batch
      then (b, ok tt)
      else then_flush logs_err (written logs_err (Memory.write_batch b batch))
  append_staged b (err e) = (b, err e)
  append_staged b panicked = (b, panicked)

  unfoldable pub append : MemoryBackend → List Entry → Update LogId
  append b entries = append_staged b (stage WriteBatch.new entries)

  unfoldable pub truncate : MemoryBackend → LogId → Update LogId
  truncate b log_id =
      let f = storage_err_ctx (ErrorSubject.log log_id) ErrorVerb.delete in
      then_flush f (
        written f (
          Memory.write_batch b (
            WriteBatch.delete_range WriteBatch.new (log_key (t.index log_id))
              ((log_prefix + 1) ∷ []))))

  -- The assertion that the purge pointer does not move back.
  abbrev pub check_purge : LogId → Option LogId → Stored LogId (Unit {0})
  check_purge log_id none = ok tt
  check_purge log_id (some prev) = if leb (t.index prev) (t.index log_id) then ok tt else panicked

  abbrev pub purge_err : Cause → StorageError LogId
  purge_err = storage_err_ctx ErrorSubject.logs ErrorVerb.delete

  abbrev pub delete_purged : LogId → MemoryBackend → Update LogId
  delete_purged log_id b = then_flush purge_err (
      written purge_err (
        Memory.write_batch b (
          WriteBatch.delete_range WriteBatch.new (log_prefix ∷ [])
            (log_key (saturating_incr (t.index log_id))))))

  abbrev pub write_purged : MemoryBackend → LogId → Update LogId
  write_purged b log_id =
      let f = storage_err_ctx ErrorSubject.store ErrorVerb.write in
      write_built f b (do
        bytes ← coded f (t.serialize_log_id (some log_id))
        ok (WriteBatch.put WriteBatch.new (meta_key meta_purged) bytes))

  -- The pointer is written first, in a batch of its own.
  unfoldable pub purge : MemoryBackend → LogId → Update LogId
  purge b log_id =
      and_then
        (b, (do prev ← read_meta_log_id b meta_purged ErrorSubject.store; check_purge log_id prev))
        (λ b. and_then (write_purged b log_id) (delete_purged log_id))
