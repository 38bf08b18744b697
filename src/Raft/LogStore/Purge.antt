-- ===== src/Raft/LogStore/Purge.antt =====
-- The two writes of a purge.
use aresadb.Prelude.{
  ℕ, ◌<◌, ◌≡◌, refl, false, Option, none, some, [], ◌∷◌, leb, if◌then◌else◌, arith,
}
use aresadb.Ord.Bytes.{bytes_ord}
use aresadb.Map
use aresadb.Core.WriteBatch
use aresadb.Core.WriteBatch.{WriteBatch}
use aresadb.Core.WriteBatch.Op.{put, delete_range}
use aresadb.Core.Memory
use aresadb.Core.Memory.{MemoryBackend}
use aresadb.Core.Memory.Batch.{view_ops}
use aresadb.Raft.Error.{ok, err, panicked, ◌>>=◌, storage_err_ctx, ErrorSubject, ErrorVerb}
use aresadb.Raft.LogStore.{
  LogTypes, Update, log_key, meta_key, meta_purged, log_prefix, purge, written, and_then,
  delete_purged, write_purged, saturating_incr, u64_max, purge_err, check_purge, read_meta_log_id,
}
use aresadb.Raft.LogStore.Spec.{IsLawful, Log, Op, after, Fits, Advances, log_id_row, Implements}
use aresadb.Raft.LogStore.Writes.{Does, written-Now, flushed-Now, implement, cut_to}

module _ {LogId Vote Entry : Type 0} (t : LogTypes LogId Vote Entry) (law : IsLawful t) where
  -- The two batches of a purge.
  write_purged-Does :
      (b : MemoryBackend) (a : Log LogId Vote Entry) (log_id : LogId)
      → Implements t b a
      → Does t law (write_purged t b log_id) (record a { purged = some log_id })
  unfolding WriteBatch.put WriteBatch.push log_key
  write_purged-Does b a log_id i =
      let f = storage_err_ctx ErrorSubject.store ErrorVerb.write in
      let (x, s, d) = law.log_id_bytes (some log_id) in
      let batch : WriteBatch = record { ops = put (meta_key meta_purged) x ∷ [] } in
      let (r, now) = written-Now f f b batch i.is_open (tt, tt) in
      rw s (
        r,
        implement t law (written f (Memory.write_batch b batch)).0
            (view_ops batch.ops (λ k. Map.get k b.contents)) (record a { purged = some log_id }) now
            i.entries i.vote i.committed (rw d refl),
      )

  delete_purged-Does :
      (b : MemoryBackend) (a : Log LogId Vote Entry) (log_id : LogId)
      → Implements t b a
      → t.index log_id < u64_max
      → Does t law
          (delete_purged t log_id b)
          (record a { entries = λ i. if leb i (t.index log_id) then none else a.entries i })
  unfolding WriteBatch.delete_range WriteBatch.push log_key
  delete_purged-Does b a log_id i u =
      let k = t.index log_id in
      let batch : WriteBatch = record {
        ops = delete_range (log_prefix ∷ []) (log_key (saturating_incr k)) ∷ [];
      } in
      let (r, now) = flushed-Now (purge_err t) (purge_err t) b batch i.is_open (refl, tt) in
      (
        r,
        implement t law (delete_purged t log_id b).0
            (view_ops batch.ops (λ k. Map.get k b.contents))
            (record a { entries = λ j. if leb j k then none else a.entries j }) now
            (λ j l. cut_to t law (λ k. Map.get k b.contents) a.entries k j u l (i.entries j l))
            i.vote i.committed i.purged,
      )

  pub read_meta_log_id_lem :
      (b : MemoryBackend) (tag : ℕ) (subject : ErrorSubject LogId) (x : Option LogId)
      → b.is_closed ≡ false
      → log_id_row t (Map.get (meta_key tag) b.contents) ≡ some x
      → read_meta_log_id t b tag subject ≡ ok x
  unfolding read_meta_log_id Memory.get Memory.ensure_open
  read_meta_log_id_lem b tag subject x o h = ground arith

  and_then-Does :
      (u : Update LogId) (next : MemoryBackend → Update LogId) (a a' : Log LogId Vote Entry)
      → Does t law u a
      → ((b : MemoryBackend) → Implements t b a → Does t law (next b) a')
      → Does t law (and_then u next) a'
  and_then-Does (b, ok v) next a a' d step = step b d.1
  and_then-Does (b, err e) next a a' d step = absurd (cc d.0)
  and_then-Does (b, panicked) next a a' d step = absurd (cc d.0)

  check_purge-Advances :
      (log_id : LogId) (prev : Option LogId)
      → Advances t prev log_id
      → check_purge t log_id prev ≡ ok tt
  check_purge-Advances log_id none h = refl
  check_purge-Advances log_id (some prev) h = ground arith

  pub purge-Does :
      (b : MemoryBackend) (a : Log LogId Vote Entry) (log_id : LogId)
      → Implements t b a
      → Fits t (Op.purge log_id) a
      → Does t law (purge t b log_id) (after t (Op.purge log_id) a)
  unfolding purge
  purge-Does b a log_id i u =
      let checked : (read_meta_log_id t b meta_purged ErrorSubject.store >>= λ prev.
      check_purge t log_id prev)
          ≡ ok tt =
        rw (read_meta_log_id_lem b meta_purged ErrorSubject.store a.purged i.is_open i.purged)
          (check_purge-Advances log_id a.purged u.1) in
      and_then-Does
        (
          b,
          read_meta_log_id t b meta_purged ErrorSubject.store >>= λ prev. check_purge t log_id prev,
        )
        (λ b. and_then (write_purged t b log_id) (delete_purged t log_id)) a
        (after t (Op.purge log_id) a) (checked, i)
        (λ b i.
          and_then-Does (write_purged t b log_id) (delete_purged t log_id)
            (record a { purged = some log_id }) (after t (Op.purge log_id) a)
            (write_purged-Does b a log_id i)
            (λ b i. delete_purged-Does b (record a { purged = some log_id }) log_id i u.0))
