-- ===== src/Raft/LogStore/Writes.antt =====
-- What each write of the log store leaves on disk.
use mathlib.Core.List.{append_assoc, append-nil}
use aresadb.Prelude.{
  ℕ, ◌+◌, ◌<◌, ◌≡◌, refl, sym, ap, ◌∙◌, false, Option, none, some, List, [], ◌∷◌, ◌++◌, ◌==◌, leb,
  if◌then◌else◌, All, arith,
}
use aresadb.Ord.Bytes.{Bytes, bytes_ord}
use aresadb.Map
use aresadb.BigEndian.{u64_mod}
use aresadb.Core.WriteBatch
use aresadb.Core.WriteBatch.{WriteBatch}
use aresadb.Core.WriteBatch.Op.{WriteOp, put, delete_range}
use aresadb.Core.Memory
use aresadb.Core.Memory.{MemoryBackend}
use aresadb.Core.Memory.Batch.{View, view_op, view_ops, InOrder, write_batch-view}
use aresadb.Core.Error.{Outcome}
use aresadb.Raft.Error.{
  ok, Cause, StorageError, storage_err, storage_err_ctx, ErrorSubject, ErrorVerb,
}
use aresadb.Raft.LogStore.{
  LogTypes, Update, log_key, meta_key, meta_vote, meta_committed, meta_purged, log_prefix, stage,
  append, truncate, save_vote, save_committed, written, then_flush, append_staged, logs_err,
  vote_err, saturating_incr, u64_max,
}
use aresadb.Raft.LogStore.Ranges.{eq?-log_key, le?-log_key, lt?-log_key, log_key-inside}
use aresadb.Raft.LogStore.Spec.{
  IsLawful, Log, Op, index_of, put_all, after, Fits, entry_row, vote_row, log_id_row, Implements,
}

-- A store after a batch, given how its lookups have changed.
abbrev pub Now : MemoryBackend → View → Type 0
Now b f = (b.is_closed ≡ false) × ((j : Bytes) → Map.get j b.contents ≡ f j)

flush_open : (b : MemoryBackend) → b.is_closed ≡ false → Memory.flush b ≡ Outcome.ok tt
unfolding Memory.flush Memory.ensure_open
flush_open b o = simp o

module _ {LogId : Type 0} (f g : Cause → StorageError LogId) where
  pub written-Now :
      (b : MemoryBackend) (batch : WriteBatch)
      → b.is_closed ≡ false
      → All InOrder batch.ops
      → ((written f (Memory.write_batch b batch)).1 ≡ ok tt)
        × Now
            (written f (Memory.write_batch b batch)).0
            (view_ops batch.ops (λ k. Map.get k b.contents))
  written-Now b batch o h = let (r, c, v) = write_batch-view b batch o h in (rw r refl, (c, v))

  pub flushed-Now :
      (b : MemoryBackend) (batch : WriteBatch)
      → b.is_closed ≡ false
      → All InOrder batch.ops
      → ((then_flush g (written f (Memory.write_batch b batch))).1 ≡ ok tt)
        × Now
            (then_flush g (written f (Memory.write_batch b batch))).0
            (view_ops batch.ops (λ k. Map.get k b.contents))
  flushed-Now b batch o h =
      let (r, c, v) = write_batch-view b batch o h in
      (rw (r, flush_open (Memory.write_batch b batch).0 c) refl, (c, v))

module _ {LogId Vote Entry : Type 0} (t : LogTypes LogId Vote Entry) (law : IsLawful t) where
  abbrev rows : List Entry → List WriteOp
  rows [] = []
  rows (entry ∷ entries) = put (log_key (index_of t entry)) (law.entry_bytes entry).0 ∷ rows entries

  rows-InOrder : (entries : List Entry) → All InOrder (rows entries)
  rows-InOrder [] = tt
  rows-InOrder (entry ∷ entries) = (tt, rows-InOrder entries)

  stage_lem :
      (batch : WriteBatch) (entries : List Entry)
      → stage t batch entries ≡ ok (record { ops = batch.ops ++ rows entries })
  unfolding stage WriteBatch.put WriteBatch.push
  stage_lem batch [] = ap (λ ops. ok (record { ops = ops })) (sym (append-nil batch.ops))
  stage_lem batch (entry ∷ entries) =
      let row = put (log_key (index_of t entry)) (law.entry_bytes entry).0 in
      rw (law.entry_bytes entry).1 (
        stage_lem (record { ops = batch.ops ++ row ∷ [] }) entries
        ∙ ap (λ ops. ok (record { ops = ops })) (append_assoc batch.ops (row ∷ []) (rows entries)))

  -- What the rows show at an index, and at a key of the other kind.
  rows-entry :
      (entries : List Entry) (f : View) (e : ℕ → Option Entry) (i : ℕ)
      → All (λ entry. index_of t entry < u64_mod) entries
      → ((j : ℕ) → j < u64_mod → entry_row t (f (log_key j)) ≡ some (e j))
      → i < u64_mod
      → entry_row t (view_ops (rows entries) f (log_key i)) ≡ some (put_all t entries e i)
  rows-entry [] f e i u h k = h i k
  rows-entry (entry ∷ entries) f e i u h k =
      let (x, s, d) = law.entry_bytes entry in
      rows-entry entries (view_op (put (log_key (index_of t entry)) x) f)
        (λ j. if index_of t entry == j then some entry else e j) i u.1
        (λ j l. ground (arith, eq?-log_key (index_of t entry) j u.0 l, h j l, d)) k

  rows-other :
      (entries : List Entry) (f : View) (tag : ℕ)
      → view_ops (rows entries) f (meta_key tag) ≡ f (meta_key tag)
  unfolding log_key
  rows-other [] f tag = refl
  rows-other (entry ∷ entries) f tag =
      rows-other entries (view_op (put (log_key (index_of t entry)) (law.entry_bytes entry).0) f)
        tag

  -- What a call must do: succeed, and leave a store that implements the new log.
  abbrev pub Does : Update LogId → Log LogId Vote Entry → Type 0
  Does u a = (u.1 ≡ ok tt) × Implements t u.0 a

  pub implement :
      (b : MemoryBackend) (f : View) (a : Log LogId Vote Entry)
      → Now b f
      → ((i : ℕ) → i < u64_mod → entry_row t (f (log_key i)) ≡ some (a.entries i))
      → vote_row t (f (meta_key meta_vote)) ≡ some a.vote
      → log_id_row t (f (meta_key meta_committed)) ≡ some a.committed
      → log_id_row t (f (meta_key meta_purged)) ≡ some a.purged
      → Implements t b a
  implement b f a now e v c p = record {
    is_open = now.0;
    entries = λ i u. rw (now.1 (log_key i)) (e i u);
    vote = rw (now.1 (meta_key meta_vote)) v;
    committed = rw (now.1 (meta_key meta_committed)) c;
    purged = rw (now.1 (meta_key meta_purged)) p;
  }

  pub append_none : (b : MemoryBackend) → append t b [] ≡ (b, ok tt)
  unfolding append stage WriteBatch.is_empty
  append_none b = refl

  -- What a deletion from an index on, and one up to an index, leave.
  cut_from :
      (f : View) (e : ℕ → Option Entry) (k j : ℕ)
      → k < u64_mod
      → j < u64_mod
      → entry_row t (f (log_key j)) ≡ some (e j)
      → entry_row t (view_op (delete_range (log_key k) ((log_prefix + 1) ∷ [])) f (log_key j))
        ≡ some (if leb k j then none else e j)
  cut_from f e k j h l r = ground (arith, le?-log_key k j h l, log_key-inside j)

  pub cut_to :
      (f : View) (e : ℕ → Option Entry) (k j : ℕ)
      → k < u64_max
      → j < u64_mod
      → entry_row t (f (log_key j)) ≡ some (e j)
      → entry_row t
          (view_op (delete_range (log_prefix ∷ []) (log_key (saturating_incr k))) f (log_key j))
        ≡ some (if leb j k then none else e j)
  cut_to f e k j h l r =
      ground (arith, lt?-log_key j (saturating_incr k) l (omega arith), log_key-inside j)

  pub append-Does :
      (b : MemoryBackend) (a : Log LogId Vote Entry) (entries : List Entry)
      → Implements t b a
      → Fits t (Op.append entries) a
      → Does (append t b entries) (after t (Op.append entries) a)
  unfolding append WriteBatch.is_empty
  append-Does b a [] i u = rw (append_none b) (
    refl,
    record {
      is_open = i.is_open;
      entries = i.entries;
      vote = i.vote;
      committed = i.committed;
      purged = i.purged;
    },
  )
  append-Does b a (entry ∷ entries) i u =
      let batch : WriteBatch = record { ops = rows (entry ∷ entries) } in
      let (r, now) =
        flushed-Now (logs_err t) (logs_err t) b batch i.is_open (rows-InOrder (entry ∷ entries)) in
      let view : View = λ k. Map.get k b.contents in
      rw (stage_lem WriteBatch.new (entry ∷ entries)) (
        r,
        implement (append_staged t b (ok batch)).0 (view_ops batch.ops view)
            (after t (Op.append (entry ∷ entries)) a) now
            (λ j k. rows-entry (entry ∷ entries) view a.entries j u i.entries k)
            (rw (rows-other (entry ∷ entries) view meta_vote) i.vote)
            (rw (rows-other (entry ∷ entries) view meta_committed) i.committed)
            (rw (rows-other (entry ∷ entries) view meta_purged) i.purged),
      )

  pub truncate-Does :
      (b : MemoryBackend) (a : Log LogId Vote Entry) (log_id : LogId)
      → Implements t b a
      → Fits t (Op.truncate log_id) a
      → Does (truncate t b log_id) (after t (Op.truncate log_id) a)
  unfolding truncate WriteBatch.delete_range WriteBatch.push log_key
  truncate-Does b a log_id i u =
      let f = storage_err_ctx (ErrorSubject.log log_id) ErrorVerb.delete in
      let batch : WriteBatch = record {
        ops = delete_range (log_key (t.index log_id)) ((log_prefix + 1) ∷ []) ∷ [];
      } in
      let (r, now) = flushed-Now f f b batch i.is_open (refl, tt) in
      (
        r,
        implement (truncate t b log_id).0 (view_ops batch.ops (λ k. Map.get k b.contents))
            (after t (Op.truncate log_id) a) now
            (λ j k.
              cut_from (λ k. Map.get k b.contents) a.entries (t.index log_id) j u k (i.entries j k))
            i.vote i.committed i.purged,
      )

  pub save_vote-Does :
      (b : MemoryBackend) (a : Log LogId Vote Entry) (vote : Vote)
      → Implements t b a
      → Does (save_vote t b vote) (after t (Op.save_vote vote) a)
  unfolding save_vote WriteBatch.put WriteBatch.push log_key
  save_vote-Does b a vote i =
      let (x, s, d) = law.vote_bytes vote in
      let batch : WriteBatch = record { ops = put (meta_key meta_vote) x ∷ [] } in
      let (r, now) = flushed-Now (vote_err t) (vote_err t) b batch i.is_open (tt, tt) in
      rw s (
        r,
        implement (then_flush (vote_err t) (written (vote_err t) (Memory.write_batch b batch))).0
            (view_ops batch.ops (λ k. Map.get k b.contents)) (after t (Op.save_vote vote) a) now
            i.entries (rw d refl) i.committed i.purged,
      )

  pub save_committed-Does :
      (b : MemoryBackend) (a : Log LogId Vote Entry) (committed : Option LogId)
      → Implements t b a
      → Does (save_committed t b committed) (after t (Op.save_committed committed) a)
  unfolding save_committed WriteBatch.put WriteBatch.push log_key
  save_committed-Does b a committed i =
      let (x, s, d) = law.log_id_bytes committed in
      let batch : WriteBatch = record { ops = put (meta_key meta_committed) x ∷ [] } in
      let (r, now) = written-Now storage_err storage_err b batch i.is_open (tt, tt) in
      rw s (
        r,
        implement (written {LogId = LogId} storage_err (Memory.write_batch b batch)).0
            (view_ops batch.ops (λ k. Map.get k b.contents))
            (after t (Op.save_committed committed) a) now i.entries i.vote (rw d refl) i.purged,
      )
