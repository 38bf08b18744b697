-- ===== src/Raft/LogStore/Refines.antt =====
-- Every call of the log store does on disk what it promises of the log.
use aresadb.Prelude.{◌≡◌, refl, ap, ◌∙◌, none, List, [], ◌∷◌, arith}
use aresadb.Map
use aresadb.Ord.Bytes.{bytes_ord}
use aresadb.Core.Memory
use aresadb.Core.Memory.{MemoryBackend}
use aresadb.Raft.Error.{ok, ErrorSubject}
use aresadb.Raft.LogStore.{
  LogTypes, meta_committed, meta_purged, read_vote, read_committed, read_meta_log_id,
}
use aresadb.Raft.LogStore.Spec.{
  IsLawful, Log, Op, run_op, after, Fits, Implements, run, after_all, AllFit, empty_log, last_vote,
  last_committed, last_purged,
}
use aresadb.Raft.LogStore.Writes.{
  Does, append-Does, truncate-Does, save_vote-Does, save_committed-Does,
}
use aresadb.Raft.LogStore.Purge.{purge-Does, read_meta_log_id_lem}

module _ {LogId Vote Entry : Type 0} (t : LogTypes LogId Vote Entry) (law : IsLawful t) where
  pub run_op-Does :
      (b : MemoryBackend) (op : Op LogId Vote Entry) (a : Log LogId Vote Entry)
      → Implements t b a
      → Fits t op a
      → Does t law (run_op t b op) (after t op a)
  run_op-Does b (Op.append entries) a i u = append-Does t law b a entries i u
  run_op-Does b (Op.truncate log_id) a i u = truncate-Does t law b a log_id i u
  run_op-Does b (Op.purge log_id) a i u = purge-Does t law b a log_id i u
  run_op-Does b (Op.save_vote vote) a i u = save_vote-Does t law b a vote i
  run_op-Does b (Op.save_committed committed) a i u = save_committed-Does t law b a committed i

  -- Any sequence of calls that fit, on a store whose rows are a log, leaves the rows of the log that
  -- the calls make of it: appended entries replace those of their indexes, a truncation drops the
  -- entries from its index on, a purge those up to its index and moves the purge pointer, and the
  -- vote and the committed id are the last ones saved. bincode reads back what it wrote.
  pub run-Implements :
      (b : MemoryBackend) (ops : List (Op LogId Vote Entry)) (a : Log LogId Vote Entry)
      → Implements t b a
      → AllFit t ops a
      → Implements t (run t b ops) (after_all t ops a)
  run-Implements b [] a i u = i
  run-Implements b (op ∷ ops) a i u =
      run-Implements (run_op t b op).0 ops (after t op a) (run_op-Does b op a i u.0).1 u.1

  reads-Implements :
      (b : MemoryBackend) (a : Log LogId Vote Entry)
      → Implements t b a
      → (read_vote t b ≡ ok a.vote)
        × (read_committed t b ≡ ok a.committed)
        × (read_meta_log_id t b meta_purged ErrorSubject.store ≡ ok a.purged)
  unfolding read_vote read_committed Memory.get Memory.ensure_open
  reads-Implements b a i = (
    ground (arith, i.is_open, i.vote),
    read_meta_log_id_lem t law b meta_committed ErrorSubject.store a.committed i.is_open
        i.committed,
    read_meta_log_id_lem t law b meta_purged ErrorSubject.store a.purged i.is_open i.purged,
  )

  empty_log-Implements : Implements t Memory.new empty_log
  unfolding Map.get
  empty_log-Implements = record {
    is_open = refl;
    entries = λ i u. refl;
    vote = refl;
    committed = refl;
    purged = refl;
  }

  after_all-vote :
      (ops : List (Op LogId Vote Entry)) (a : Log LogId Vote Entry)
      → (after_all t ops a).vote ≡ last_vote a.vote ops
  after_all-vote [] a = refl
  after_all-vote (Op.append entries ∷ ops) a = after_all-vote ops (after t (Op.append entries) a)
  after_all-vote (Op.truncate log_id ∷ ops) a = after_all-vote ops (after t (Op.truncate log_id) a)
  after_all-vote (Op.purge log_id ∷ ops) a = after_all-vote ops (after t (Op.purge log_id) a)
  after_all-vote (Op.save_vote vote ∷ ops) a = after_all-vote ops (after t (Op.save_vote vote) a)
  after_all-vote (Op.save_committed committed ∷ ops) a =
      after_all-vote ops (after t (Op.save_committed committed) a)

  after_all-committed :
      (ops : List (Op LogId Vote Entry)) (a : Log LogId Vote Entry)
      → (after_all t ops a).committed ≡ last_committed a.committed ops
  after_all-committed [] a = refl
  after_all-committed (Op.append entries ∷ ops) a =
      after_all-committed ops (after t (Op.append entries) a)
  after_all-committed (Op.truncate log_id ∷ ops) a =
      after_all-committed ops (after t (Op.truncate log_id) a)
  after_all-committed (Op.purge log_id ∷ ops) a =
      after_all-committed ops (after t (Op.purge log_id) a)
  after_all-committed (Op.save_vote vote ∷ ops) a =
      after_all-committed ops (after t (Op.save_vote vote) a)
  after_all-committed (Op.save_committed committed ∷ ops) a =
      after_all-committed ops (after t (Op.save_committed committed) a)

  after_all-purged :
      (ops : List (Op LogId Vote Entry)) (a : Log LogId Vote Entry)
      → (after_all t ops a).purged ≡ last_purged a.purged ops
  after_all-purged [] a = refl
  after_all-purged (Op.append entries ∷ ops) a =
      after_all-purged ops (after t (Op.append entries) a)
  after_all-purged (Op.truncate log_id ∷ ops) a =
      after_all-purged ops (after t (Op.truncate log_id) a)
  after_all-purged (Op.purge log_id ∷ ops) a = after_all-purged ops (after t (Op.purge log_id) a)
  after_all-purged (Op.save_vote vote ∷ ops) a =
      after_all-purged ops (after t (Op.save_vote vote) a)
  after_all-purged (Op.save_committed committed ∷ ops) a =
      after_all-purged ops (after t (Op.save_committed committed) a)

  -- On a new backend, after any sequence of calls that fit, the reads give the vote and the committed
  -- id saved last, and the id purged up to last, each none if no such call was made. bincode reads
  -- back what it wrote.
  pub run-reads :
      (ops : List (Op LogId Vote Entry))
      → AllFit t ops empty_log
      → (read_vote t (run t Memory.new ops) ≡ ok (last_vote none ops))
        × (read_committed t (run t Memory.new ops) ≡ ok (last_committed none ops))
        × (read_meta_log_id t (run t Memory.new ops) meta_purged ErrorSubject.store
            ≡ ok (last_purged none ops))
  run-reads ops u =
      let (vote, committed, purged) =
        reads-Implements (run t Memory.new ops) (after_all t ops empty_log)
          (run-Implements Memory.new ops empty_log empty_log-Implements u) in
      (
        vote ∙ ap ok (after_all-vote ops empty_log),
        committed ∙ ap ok (after_all-committed ops empty_log),
        purged ∙ ap ok (after_all-purged ops empty_log),
      )
