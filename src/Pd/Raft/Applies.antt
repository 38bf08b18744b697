-- ===== src/Pd/Raft/Applies.antt =====
-- Entries applied through the adapter, command by command.
use aresadb.Prelude.{◌≡◌, refl, ap, ◌∙◌, subst, some, List, [], ◌∷◌}
use aresadb.Ord.Bytes.{bytes_ord}
use aresadb.Core.WriteBatch
use aresadb.Core.WriteBatch.{WriteBatch}
use aresadb.Raft.Error.{ok, ◌>>=◌}
use aresadb.Pd.Error.{Result, CatalogError}
use aresadb.Pd.Command.{PdCommand, PdResponse}
use aresadb.Pd.Catalog.State.{Catalog}
use aresadb.Pd.Catalog.Apply
use aresadb.Pd.Catalog.Valid.{IsValid}
use aresadb.Pd.Catalog.Invariant.{HasRoom}
use aresadb.Pd.Catalog.History.{apply-err, apply-no_panic}
use aresadb.Pd.StateMachine.{apply_with_meta, apply_meta_only}
use aresadb.Pd.StateMachine.Nodes.{NodeFits}
use aresadb.Pd.StateMachine.Disk.{apply_inner-IsInSync, apply_inner-rejected}
use aresadb.Pd.StateMachine.Progress.{apply_inner-answers}
use aresadb.Pd.StateMachine.MetaRow.{
  commit-row, apply_meta_only-Mirrors, apply_meta_only-MirrorsNodes, apply_inner-row,
}
use aresadb.Pd.Raft.{
  PersistedPdMeta, PdRaftStateMachine, Entry, EntryPayload, blank, normal, membership, RaftTypes,
  Update, applied_meta, apply, apply_entry, apply_payload, apply_rest, write_meta, write_command,
  meta_to_bytes,
}
use aresadb.Pd.Raft.Spec.{
  HasCodec, catalog_after, PayloadHasRoom, PayloadAnswers, after, meta_after, AllHaveRoom,
  AllAnswered, Holds,
}

module _ {LogId StoredMembership Membership : Type 0}
    (t : RaftTypes LogId StoredMembership Membership) (codec : HasCodec t) where
  write_meta-Holds :
      (sm : PdRaftStateMachine LogId StoredMembership) (c : Catalog)
      (m n : PersistedPdMeta LogId StoredMembership) (resp : PdResponse)
      → Holds t sm c m
      → let u = write_meta t sm n resp (meta_to_bytes t n) in (u.1 ≡ ok resp) × Holds t u.0 c n
  unfolding apply_meta_only
  write_meta-Holds sm c m n resp h =
      let (x, s, d) = codec.meta_bytes n in
      let (r, o, v) = commit-row sm.inner.store WriteBatch.new x h.is_open tt in
      rw (s, r)
        (
          refl,
          record {
            in_sync = record {
              valid = h.in_sync.valid;
              nodes_own = h.in_sync.nodes_own;
              mirrors = apply_meta_only-Mirrors t.rows sm.inner x h.is_open h.in_sync.mirrors;
              mirrors_nodes =
                  apply_meta_only-MirrorsNodes t.rows sm.inner x h.is_open h.in_sync.mirrors_nodes;
            };
            is_open = o;
            catalog = h.catalog;
            meta = refl;
            row = rw v d;
          },
        )

  -- A command that the catalog accepts, and one that it rejects.
  accepted-Holds :
      (sm : PdRaftStateMachine LogId StoredMembership) (c : Catalog)
      (m n : PersistedPdMeta LogId StoredMembership) (cmd : PdCommand) (resp : PdResponse)
      → Holds t sm c m
      → HasRoom c cmd
      → NodeFits cmd
      → (Apply.apply c cmd).1 ≡ Result.ok resp
      → let u = write_command t sm n cmd (meta_to_bytes t n) in
        (u.1 ≡ ok resp) × Holds t u.0 (Apply.apply c cmd).0 n
  unfolding apply_with_meta
  accepted-Holds sm c m n cmd resp h room fits a =
      let (x, s, d) = codec.meta_bytes n in
      let here : sm.inner.catalog ≡ c = h.catalog in
      let room' : HasRoom sm.inner.catalog cmd = rw here room in
      let a' : (Apply.apply sm.inner.catalog cmd).1 ≡ Result.ok resp = rw here a in
      let done =
        apply_inner-answers t.rows codec.rows sm.inner cmd (some x) resp h.in_sync.valid room'
          h.is_open a' in
      let (e, same, synced) =
        apply_inner-IsInSync t.rows sm.inner cmd (some x) resp h.in_sync room' fits done in
      let (o, v) =
        apply_inner-row t.rows codec.rows sm.inner cmd resp x h.in_sync.valid room' h.is_open a' in
      rw (s, done)
        (
          refl,
          record {
            in_sync = synced;
            is_open = o;
            catalog = same ∙ ap (λ c. (Apply.apply c cmd).0) here;
            meta = refl;
            row = rw v d;
          },
        )

  rejected-Holds :
      (sm : PdRaftStateMachine LogId StoredMembership) (c : Catalog)
      (m n : PersistedPdMeta LogId StoredMembership) (cmd : PdCommand) (e : CatalogError)
      → Holds t sm c m
      → (Apply.apply c cmd).1 ≡ Result.err e
      → let u = write_command t sm n cmd (meta_to_bytes t n) in
        (u.1 ≡ ok (PdResponse.error (t.error_text e))) × Holds t u.0 (Apply.apply c cmd).0 n
  unfolding apply_with_meta
  rejected-Holds sm c m n cmd e h a =
      let (x, s, d) = codec.meta_bytes n in
      let a' : (Apply.apply sm.inner.catalog cmd).1 ≡ Result.err e = rw h.catalog a in
      rw (s, apply_inner-rejected t.rows sm.inner cmd (some x) e a', apply-err c cmd e a)
        (write_meta-Holds sm c m n (PdResponse.error (t.error_text e)) h)

  -- What applying one entry does.
  abbrev Applies :
      Update t PdResponse
      → Catalog
      → EntryPayload Membership
      → PersistedPdMeta LogId StoredMembership
      → Type 0
  Applies u c payload n =
      (resp : PdResponse) × (u.1 ≡ ok resp)
      × PayloadAnswers t c payload resp
      × Holds t u.0 (catalog_after t c payload) n

  command-Applies :
      (sm : PdRaftStateMachine LogId StoredMembership) (c : Catalog)
      (m n : PersistedPdMeta LogId StoredMembership) (cmd : PdCommand) (r : Result PdResponse)
      → Holds t sm c m
      → HasRoom c cmd
      → NodeFits cmd
      → (Apply.apply c cmd).1 ≡ r
      → Applies (write_command t sm n cmd (meta_to_bytes t n)) c (normal cmd) n
  command-Applies sm c m n cmd (Result.ok resp) h room fits a =
      let (done, k) = accepted-Holds sm c m n cmd resp h room fits a in (resp, done, rw a refl, k)
  command-Applies sm c m n cmd (Result.err e) h room fits a =
      let (done, k) = rejected-Holds sm c m n cmd e h a in
      (PdResponse.error (t.error_text e), done, rw a refl, k)
  command-Applies sm c m n cmd Result.panicked h room fits a =
      absurd (apply-no_panic c cmd (subst IsValid h.catalog h.in_sync.valid) a)

  payload-Applies :
      (sm : PdRaftStateMachine LogId StoredMembership) (c : Catalog)
      (m n : PersistedPdMeta LogId StoredMembership) (payload : EntryPayload Membership)
      → Holds t sm c m
      → PayloadHasRoom t c payload
      → Applies (apply_payload t sm n payload) c payload n
  payload-Applies sm c m n blank h room =
      let (done, k) = write_meta-Holds sm c m n PdResponse.done h in
      (PdResponse.done, done, refl, k)
  payload-Applies sm c m n (normal cmd) h room =
      command-Applies sm c m n cmd (Apply.apply c cmd).1 h room.0 room.1 refl
  payload-Applies sm c m n (membership mem) h room =
      let (done, k) = write_meta-Holds sm c m n PdResponse.done h in
      (PdResponse.done, done, refl, k)

  -- What the code makes of the metadata is what the entry says.
  applied_meta-meta_after :
      (m : PersistedPdMeta LogId StoredMembership) (log_id : LogId)
      (payload : EntryPayload Membership)
      → let entry : Entry LogId Membership = record { log_id = log_id; payload = payload } in
        applied_meta t m log_id payload ≡ meta_after t m (entry ∷ [])
  applied_meta-meta_after m log_id blank = refl
  applied_meta-meta_after m log_id (normal cmd) = refl
  applied_meta-meta_after m log_id (membership mem) = refl

  entry-Applies :
      (sm : PdRaftStateMachine LogId StoredMembership) (c : Catalog)
      (m : PersistedPdMeta LogId StoredMembership) (entry : Entry LogId Membership)
      → Holds t sm c m
      → PayloadHasRoom t c entry.payload
      → Applies (apply_entry t sm entry) c entry.payload (meta_after t m (entry ∷ []))
  unfolding apply_entry
  entry-Applies sm c m entry h room =
      let n = applied_meta t sm.meta entry.log_id entry.payload in
      subst (Applies (apply_payload t sm n entry.payload) c entry.payload)
        (ap (λ m. applied_meta t m entry.log_id entry.payload) h.meta
          ∙ applied_meta-meta_after m entry.log_id entry.payload)
        (payload-Applies sm c m n entry.payload h room)

  apply_rest_lem :
      (rest : PdRaftStateMachine LogId StoredMembership → Update t (List PdResponse))
      (u : Update t PdResponse) (resp : PdResponse)
      → u.1 ≡ ok resp
      → apply_rest t rest u ≡ ((rest u.0).0, (do responses ← (rest u.0).1; ok (resp ∷ responses)))
  apply_rest_lem rest u resp h = rw h refl

  apply_cons :
      (sm : PdRaftStateMachine LogId StoredMembership) (entry : Entry LogId Membership)
      (entries : List (Entry LogId Membership)) (resp : PdResponse)
      → (apply_entry t sm entry).1 ≡ ok resp
      → let rest = apply t (apply_entry t sm entry).0 entries in
        apply t sm (entry ∷ entries) ≡ (rest.0, (do responses ← rest.1; ok (resp ∷ responses)))
  unfolding apply
  apply_cons sm entry entries resp h =
      apply_rest_lem (λ sm. apply t sm entries) (apply_entry t sm entry) resp h

  -- Entries applied through the adapter, to a state machine on an open backend whose rows mirror the
  -- ranges and the nodes of its well-formed catalog, all get a response: a command the catalog's, or
  -- the text of its rejection, any other entry `Ok`. The catalog is then the one that the commands
  -- alone make, the rows of ranges and of nodes mirror it, and the id of the last entry and the last
  -- membership are in memory and on disk. Each command has room for its id, and a `u64` for the id of
  -- a node that it registers, every row serialises, and bincode reads back the metadata that it wrote.
  pub apply-replicates :
      (sm : PdRaftStateMachine LogId StoredMembership) (entries : List (Entry LogId Membership))
      (c : Catalog) (m : PersistedPdMeta LogId StoredMembership)
      → Holds t sm c m
      → AllHaveRoom t c entries
      → (responses : List PdResponse) × ((apply t sm entries).1 ≡ ok responses)
        × AllAnswered t c entries responses
        × Holds t (apply t sm entries).0 (after t c entries) (meta_after t m entries)
  apply-replicates sm [] c m h room = unfold apply in ([], refl, tt, h)
  apply-replicates sm (entry ∷ entries) c m h room =
      let (resp, done, answer, k) = entry-Applies sm c m entry h room.0 in
      let (responses, rest, answers, last) =
        apply-replicates (apply_entry t sm entry).0 entries (catalog_after t c entry.payload)
          (meta_after t m (entry ∷ [])) k room.1 in
      (
        resp ∷ responses,
        rw (apply_cons sm entry entries resp done, rest) refl,
        (answer, answers),
        rw (apply_cons sm entry entries resp done) last,
      )
