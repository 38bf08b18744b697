-- ===== src/Pd/Raft/Spec.antt =====
-- What the Raft adapter promises: the catalog and the responses that the commands alone give, and
-- the metadata of the last entry, in memory and on disk.
use aresadb.Prelude.{◌≡◌, false, Option, none, some, List, [], ◌∷◌}
use aresadb.Ord.Bytes.{Bytes, bytes_ord}
use aresadb.Map
use aresadb.Pd.Error.{Result}
use aresadb.Pd.Command.{PdResponse}
use aresadb.Pd.Catalog.State.{Catalog}
use aresadb.Pd.Catalog.Apply
use aresadb.Pd.Catalog.Invariant.{HasRoom}
use aresadb.Pd.StateMachine.{pd_raft_meta_key}
use aresadb.Pd.StateMachine.Nodes.{NodeFits}
use aresadb.Pd.StateMachine.Disk.{IsInSync}
use aresadb.Pd.StateMachine.Progress.{IsTotal}
use aresadb.Pd.Raft.{
  PersistedPdMeta, PdRaftStateMachine, Entry, EntryPayload, blank, normal, membership, RaftTypes,
  default_meta,
}

-- Every row serialises, and bincode reads back the metadata that it wrote.
pub record HasCodec {LogId StoredMembership Membership : Type 0}
    (t : RaftTypes LogId StoredMembership Membership) : Type 0 where
  pub rows : IsTotal t.rows
  pub meta_bytes :
      (m : PersistedPdMeta LogId StoredMembership)
      → (x : Bytes) × (t.serialize_meta m ≡ some x) × (t.deserialize_meta x ≡ some m)

module _ {LogId StoredMembership Membership : Type 0}
    (t : RaftTypes LogId StoredMembership Membership) where
  abbrev pub catalog_after : Catalog → EntryPayload Membership → Catalog
  catalog_after c blank = c
  catalog_after c (normal cmd) = (Apply.apply c cmd).0
  catalog_after c (membership mem) = c

  abbrev pub PayloadHasRoom : Catalog → EntryPayload Membership → Type 0
  PayloadHasRoom c blank = Unit
  PayloadHasRoom c (normal cmd) = HasRoom c cmd × NodeFits cmd
  PayloadHasRoom c (membership mem) = Unit

  -- A command is answered by the catalog's response, or by the text of its rejection.
  abbrev pub Answers : Result PdResponse → PdResponse → Type 0
  Answers (Result.ok r) resp = resp ≡ r
  Answers (Result.err e) resp = resp ≡ PdResponse.error (t.error_text e)
  Answers Result.panicked resp = ⊥

  abbrev pub PayloadAnswers : Catalog → EntryPayload Membership → PdResponse → Type 0
  PayloadAnswers c blank resp = resp ≡ PdResponse.done
  PayloadAnswers c (normal cmd) resp = Answers (Apply.apply c cmd).1 resp
  PayloadAnswers c (membership mem) resp = resp ≡ PdResponse.done

  -- The same for a list of entries, each at the catalog that those before it leave.
  abbrev pub after : Catalog → List (Entry LogId Membership) → Catalog
  after c [] = c
  after c (entry ∷ entries) = after (catalog_after c entry.payload) entries

  -- The id of the last entry, and the last membership, with the id of its entry.
  abbrev pub last_id : Option LogId → List (Entry LogId Membership) → Option LogId
  last_id l [] = l
  last_id l (entry ∷ entries) = last_id (some entry.log_id) entries

  abbrev pub membership_by : StoredMembership → LogId → EntryPayload Membership → StoredMembership
  membership_by s log_id blank = s
  membership_by s log_id (normal cmd) = s
  membership_by s log_id (membership mem) = t.new_membership (some log_id) mem

  abbrev pub last_membership_of :
      StoredMembership → List (Entry LogId Membership) → StoredMembership
  last_membership_of s [] = s
  last_membership_of s (entry ∷ entries) =
      last_membership_of (membership_by s entry.log_id entry.payload) entries

  abbrev pub meta_after :
      PersistedPdMeta LogId StoredMembership
      → List (Entry LogId Membership)
      → PersistedPdMeta LogId StoredMembership
  meta_after m entries = record {
    last_applied = last_id m.last_applied entries;
    last_membership = last_membership_of m.last_membership entries;
  }

  abbrev pub AllHaveRoom : Catalog → List (Entry LogId Membership) → Type 0
  AllHaveRoom c [] = Unit
  AllHaveRoom c (entry ∷ entries) =
      PayloadHasRoom c entry.payload × AllHaveRoom (catalog_after c entry.payload) entries

  abbrev pub AllAnswered : Catalog → List (Entry LogId Membership) → List PdResponse → Type 0
  AllAnswered c [] [] = Unit
  AllAnswered c [] (resp ∷ responses) = ⊥
  AllAnswered c (entry ∷ entries) [] = ⊥
  AllAnswered c (entry ∷ entries) (resp ∷ responses) =
      PayloadAnswers c entry.payload resp
      × AllAnswered (catalog_after c entry.payload) entries responses

  -- The metadata that an adapter is opened with: without a row, the default.
  abbrev pub meta_row : Option Bytes → Option (PersistedPdMeta LogId StoredMembership)
  meta_row none = some (default_meta t)
  meta_row (some raw) = t.deserialize_meta raw

  -- The backend is open, its rows mirror the catalog in memory, which is the well-formed `c`, and the
  -- metadata in memory and its row are `m`.
  pub record Holds (sm : PdRaftStateMachine LogId StoredMembership) (c : Catalog)
      (m : PersistedPdMeta LogId StoredMembership) : Type 0 where
    pub in_sync : IsInSync t.rows sm.inner
    pub is_open : sm.inner.store.is_closed ≡ false
    pub catalog : sm.inner.catalog ≡ c
    pub meta : sm.meta ≡ m
    pub row : meta_row (Map.get pd_raft_meta_key sm.inner.store.contents) ≡ some m
