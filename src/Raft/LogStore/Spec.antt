-- ===== src/Raft/LogStore/Spec.antt =====
-- What the log store promises: a log as a function from indexes to entries, and three values.
use aresadb.Prelude.{
  ℕ, ◌<◌, ◌≤◌, ◌≡◌, false, Option, none, some, List, [], ◌∷◌, ◌==◌, leb, if◌then◌else◌, All,
}
use aresadb.Ord.Bytes.{Bytes, bytes_ord}
use aresadb.Map
use aresadb.BigEndian.{u64_mod}
use aresadb.Core.Memory.{MemoryBackend}
use aresadb.Raft.LogStore
use aresadb.Raft.LogStore.{
  LogTypes, Update, log_key, meta_key, meta_vote, meta_committed, meta_purged, u64_max,
}

-- bincode reads back what it wrote, and never fails to write.
pub record IsLawful {LogId Vote Entry : Type 0} (t : LogTypes LogId Vote Entry) : Type 0 where
  pub vote_bytes :
      (v : Vote) → (x : Bytes) × (t.serialize_vote v ≡ some x) × (t.deserialize_vote x ≡ some v)
  pub log_id_bytes :
      (l : Option LogId)
      → (x : Bytes) × (t.serialize_log_id l ≡ some x) × (t.deserialize_log_id x ≡ some l)
  pub entry_bytes :
      (e : Entry) → (x : Bytes) × (t.serialize_entry e ≡ some x) × (t.deserialize_entry x ≡ some e)

pub record Log (LogId Vote Entry : Type 0) : Type 0 where
  pub entries : ℕ → Option Entry
  pub vote : Option Vote
  pub committed : Option LogId
  pub purged : Option LogId

-- The calls of openraft that change the store.
pub data Op (LogId Vote Entry : Type 0) : Type 0 where
  append : List Entry → Op LogId Vote Entry
  truncate : LogId → Op LogId Vote Entry
  purge : LogId → Op LogId Vote Entry
  save_vote : Vote → Op LogId Vote Entry
  save_committed : Option LogId → Op LogId Vote Entry

abbrev pub empty_log : {LogId Vote Entry : Type 0} → Log LogId Vote Entry
empty_log = record { entries = λ i. none; vote = none; committed = none; purged = none }

-- What the last call of a kind saved, and `v` if there was none.
abbrev pub last_vote :
    {LogId Vote Entry : Type 0} → Option Vote → List (Op LogId Vote Entry) → Option Vote
last_vote v [] = v
last_vote v (Op.save_vote vote ∷ ops) = last_vote (some vote) ops
last_vote v (_ ∷ ops) = last_vote v ops

abbrev pub last_committed :
    {LogId Vote Entry : Type 0} → Option LogId → List (Op LogId Vote Entry) → Option LogId
last_committed v [] = v
last_committed v (Op.save_committed committed ∷ ops) = last_committed committed ops
last_committed v (_ ∷ ops) = last_committed v ops

abbrev pub last_purged :
    {LogId Vote Entry : Type 0} → Option LogId → List (Op LogId Vote Entry) → Option LogId
last_purged v [] = v
last_purged v (Op.purge log_id ∷ ops) = last_purged (some log_id) ops
last_purged v (_ ∷ ops) = last_purged v ops

module _ {LogId Vote Entry : Type 0} (t : LogTypes LogId Vote Entry) where
  abbrev pub run_op : MemoryBackend → Op LogId Vote Entry → Update LogId
  run_op b (Op.append entries) = LogStore.append t b entries
  run_op b (Op.truncate log_id) = LogStore.truncate t b log_id
  run_op b (Op.purge log_id) = LogStore.purge t b log_id
  run_op b (Op.save_vote vote) = LogStore.save_vote t b vote
  run_op b (Op.save_committed committed) = LogStore.save_committed t b committed

  abbrev pub index_of : Entry → ℕ
  index_of entry = t.index (t.get_log_id entry)

  -- A later entry of the same index replaces an earlier one.
  abbrev pub put_all : List Entry → (ℕ → Option Entry) → ℕ → Option Entry
  put_all [] f i = f i
  put_all (entry ∷ entries) f i =
      put_all entries (λ j. if index_of entry == j then some entry else f j) i

  abbrev pub after : Op LogId Vote Entry → Log LogId Vote Entry → Log LogId Vote Entry
  after (Op.append entries) a = record a { entries = put_all entries a.entries }
  after (Op.truncate log_id) a = record a {
    entries = λ i. if leb (t.index log_id) i then none else a.entries i;
  }
  after (Op.purge log_id) a = record a {
    entries = λ i. if leb i (t.index log_id) then none else a.entries i;
    purged = some log_id;
  }
  after (Op.save_vote vote) a = record a { vote = some vote }
  after (Op.save_committed committed) a = record a { committed = committed }

  -- The purge pointer is not past the log id.
  abbrev pub Advances : Option LogId → LogId → Type 0
  Advances none log_id = Unit
  Advances (some prev) log_id = t.index prev ≤ t.index log_id

  -- Indexes fit a `u64`, that of a purge is not the largest, and the purge pointer does not move back.
  abbrev pub Fits : Op LogId Vote Entry → Log LogId Vote Entry → Type 0
  Fits (Op.append entries) a = All (λ entry. index_of entry < u64_mod) entries
  Fits (Op.truncate log_id) a = t.index log_id < u64_mod
  Fits (Op.purge log_id) a = (t.index log_id < u64_max) × Advances a.purged log_id
  Fits (Op.save_vote vote) a = Unit
  Fits (Op.save_committed committed) a = Unit

  abbrev pub entry_row : Option Bytes → Option (Option Entry)
  entry_row none = some none
  entry_row (some x) = elim (t.deserialize_entry x) [ none ↦ none | some e ↦ some (some e) ]

  abbrev pub vote_row : Option Bytes → Option (Option Vote)
  vote_row none = some none
  vote_row (some x) = elim (t.deserialize_vote x) [ none ↦ none | some v ↦ some (some v) ]

  abbrev pub log_id_row : Option Bytes → Option (Option LogId)
  log_id_row none = some none
  log_id_row (some x) = t.deserialize_log_id x

  -- The rows on an open backend, read back, are the log.
  pub record Implements (b : MemoryBackend) (a : Log LogId Vote Entry) : Type 0 where
    pub is_open : b.is_closed ≡ false
    pub entries :
        (i : ℕ) → i < u64_mod → entry_row (Map.get (log_key i) b.contents) ≡ some (a.entries i)
    pub vote : vote_row (Map.get (meta_key meta_vote) b.contents) ≡ some a.vote
    pub committed : log_id_row (Map.get (meta_key meta_committed) b.contents) ≡ some a.committed
    pub purged : log_id_row (Map.get (meta_key meta_purged) b.contents) ≡ some a.purged

  abbrev pub run : MemoryBackend → List (Op LogId Vote Entry) → MemoryBackend
  run b [] = b
  run b (op ∷ ops) = run (run_op b op).0 ops

  abbrev pub after_all : List (Op LogId Vote Entry) → Log LogId Vote Entry → Log LogId Vote Entry
  after_all [] a = a
  after_all (op ∷ ops) a = after_all ops (after op a)

  abbrev pub AllFit : List (Op LogId Vote Entry) → Log LogId Vote Entry → Type 0
  AllFit [] a = Unit
  AllFit (op ∷ ops) a = Fits op a × AllFit ops (after op a)
