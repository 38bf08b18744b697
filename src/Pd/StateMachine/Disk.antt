-- ===== src/Pd/StateMachine/Disk.antt =====
-- `apply_inner` of crates/aresadb-pd/src/state_machine.rs: the disk follows the catalog.
use aresadb.Prelude.{◌≡◌, refl, ap, ◌∙◌, Option, none, some, arith}
use aresadb.Ord.Bytes.{Bytes, bytes_ord}
use aresadb.Core.WriteBatch
use aresadb.Core.WriteBatch.{WriteBatch}
use aresadb.Core.Memory
use aresadb.Core.Memory.{MemoryBackend, Data, write_ops}
use aresadb.Pd.Error.{Result, CatalogError}
use aresadb.Pd.Command.{PdCommand, PdResponse}
use aresadb.Pd.Catalog.State.{Catalog}
use aresadb.Pd.Catalog.Apply
use aresadb.Pd.Catalog.Valid.{IsValid}
use aresadb.Pd.Catalog.Invariant.{HasRoom, apply-IsValid}
use aresadb.Pd.Catalog.History.{apply-err}
use aresadb.Pd.StateMachine.{
  Applied, ok, err, panicked, PdApplyError, Bincode, PdStateMachine, commit, put_meta,
  pd_raft_meta_key, build_write_batch, apply_inner, commit_applied, commit_built, from_catalog,
}
use aresadb.Map
use aresadb.Map.Laws.{get-insert}
use aresadb.Pd.Persist.{node_key}
use aresadb.Pd.StateMachine.Mirror.{
  Mirrors, insert-other-Mirrors, eq?-pd_raft_meta_key, put_meta-keeps,
}
use aresadb.Pd.StateMachine.Nodes.{
  MirrorsNodes, NodesOwn, NodeFits, eq?-pd_raft_meta_key-node_key, apply-NodesOwn,
}
use aresadb.Pd.StateMachine.NodeRows.{built-MirrorsNodes}
use aresadb.Pd.StateMachine.Rows.{bind_ok}
use aresadb.Pd.StateMachine.Applies.{built-Mirrors}

-- The rows on disk are those of the ranges and of the nodes of the catalog in memory, which is well
-- formed. Nodes stand under their own ids.
pub record IsInSync (b : Bincode) (sm : PdStateMachine) : Type 0 where
  pub valid : IsValid sm.catalog
  pub nodes_own : NodesOwn sm.catalog.nodes
  pub mirrors : Mirrors b sm.store.contents sm.catalog.ranges
  pub mirrors_nodes : MirrorsNodes b sm.store.contents sm.catalog.nodes

commit_lem :
    (store : MemoryBackend) (batch : WriteBatch) (u : Unit {0})
    → (commit store batch).1 ≡ ok u
    → (commit store batch).0.contents ≡ (write_ops batch.ops store.contents).0
unfolding commit Memory.write_batch Memory.ensure_open
commit_lem store batch u h = ground arith

from_catalog_ok :
    (r : Result PdResponse) (resp : PdResponse) → from_catalog r ≡ ok resp → r ≡ Result.ok resp
from_catalog_ok (Result.ok x) resp h = ground arith
from_catalog_ok (Result.err e) resp h = absurd (cc h)
from_catalog_ok Result.panicked resp h = absurd (cc h)

module _ (b : Bincode) where
  abbrev MirrorsBoth : Catalog → Data → Type 0
  MirrorsBoth c m = Mirrors b m c.ranges × MirrorsNodes b m c.nodes

  -- The Raft adapter's row changes neither the rows of ranges nor those of nodes.
  insert-MirrorsBoth :
      (c : Catalog) (meta : Bytes) (m : Data)
      → MirrorsBoth c m
      → MirrorsBoth c (Map.insert pd_raft_meta_key meta m)
  insert-MirrorsBoth c meta m h = (
    insert-other-Mirrors b m c.ranges pd_raft_meta_key meta eq?-pd_raft_meta_key h.0,
    λ i u.
        get-insert pd_raft_meta_key (node_key i) meta m
        ∙ rw (eq?-pd_raft_meta_key-node_key i) (h.1 i u),
  )

  pub put_meta-MirrorsBoth :
      (meta : Option Bytes) (batch : WriteBatch) (store : MemoryBackend) (c : Catalog)
      → MirrorsBoth c (write_ops batch.ops store.contents).0
      → MirrorsBoth c (write_ops (put_meta meta batch).ops store.contents).0
  unfolding WriteBatch.put WriteBatch.push
  put_meta-MirrorsBoth none batch store c h = h
  put_meta-MirrorsBoth (some meta) batch store c h =
      put_meta-keeps (MirrorsBoth c) meta batch.ops store.contents (insert-MirrorsBoth c meta) h

  -- What a write that succeeds leaves on disk.
  commit_built-MirrorsBoth :
      (sm : PdStateMachine) (meta : Option Bytes) (resp out : PdResponse)
      (built : Applied WriteBatch)
      → ((batch : WriteBatch)
          → built ≡ ok batch
          → MirrorsBoth sm.catalog (write_ops batch.ops sm.store.contents).0)
      → (commit_built b sm meta resp built).1 ≡ ok out
      → ((commit_built b sm meta resp built).0.catalog ≡ sm.catalog)
        × MirrorsBoth sm.catalog (commit_built b sm meta resp built).0.store.contents
        × (resp ≡ out)
  commit_built-MirrorsBoth sm meta resp out (ok batch) rows h =
      let (u, done, same) =
        bind_ok (commit sm.store (put_meta meta batch)).1 (λ u. ok resp) out h in
      (
        refl,
        rw (commit_lem sm.store (put_meta meta batch) u done)
            (put_meta-MirrorsBoth meta batch sm.store sm.catalog (rows batch refl)),
        ground arith,
      )
  commit_built-MirrorsBoth sm meta resp out (err e) rows h = absurd (cc h)
  commit_built-MirrorsBoth sm meta resp out panicked rows h = absurd (cc h)

  commit_applied-MirrorsBoth :
      (sm : PdStateMachine) (cmd : PdCommand) (meta : Option Bytes) (out : PdResponse)
      (r : Result PdResponse)
      → ((resp : PdResponse) (batch : WriteBatch)
          → r ≡ Result.ok resp
          → build_write_batch b cmd resp sm.catalog ≡ ok batch
          → MirrorsBoth sm.catalog (write_ops batch.ops sm.store.contents).0)
      → (commit_applied b sm cmd meta (from_catalog r)).1 ≡ ok out
      → ((commit_applied b sm cmd meta (from_catalog r)).0.catalog ≡ sm.catalog)
        × MirrorsBoth sm.catalog (commit_applied b sm cmd meta (from_catalog r)).0.store.contents
        × (r ≡ Result.ok out)
  commit_applied-MirrorsBoth sm cmd meta out (Result.ok resp) rows h =
      let (c, m, e) =
        commit_built-MirrorsBoth sm meta resp out (build_write_batch b cmd resp sm.catalog)
          (λ batch. rows resp batch refl) h in
      (c, m, ap Result.ok e)
  commit_applied-MirrorsBoth sm cmd meta out (Result.err e) rows h = absurd (cc h)
  commit_applied-MirrorsBoth sm cmd meta out Result.panicked rows h = absurd (cc h)

  -- A command with or without the Raft adapter's row, applied to a state machine whose rows on disk
  -- mirror the ranges and the nodes of its well-formed catalog, and that has room for its id; a node
  -- that it registers has a `u64` for an id. If it returns a response, that is the catalog's response,
  -- the catalog is the one that the command makes of it, and the rows of ranges and of nodes mirror it
  -- again.
  pub apply_inner-IsInSync :
      (sm : PdStateMachine) (cmd : PdCommand) (meta : Option Bytes) (resp : PdResponse)
      → IsInSync b sm
      → HasRoom sm.catalog cmd
      → NodeFits cmd
      → (apply_inner b sm cmd meta).1 ≡ ok resp
      → ((Apply.apply sm.catalog cmd).1 ≡ Result.ok resp)
        × ((apply_inner b sm cmd meta).0.catalog ≡ (Apply.apply sm.catalog cmd).0)
        × IsInSync b (apply_inner b sm cmd meta).0
  unfolding apply_inner
  apply_inner-IsInSync sm cmd meta resp s room fits h =
      let after = Apply.apply sm.catalog cmd in
      let (c, m, e) =
        commit_applied-MirrorsBoth (record sm { catalog = after.0 }) cmd meta resp after.1
          (λ resp batch a d. (
            built-Mirrors b sm.catalog cmd resp batch sm.store.contents s.valid room a d s.mirrors,
            built-MirrorsNodes b sm.catalog cmd resp batch sm.store.contents s.nodes_own fits a d
                s.mirrors_nodes,
          ))
          h in
      (
        e,
        c,
        record {
          valid = rw c (apply-IsValid sm.catalog cmd s.valid room);
          nodes_own = rw c (apply-NodesOwn sm.catalog cmd s.nodes_own fits);
          mirrors = rw c m.0;
          mirrors_nodes = rw c m.1;
        },
      )

  -- A command that the catalog rejects changes neither the catalog nor the disk.
  pub apply_inner-rejected :
      (sm : PdStateMachine) (cmd : PdCommand) (meta : Option Bytes) (e : CatalogError)
      → (Apply.apply sm.catalog cmd).1 ≡ Result.err e
      → apply_inner b sm cmd meta ≡ (sm, err (PdApplyError.catalog e))
  unfolding apply_inner
  apply_inner-rejected sm cmd meta e h = rw (h, apply-err sm.catalog cmd e h) refl
