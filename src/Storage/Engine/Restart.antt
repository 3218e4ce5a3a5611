-- ===== src/Storage/Engine/Restart.antt =====
-- internal/storage/engine.go: `OpenEngine` and `Nuke`, which start on an empty file.
use rawth.Base.{ℕ, ◌≡◌, ◌⊎◌, refl, inl, inr, List, [], arith, Outcome, ok, err}
use rawth.Bytes.{Bytes}
use rawth.Storage.Fault.{Fault}
use rawth.Storage.Node.View.{Entry}
use rawth.Storage.Pager
use rawth.Storage.Pager.{Pager, flush}
use rawth.Storage.Pager.Flush.{flush_lem}
use rawth.Storage.Pager.Fresh.{empty_file, new_pager, open_pager-empty, new_pager-IsSound}
use rawth.Storage.PageStore.{page_store, page_nodes, page_store-IsNodeStore}
use rawth.Storage.Tree.Contract.{Represents}
use rawth.Storage.Tree.Fresh.{new_tree_lem}
use rawth.Storage.Engine.{Engine, nuke, open_engine, open_database, engine_on}
use rawth.Storage.Engine.Reads.{Contains}

open_database-empty :
    (p : Pager) × (open_database empty_file ≡ (ok tt, p)) × Represents page_store page_nodes p []
unfolding open_database new_pager
open_database-empty =
    let (p, q, rep) =
      new_tree_lem page_store page_nodes page_store-IsNodeStore new_pager refl
        (new_pager-IsSound, refl) (omega arith) (omega arith) in
    (p, rw (open_pager-empty, q) refl, rep)

pub open_engine_lem :
    (path : Bytes) (now : ℕ)
    → (u : Engine) × (open_engine path now empty_file ≡ ok u) × Contains u [] × (u.ttls ≡ [])
unfolding open_engine
open_engine_lem path now =
    let (p, q, rep) = open_database-empty in (engine_on path now p, rw q refl, rep, refl)

-- An engine over a fresh database that keeps its counts.
pub record Emptied (e u : Engine) : Type 0 where
  pub contains : Contains u []
  pub no_ttls : u.ttls ≡ []
  pub puts : u.put_count ≡ e.put_count
  pub gets : u.get_count ≡ e.get_count
  pub deletes : u.delete_count ≡ e.delete_count

-- On an engine whose database holds some entries, with a file that is removed and reopens empty,
-- `Nuke` succeeds whatever closing the old file returns; afterwards the database holds no entries,
-- no key has a deadline, and the counters are the same.
pub nuke_lem :
    (closed : Outcome Fault (Unit {0})) (e : Engine) (es : List Entry)
    → (closed ≡ ok tt) ⊎ ((x : Fault) × (closed ≡ err x))
    → Contains e es
    → (u : Engine) × (nuke closed (ok tt) (ok empty_file) e ≡ (ok tt, u)) × Emptied e u
unfolding nuke Pager.close
nuke_lem closed e es c r =
    let (p, q, rep) = open_database-empty in
    let (s, f, k, d, clean) = flush_lem r.ready.0 in
    (
      record e { db = p; ttls = [] },
      elim c [ inl h ↦ rw (h, f, q) refl | inr (x, h) ↦ rw (h, f, q) refl ],
      record { contains = rep; no_ttls = refl; puts = refl; gets = refl; deletes = refl },
    )
