-- ===== src/Storage/Store.antt =====
-- What the B+ tree asks of its pages: nodes are read and written by page number, a new page is
-- handed out, and one page number is kept as the root. `Storage/PageStore.antt` fills this in with
-- the pager.
use rawth.Base.{ℕ, ◌+◌, ◌≤◌, ◌<◌, ◌≡◌, ◌≢◌, ok, err}
use rawth.Storage.Monad.{M}
use rawth.Storage.Node.{Node, cell_area_size}
use rawth.Storage.Node.View.{View, to_node, view_size, IsInRange}
use rawth.Storage.Node.Pages.{overflow}

-- The operations.
pub record NodeStore : Type 1 where
  pub State : Type 0
  pub read_node : ℕ → M State Node
  pub write_node : ℕ → Node → M State (Unit {0})
  pub allocate_page : M State ℕ
  pub root_page : M State ℕ
  pub set_root_page : ℕ → M State (Unit {0})
  pub flush : M State (Unit {0})
  pub page_count : State → ℕ

-- What a client can observe: which node each page holds, the root, and that calls will go through.
pub record Observation (State : Type 0) : Type 1 where
  pub Holds : State → ℕ → View → Type 0
  pub root : State → ℕ
  pub IsReady : State → Type 0

module _ {State : Type 0} (o : Observation State) (page_count : State → ℕ) where
  open o use {Holds, root, IsReady}

  -- Every page of the first state holds in the second what it held.
  pub record Keeps (s t : State) : Type 0 where
    pub nodes : (j : ℕ) (v : View) → 0 < j → j < page_count s → Holds s j v → Holds t j v
    pub root_same : root t ≡ root s
    pub count : page_count t ≡ page_count s
    pub ready : IsReady t

  -- One page holds a new node, and the others what they held.
  pub record Writes (s t : State) (i : ℕ) (v : View) : Type 0 where
    pub node : Holds t i v
    pub nodes : (j : ℕ) (w : View) → 0 < j → j < page_count s → j ≢ i → Holds s j w → Holds t j w
    pub root_same : root t ≡ root s
    pub count : page_count t ≡ page_count s
    pub ready : IsReady t

  -- The page behind the last one was handed out.
  pub record Allocates (s t : State) : Type 0 where
    pub nodes : (j : ℕ) (v : View) → 0 < j → j < page_count s → Holds s j v → Holds t j v
    pub root_same : root t ≡ root s
    pub count : page_count t ≡ page_count s + 1
    pub ready : IsReady t

  pub record Roots (s t : State) (i : ℕ) : Type 0 where
    pub nodes : (j : ℕ) (v : View) → 0 < j → j < page_count s → Holds s j v → Holds t j v
    pub root_new : root t ≡ i
    pub count : page_count t ≡ page_count s
    pub ready : IsReady t

-- The laws.
pub record IsNodeStore (store : NodeStore) (o : Observation store.State) : Type 0 where
  pub read :
      (s : store.State) (i : ℕ) (v : View)
      → o.IsReady s
      → i < store.page_count s
      → o.Holds s i v
      → (t : store.State) × (store.read_node i s ≡ (ok (to_node v), t))
        × Keeps o store.page_count s t
  pub sized : (s : store.State) (i : ℕ) (v : View) → o.Holds s i v → view_size v ≤ cell_area_size
  pub write :
      (s : store.State) (i : ℕ) (v : View)
      → o.IsReady s
      → i < store.page_count s
      → IsInRange v
      → view_size v ≤ cell_area_size
      → (t : store.State) × (store.write_node i (to_node v) s ≡ (ok tt, t))
        × Writes o store.page_count s t i v
  pub write_overflow :
      (s : store.State) (i : ℕ) (v : View)
      → cell_area_size < view_size v
      → store.write_node i (to_node v) s ≡ (err (overflow v), s)
  pub allocate :
      (s : store.State)
      → o.IsReady s
      → store.page_count s + 1 < 4294967296
      → (t : store.State) × (store.allocate_page s ≡ (ok (store.page_count s), t))
        × Allocates o store.page_count s t
  pub get_root : (s : store.State) → store.root_page s ≡ (ok (o.root s), s)
  pub set_root :
      (s : store.State) (i : ℕ)
      → o.IsReady s
      → (t : store.State) × (store.set_root_page i s ≡ (ok tt, t)) × Roots o store.page_count s t i
  pub flushes :
      (s : store.State)
      → o.IsReady s
      → (t : store.State) × (store.flush s ≡ (ok tt, t)) × Keeps o store.page_count s t
