-- ===== src/Storage/Tree/Contract.antt =====
-- internal/storage/btree.go: databases and the lists of entries that they represent, with `Get` and
-- `Has`.
use rawth.Base.{
  ℕ, zero, suc, ◌≤◌, ◌<◌, ◌≡◌, refl, ap, ◌∙◌, Bool, true, false, List, Option, none, some, arith,
  ok,
}
use rawth.Bytes.{Bytes}
use rawth.Storage.Node.View.{Entry}
use rawth.Storage.Entries.{find}
use rawth.Storage.Store.{NodeStore, Observation, IsNodeStore}
use rawth.Storage.Tree.{search, get, has, found}
use rawth.Storage.Tree.Shape.{
  Tree, head_row, page_no, entries, nodes, occurs, Ordered, Chained, Stored,
}
use rawth.Storage.Tree.Placed.{Kept, InPages, Kept-Stored, Kept-InPages}
use rawth.Storage.Tree.Rows.{head_row-le}
use rawth.Storage.Tree.Search.{found_or_not, search_lem}

abbrev pub is_some : {A : Type 0} → Option A → Bool
is_some none = false
is_some (some a) = true

module _ (store : NodeStore) (o : Observation store.State) where
  open store use {State, page_count}

  -- The tree at the root: on pages of its own, in order, its leaves in a list that ends.
  pub record Represents (s : State) (es : List Entry) : Type 0 where
    pub height : ℕ
    pub tree : Tree height
    pub at_root : o.root s ≡ page_no height tree
    pub ready : o.IsReady s
    pub stored : Stored o s height tree
    pub placed : InPages store o s height tree
    pub distinct : (j : ℕ) → occurs j height tree ≤ 1
    pub ordered : Ordered height none none tree
    pub chained : Chained height tree 0
    pub fits : nodes height tree < page_count s
    pub same : entries height tree ≡ es

  pub Represents-Kept :
      {s u : State} (es : List Entry) → Kept store o s u → Represents s es → Represents u es
  Represents-Kept es k r = record {
    height = r.height;
    tree = r.tree;
    at_root = k.root_same ∙ r.at_root;
    ready = k.ready;
    stored = Kept-Stored store o r.height r.tree k r.placed r.stored;
    placed = Kept-InPages store o r.height r.tree k r.placed;
    distinct = r.distinct;
    ordered = r.ordered;
    chained = r.chained;
    fits = omega (arith, r.fits, k.count);
    same = r.same;
  }

  height-nodes : (h : ℕ) (t : Tree h) → h < nodes h t
  height-nodes zero t = omega arith
  height-nodes (suc h) t = omega (
    arith,
    height-nodes h (head_row t.row.cells t.row.last),
    head_row-le (nodes h) t.row.cells t.row.last,
  )

  pub fuel_enough : (s : State) (es : List Entry) (r : Represents s es) → r.height < page_count s
  fuel_enough s es r = omega (arith, height-nodes r.height r.tree, r.fits)

  module _ (laws : IsNodeStore store o) where
    get-search :
        (key : Bytes) (s : State) → get store key s ≡ search store (page_count s) (o.root s) key s
    unfolding get
    get-search key s = rw (laws.get_root s)

    -- On a database that represents a list of entries, `Get` returns the value of the key in that
    -- list, or the error that the key is not found when the list has no such key, and the database
    -- represents the same list afterwards.
    pub get_lem :
        (key : Bytes) (s : State) (es : List Entry)
        → Represents s es
        → (u : State) × (get store key s ≡ (found_or_not (find key es), u)) × Represents u es
    get_lem key s es r =
        let (u, e, k) =
          search_lem store o laws r.height (page_count s) s r.tree none none key
            (fuel_enough s es r) r.ready r.stored r.placed r.ordered tt tt in
        (
          u,
          get-search key s
              ∙ ap (λ i. search store (page_count s) i key s) r.at_root
              ∙ e
              ∙ ap (λ x. (found_or_not (find key x), u)) r.same,
          Represents-Kept es k r,
        )

    -- On a database that represents a list of entries, `Has` returns whether the key is in the
    -- list, and the database represents the same list afterwards.
    pub has_lem :
        (key : Bytes) (s : State) (es : List Entry)
        → Represents s es
        → (u : State) × (has store key s ≡ (ok (is_some (find key es)), u)) × Represents u es
    unfolding has found
    has_lem key s es r =
        let (u, e, k) = get_lem key s es r in (u, has-found key s u (find key es) e, k)
      where
        has-found :
            (key : Bytes) (s u : State) (x : Option Bytes)
            → get store key s ≡ (found_or_not x, u)
            → has store key s ≡ (ok (is_some x), u)
        has-found key s u none e = rw e refl
        has-found key s u (some v) e = rw e refl
