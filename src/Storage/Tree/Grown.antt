-- ===== src/Storage/Tree/Grown.antt =====
-- What an insertion into a subtree makes of it: the row of one or two subtrees that stands in its
-- place, and the relation of the states before and after.
use rawth.Base.{ℕ, ◌+◌, ◌≤◌, ◌<◌, ◌≡◌, ◌∙◌, arith, List, [], ◌∷◌, Option, none, some, ok, err, suc}
use rawth.Bytes.{Bytes}
use rawth.Storage.Fault.{Fault}
use rawth.Storage.Monad.{M}
use rawth.Storage.Node.View.{View}
use rawth.Storage.Entries.{Bound, Above, Below}
use rawth.Storage.Entries.Concat.{change}
use rawth.Storage.Store.{NodeStore, Observation, Keeps}
use rawth.Storage.Tree.{Split}
use rawth.Storage.Tree.TwoPages.{IsOverflow}
use rawth.Storage.Tree.Shape.{
  Tree, sum_row, concat_row, head_row, AllRow, OrderedRow, ChainedRow, page_no, entries, nodes,
  occurs, first_leaf, Ordered, Chained, Stored,
}

module _ (store : NodeStore) (o : Observation store.State) (key : Bytes) where
  open store use {State, page_count}

  -- The key gets a value, or loses it.
  pub record Replaced (value : Option Bytes) (s u : State) (h : ℕ) (t : Tree h)
      (cs : List (Tree h × Bytes)) (last : Tree h) : Type 0 where
    -- The first subtree stands where the old one stood, and begins with the same leaf.
    pub head : page_no h (head_row cs last) ≡ page_no h t
    pub first : first_leaf h (head_row cs last) ≡ first_leaf h t
    pub stored : AllRow (Stored o u h) cs last
    pub ordered :
        (lo hi : Bound)
        → Ordered h lo hi t
        → Above lo key
        → Below key hi
        → OrderedRow (Ordered h) lo hi cs last
          × (concat_row (entries h) cs last ≡ change key value (entries h t))
    pub chained :
        (after : ℕ) → Chained h t after → ChainedRow (Chained h) (first_leaf h) cs last after
    -- The old pages are used as before, and each new one once.
    pub old_pages : (j : ℕ) → j < page_count s → sum_row (occurs j h) cs last ≡ occurs j h t
    pub new_pages :
        (j : ℕ)
        → page_count s ≤ j
        → (sum_row (occurs j h) cs last ≤ 1) × (1 ≤ sum_row (occurs j h) cs last → j < page_count u)
    pub node_count : sum_row (nodes h) cs last + page_count s ≡ nodes h t + page_count u
    pub frame :
        (j : ℕ) (v : View)
        → 0 < j
        → j < page_count s
        → occurs j h t ≡ 0
        → o.Holds s j v
        → o.Holds u j v
    pub grows : (page_count s ≤ page_count u) × (page_count u ≤ page_count s + suc h)
    pub root_same : o.root u ≡ o.root s
    pub ready : o.IsReady u

  -- The ways in which an insertion ends: in place, with a split, or with a node that does not fit.
  pub data Inserts (value : Bytes) (m : M State Split) (s : State) (h : ℕ) (t : Tree h)
      : Type 0 where
    kept :
        (u : State) (c : Tree h)
        → m s ≡ (ok none, u)
        → Replaced (some value) s u h t [] c
        → Inserts value m s h t
    split :
        (u : State) (l : Tree h) (k : Bytes) (r : Tree h)
        → m s ≡ (ok (some (k, page_no h r)), u)
        → Replaced (some value) s u h t ((l, k) ∷ []) r
        → Inserts value m s h t
    overflow : (u : State) (e : Fault) → m s ≡ (err e, u) → IsOverflow e → Inserts value m s h t

module _ (store : NodeStore) (o : Observation store.State) (key : Bytes)
    (value : Option Bytes) where
  open store use {State, page_count}

  -- Reading a node first changes nothing that matters.
  pub Replaced-after :
      {s u w : State} (h : ℕ) (t : Tree h) (cs : List (Tree h × Bytes)) (last : Tree h)
      → Keeps o page_count s u
      → Replaced store o key value u w h t cs last
      → Replaced store o key value s w h t cs last
  Replaced-after h t cs last k r = record {
    head = r.head;
    first = r.first;
    stored = r.stored;
    ordered = r.ordered;
    chained = r.chained;
    old_pages = λ j p. r.old_pages j (omega (arith, k.count));
    new_pages = λ j p. r.new_pages j (omega (arith, k.count));
    node_count = omega (arith, r.node_count, k.count);
    frame =
        λ j v p q away holds. r.frame j v p (omega (arith, k.count)) away (k.nodes j v p q holds);
    grows = omega (arith, r.grows, k.count);
    root_same = r.root_same ∙ k.root_same;
    ready = r.ready;
  }
