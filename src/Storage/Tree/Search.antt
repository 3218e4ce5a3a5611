-- ===== src/Storage/Tree/Search.antt =====
-- internal/storage/btree.go: `search`.
use rawth.Base.{
  ℕ, zero, suc, ◌<◌, ◌≡◌, refl, sym, ap, ◌∙◌, List, [], ◌∷◌, Option, none, some, arith, Outcome, ok,
  err,
}
use rawth.Bytes.{Bytes}
use rawth.Storage.Fault.{Fault, key_not_found}
use rawth.Storage.Node.View.{Entry, leaf, internal, to_node, leaf_keys, leaf_values, cell_keys}
use rawth.Storage.Entries.{Bound, Above, Below, find}
use rawth.Storage.Store.{NodeStore, Observation, IsNodeStore}
use rawth.Storage.Tree.{leaf_get, search, child_page, child_index}
use rawth.Storage.Tree.Shape.{Tree, page_no, entries, occurs, Ordered, Stored}
use rawth.Storage.Tree.Placed.{Kept, InPages, Kept-trans, Kept-Stored, Kept-InPages, occurs-page_no}
use rawth.Storage.Tree.Rows.{
  choose, Ordered-choose, child_page-choose, choose-le, AllRow-choose, find-choose,
  Ordered-InBounds, Ordered-IsSorted,
}

-- What a lookup returns.
abbrev pub found_or_not : Option Bytes → Outcome Fault Bytes
found_or_not none = err key_not_found
found_or_not (some v) = ok v

leaf_get-find :
    (key : Bytes) (es : List Entry)
    → leaf_get key (leaf_keys es) (leaf_values es) ≡ found_or_not (find key es)
unfolding leaf_get find
leaf_get-find key [] = refl
leaf_get-find key ((k, v) ∷ es) = ground (arith, leaf_get-find key es)

module _ (store : NodeStore) (o : Observation store.State) (laws : IsNodeStore store o) where
  open store use {State, page_count}

  search-leaf :
      (fuel i next : ℕ) (es : List Entry) (key : Bytes) (s u : State)
      → store.read_node i s ≡ (ok (to_node (leaf es next)), u)
      → search store (suc fuel) i key s ≡ (leaf_get key (leaf_keys es) (leaf_values es), u)
  unfolding search to_node
  search-leaf fuel i next es key s u e = rw e

  search-internal :
      (fuel i last : ℕ) (cs : List (ℕ × Bytes)) (key : Bytes) (s u : State)
      → store.read_node i s ≡ (ok (to_node (internal cs last)), u)
      → search store (suc fuel) i key s
        ≡ search store fuel
            (child_page (to_node (internal cs last)) (child_index key (cell_keys cs)))
            key
            u
  unfolding search to_node
  search-internal fuel i last cs key s u e = rw e

  -- Enough fuel: one step for each level.
  pub search_lem :
      (h fuel : ℕ) (s : State) (t : Tree h) (lo hi : Bound) (key : Bytes)
      → h < fuel
      → o.IsReady s
      → Stored o s h t
      → InPages store o s h t
      → Ordered h lo hi t
      → Above lo key
      → Below key hi
      → (u : State) × (search store fuel (page_no h t) key s
          ≡ (found_or_not (find key (entries h t)), u))
        × Kept store o s u
  search_lem h zero s t lo hi key f r st b w above below = absurd (omega arith)
  search_lem zero (suc fuel) s t lo hi key f r st b w above below =
      let (u, e, k) = laws.read s t.page _ r (b t.page (occurs-page_no zero t)).1 st.0 in
      (
        u,
        search-leaf fuel t.page t.next t.entries key s u e
            ∙ ap (λ x. (x, u)) (leaf_get-find key t.entries),
        k,
      )
  search_lem (suc h) (suc fuel) s t lo hi key f r st b w above below =
      let (u, e, k) = laws.read s t.page _ r (b t.page (occurs-page_no (suc h) t)).1 st.0 in
      let cs = t.row.cells in
      let c = choose key cs t.row.last in
      let stored = Kept-Stored store o (suc h) t k b st in
      let chosen = Ordered-choose (Ordered h) key lo hi cs t.row.last w above below in
      let (v, e', k') =
        search_lem h fuel u c chosen.lo chosen.hi key (omega arith) k.ready
          (AllRow-choose (Stored o u h) key cs t.row.last stored.1)
          (λ j p.
            Kept-InPages store o (suc h) t k b j
              (omega (arith, choose-le (λ d. occurs j h d) key cs t.row.last)))
          chosen.ordered chosen.above chosen.below in
      (
        v,
        search-internal fuel t.page _ _ key s u e
            ∙ ap (λ i. search store fuel i key u) (child_page-choose (page_no h) key cs t.row.last)
            ∙ e'
            ∙ ap (λ x. (found_or_not x, v))
                (sym (
                  find-choose (Ordered h) (entries h) (Ordered-InBounds h) (Ordered-IsSorted h) key
                    lo hi cs t.row.last w)),
        Kept-trans store o k k',
      )
