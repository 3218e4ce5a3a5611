-- ===== src/Storage/Tree/Insert.antt =====
-- internal/storage/btree.go: `insert`, by recursion on the tree.
use rawth.Base.{
  ℕ, zero, suc, ◌+◌, ◌≤◌, ◌<◌, ◌≡◌, ap, ◌∙◌, List, [], ◌∷◌, none, some, arith, ok, err,
}
use rawth.Bytes.{Bytes}
use rawth.Storage.Fault.{Fault}
use rawth.Storage.Monad.{M}
use rawth.Storage.Node.View.{Entry, leaf, internal, to_node, cell_keys}
use rawth.Storage.Store.{NodeStore, Observation, IsNodeStore}
use rawth.Storage.Tree.{Split, insert, insert_leaf, insert_internal, child_page, child_index, adopt}
use rawth.Storage.Tree.Shape.{Tree, ids_row, page_no, occurs, view, Stored}
use rawth.Storage.Tree.Rows.{choose, child_page-choose, choose-le, AllRow-choose}
use rawth.Storage.Tree.Placed.{Kept, InPages, Kept-Stored, Kept-InPages, occurs-page_no}
use rawth.Storage.Tree.Grown.{Inserts, kept, split, overflow}
use rawth.Storage.Tree.Splice.{splice_cells, splice_last}
use rawth.Storage.Tree.Grown.{Replaced-after}
use rawth.Storage.Tree.Spliced.{replaced-Spliced}
use rawth.Storage.Tree.InnerInsert.{adopt-eq}
use rawth.Storage.Tree.InPlace.{Replaced-row}
use rawth.Storage.Tree.InnerStep.{inner_step}
use rawth.Storage.Tree.LeafInsert.{insert_leaf_lem}

module _ (store : NodeStore) (o : Observation store.State) (laws : IsNodeStore store o)
    (key value : Bytes) where
  open store use {State, page_count}

  Inserts-after :
      (m m' : M State Split) {s u : State} (h : ℕ) (t : Tree h)
      → Kept store o s u
      → m' s ≡ m u
      → Inserts store o key value m u h t
      → Inserts store o key value m' s h t
  Inserts-after m m' h t k e (kept w c q r) =
      kept w c (e ∙ q) (Replaced-after store o key (some value) h t [] c k r)
  Inserts-after m m' h t k e (split w l sk r q rep) =
      split w l sk r (e ∙ q) (Replaced-after store o key (some value) h t ((l, sk) ∷ []) r k rep)
  Inserts-after m m' h t k e (overflow w x q over) = overflow w x (e ∙ q) over

  insert-leaf :
      (fuel i next : ℕ) (es : List Entry) (s u : State)
      → store.read_node i s ≡ (ok (to_node (leaf es next)), u)
      → insert store (suc fuel) i key value s
        ≡ insert_leaf store i (to_node (leaf es next)) key value u
  unfolding insert to_node
  insert-leaf fuel i next es s u e = rw e

  insert-internal :
      (fuel i last : ℕ) (cs : List (ℕ × Bytes)) (s u : State)
      → store.read_node i s ≡ (ok (to_node (internal cs last)), u)
      → insert store (suc fuel) i key value s
        ≡ insert_internal store
            (λ child. insert store fuel child key value)
            i
            (to_node (internal cs last))
            key
            u
  unfolding insert to_node
  insert-internal fuel i last cs s u e = rw e

  -- The child is left, replaced in place, or split.
  module _ (below : ℕ → M State Split) (i last : ℕ) (cs : List (ℕ × Bytes)) (s u : State) where
    child-none :
        below (child_page (to_node (internal cs last)) (child_index key (cell_keys cs))) s
          ≡ (ok none, u)
        → insert_internal store below i (to_node (internal cs last)) key s ≡ (ok none, u)
    unfolding insert_internal to_node
    child-none e = rw e

    child-err :
        (x : Fault)
        → below (child_page (to_node (internal cs last)) (child_index key (cell_keys cs))) s
          ≡ (err x, u)
        → insert_internal store below i (to_node (internal cs last)) key s ≡ (err x, u)
    unfolding insert_internal to_node
    child-err x e = rw e

    child-split :
        (k : Bytes) (id : ℕ)
        → below (child_page (to_node (internal cs last)) (child_index key (cell_keys cs))) s
          ≡ (ok (some (k, id)), u)
        → insert_internal store below i (to_node (internal cs last)) key s
          ≡ adopt store i (to_node (internal cs last)) (child_index key (cell_keys cs)) k id u
    unfolding insert_internal to_node
    child-split k id e = rw e

  -- An internal node, given what the insertion makes of the child.
  module _ (h fuel : ℕ) (s : State) (t : Tree (suc h)) (stored : Stored o s (suc h) t)
      (placed : InPages store o s (suc h) t) (distinct : (j : ℕ) → occurs j (suc h) t ≤ 1)
      (room : page_count s + suc (suc h) < 4294967296) where
    abbrev child : Tree h
    child = choose key t.row.cells t.row.last

    abbrev below : ℕ → M State Split
    below i = insert store fuel i key value

    abbrev this : M State Split
    this = insert_internal store below t.page (to_node (view (suc h) t)) key

    at_child :
        below
          (child_page
            (to_node (view (suc h) t))
            (child_index key (cell_keys (ids_row (page_no h) t.row.cells))))
          s
        ≡ below (page_no h child) s
    at_child = ap (λ i. below i s) (child_page-choose (page_no h) key t.row.cells t.row.last)

    pub insert_into :
        Inserts store o key value (below (page_no h child)) s h child
        → Inserts store o key value this s (suc h) t
    insert_into (overflow w x q over) =
        overflow w x (child-err below t.page _ _ s w x (at_child ∙ q)) over
    insert_into (kept w c q rep) =
        kept w
          (record {
            page = t.page;
            row = record {
              cells = splice_cells key [] c t.row.cells t.row.last;
              last = splice_last key [] c t.row.cells t.row.last;
            };
          })
          (child-none below t.page _ _ s w (at_child ∙ q))
          (Replaced-row store o key (some value) s w h t stored placed distinct c rep)
    insert_into (split w l k r q rep) =
        inner_step store o laws key value s w h t placed distinct _ _
          (replaced-Spliced store o key (some value) s w h t stored.1 placed distinct ((l, k) ∷ [])
            r rep)
          (omega (arith, rep.grows)) this
          (child-split below t.page _ _ s w k (page_no h r) (at_child ∙ q)
            ∙ adopt-eq store o laws (page_no h) key t.page t.row.cells t.row.last l k r rep.head w)

  -- `insert` into a subtree that stands on pages of its own, with more fuel than its height and
  -- page numbers left, ends in place, with a split, or with an overflow error; in the first two
  -- cases the subtrees that replace it are on pages of their own, keep the order within the
  -- bounds, hold the old entries with the new one inserted, and keep the chain of leaves, and
  -- every page of no node of the subtree holds what it held.
  pub insert_lem :
      (h fuel : ℕ) (s : State) (t : Tree h)
      → h < fuel
      → o.IsReady s
      → Stored o s h t
      → InPages store o s h t
      → ((j : ℕ) → occurs j h t ≤ 1)
      → page_count s + suc h < 4294967296
      → Inserts store o key value (insert store fuel (page_no h t) key value) s h t
  insert_lem h zero s t f r st b d room = absurd (omega arith)
  insert_lem zero (suc fuel) s t f r st b d room =
      let (u, e, k) = laws.read s t.page _ r (b t.page (occurs-page_no zero t)).1 st.0 in
      Inserts-after (insert_leaf store t.page (to_node (leaf t.entries t.next)) key value)
        (insert store (suc fuel) t.page key value) zero t k
        (insert-leaf fuel t.page t.next t.entries s u e)
        (insert_leaf_lem store o laws key value u t k.ready (Kept-Stored store o zero t k b st)
          (Kept-InPages store o zero t k b) (omega (arith, k.count)))
  insert_lem (suc h) (suc fuel) s t f r st b d room =
      let (u, e, k) = laws.read s t.page _ r (b t.page (occurs-page_no (suc h) t)).1 st.0 in
      let stored = Kept-Stored store o (suc h) t k b st in
      Inserts-after
        (insert_internal store (λ i. insert store fuel i key value) t.page
          (to_node (view (suc h) t)) key)
        (insert store (suc fuel) t.page key value) (suc h) t k
        (insert-internal fuel t.page _ _ s u e)
        (insert_into h fuel u t stored (Kept-InPages store o (suc h) t k b) d
          (omega (arith, k.count))
          (insert_lem h fuel u (choose key t.row.cells t.row.last) (omega arith) k.ready
            (AllRow-choose (Stored o u h) key t.row.cells t.row.last stored.1)
            (λ j p.
              Kept-InPages store o (suc h) t k b j
                (omega (arith, choose-le (λ c. occurs j h c) key t.row.cells t.row.last)))
            (λ j. omega (arith, d j, choose-le (λ c. occurs j h c) key t.row.cells t.row.last))
            (omega (arith, k.count))))
