-- ===== src/Storage/Tree/Delete.antt =====
-- internal/storage/btree.go: `deleteFromNode`.
use rawth.Base.{
  ℕ, zero, suc, ◌≤◌, ◌<◌, ◌≡◌, ◌≢◌, refl, sym, ap, ◌∙◌, inl, inr, true, false, Bool, List, [], ◌∷◌,
  none, some, arith, ok, Option-cases,
}
use rawth.Bytes.{Bytes}
use rawth.Storage.Monad.{M, and_then}
use rawth.Storage.Node.{cell_area_size}
use rawth.Storage.Node.View.{
  Entry, leaf, internal, to_node, leaf_keys, cell_keys, entries_size, view_size,
}
use rawth.Storage.Entries.{Bound, Above, Below, find, remove}
use rawth.Storage.Entries.Sorted.{InBounds-remove, IsSorted-remove}
use rawth.Storage.Store.{NodeStore, Observation, IsNodeStore, Writes}
use rawth.Storage.Tree.{delete_from_node, child_page, child_index, leaf_find}
use rawth.Storage.Tree.Shape.{Tree, page_no, entries, occurs, Ordered, Stored}
use rawth.Storage.Tree.Rows.{
  choose, child_page-choose, choose-le, AllRow-choose, Ordered-choose, find-choose,
  Ordered-InBounds, Ordered-IsSorted,
}
use rawth.Storage.Tree.Placed.{Kept, InPages, Kept-trans, Kept-Stored, Kept-InPages, occurs-page_no}
use rawth.Storage.Tree.Slots.{find_removes, find_misses}
use rawth.Storage.Tree.Grown.{Replaced, Replaced-after}
use rawth.Storage.Tree.InPlace.{Replaced-row, with_child}

size-remove : (key : Bytes) (es : List Entry) → entries_size (remove key es) ≤ entries_size es
unfolding remove entries_size
size-remove key [] = omega arith
size-remove key ((k, v) ∷ es) = ground (arith, size-remove key es)

find_finds :
    (key : Bytes) (es : List Entry) (i : ℕ)
    → leaf_find key (leaf_keys es) ≡ some i
    → find key es ≢ none
unfolding leaf_find find
find_finds key [] i h = cc
find_finds key ((k, v) ∷ es) zero h = ground arith
find_finds key ((k, v) ∷ es) (suc i) h = ground (arith, find_finds key es i)

module _ (store : NodeStore) (o : Observation store.State) (key : Bytes) where
  open store use {State, page_count}

  -- How the deletion from a subtree ends.
  pub data Deletes (m : M State Bool) (s : State) (h : ℕ) (t : Tree h) : Type 0 where
    missing :
        (u : State)
        → m s ≡ (ok false, u)
        → find key (entries h t) ≡ none
        → Kept store o s u
        → Deletes m s h t
    removed :
        (u : State) (c : Tree h)
        → m s ≡ (ok true, u)
        → find key (entries h t) ≢ none
        → Replaced store o key none s u h t [] c
        → Deletes m s h t

  module _ (laws : IsNodeStore store o) where
    leaf-missing :
        (fuel i next : ℕ) (es : List Entry) (s u : State)
        → store.read_node i s ≡ (ok (to_node (leaf es next)), u)
        → leaf_find key (leaf_keys es) ≡ none
        → delete_from_node store (suc fuel) i key s ≡ (ok false, u)
    unfolding delete_from_node to_node
    leaf-missing fuel i next es s u e f = rw (e, f)

    leaf-removed :
        (fuel i next x : ℕ) (es : List Entry) (s u : State)
        → store.read_node i s ≡ (ok (to_node (leaf es next)), u)
        → leaf_find key (leaf_keys es) ≡ some x
        → delete_from_node store (suc fuel) i key s
          ≡ and_then
              (store.write_node i (to_node (leaf (remove key es) next)) u)
              (λ _ w. (ok true, w))
    unfolding delete_from_node to_node
    leaf-removed fuel i next x es s u e f = let (a, b) = find_removes key es x f in rw (e, f, a, b)

    inner-delete :
        (fuel i last : ℕ) (cs : List (ℕ × Bytes)) (s u : State)
        → store.read_node i s ≡ (ok (to_node (internal cs last)), u)
        → delete_from_node store (suc fuel) i key s
          ≡ delete_from_node store fuel
              (child_page (to_node (internal cs last)) (child_index key (cell_keys cs)))
              key
              u
    unfolding delete_from_node to_node
    inner-delete fuel i last cs s u e = rw e

    -- The leaf without the entry is written to the same page.
    pruned :
        (u w : State) (t : Tree 0)
        → Stored o u 0 t
        → InPages store o u 0 t
        → Writes o page_count u w t.page (leaf (remove key t.entries) t.next)
        → Replaced store o key none u w 0 t []
            (record { page = t.page; entries = remove key t.entries; next = t.next })
    pruned u w t st placed done = record {
      head = refl;
      first = refl;
      stored = (done.node, st.1);
      ordered = λ lo hi ord above below.
          ((InBounds-remove lo hi key t.entries ord.0, IsSorted-remove key t.entries ord.1), refl);
      chained = λ after ch. ch;
      old_pages = λ j p. refl;
      new_pages = λ j p. ground (arith, placed j, done.count);
      node_count = omega (arith, done.count);
      frame = λ j v p q away holds. done.nodes j v p q (λ same. ground (arith, away, same)) holds;
      grows = omega (arith, done.count);
      root_same = done.root_same;
      ready = done.ready;
    }

    Deletes-after :
        (m m' : M State Bool) {s u : State} (h : ℕ) (t : Tree h)
        → Kept store o s u
        → m' s ≡ m u
        → Deletes m u h t
        → Deletes m' s h t
    Deletes-after m m' h t k e (missing w q f k') = missing w (e ∙ q) f (Kept-trans store o k k')
    Deletes-after m m' h t k e (removed w c q f rep) =
        removed w c (e ∙ q) f (Replaced-after store o key none h t [] c k rep)

    delete_leaf :
        (fuel : ℕ) (s : State) (t : Tree 0)
        → o.IsReady s
        → Stored o s 0 t
        → InPages store o s 0 t
        → Deletes (delete_from_node store (suc fuel) t.page key) s 0 t
    unfolding view_size
    delete_leaf fuel s t r st b =
        let (u, e, k) = laws.read s t.page _ r (b t.page (occurs-page_no zero t)).1 st.0 in
        let stored = Kept-Stored store o zero t k b st in
        let placed = Kept-InPages store o zero t k b in
        elim (Option-cases (leaf_find key (leaf_keys t.entries))) [
          | inl f ↦
              missing u (leaf-missing fuel t.page t.next t.entries s u e f)
                (find_misses key t.entries f).1 k
          | inr (x, f) ↦
              let (w, q, done) =
                laws.write u t.page (leaf (remove key t.entries) t.next) k.ready
                  (placed t.page (occurs-page_no zero t)).1 stored.1 (fits u stored) in
              removed w (record { page = t.page; entries = remove key t.entries; next = t.next })
                (leaf-removed fuel t.page t.next x t.entries s u e f ∙ rw q)
                (find_finds key t.entries x f)
                (Replaced-after store o key none 0 t [] _ k (pruned u w t stored placed done))
        ]
      where
        fits : (u : State) → Stored o u 0 t → entries_size (remove key t.entries) ≤ cell_area_size
        fits u stored = omega (arith, size-remove key t.entries, laws.sized u t.page _ stored.0)

    -- Enough fuel: one step for each level.
    pub delete_from_node_lem :
        (h fuel : ℕ) (s : State) (t : Tree h) (lo hi : Bound)
        → h < fuel
        → o.IsReady s
        → Stored o s h t
        → InPages store o s h t
        → ((j : ℕ) → occurs j h t ≤ 1)
        → Ordered h lo hi t
        → Above lo key
        → Below key hi
        → Deletes (delete_from_node store fuel (page_no h t) key) s h t
    delete_from_node_lem h zero s t lo hi f r st b d w above below = absurd (omega arith)
    delete_from_node_lem zero (suc fuel) s t lo hi f r st b d w above below =
        delete_leaf fuel s t r st b
    delete_from_node_lem (suc h) (suc fuel) s t lo hi f r st b d w above below =
        let (u, e, k) = laws.read s t.page _ r (b t.page (occurs-page_no (suc h) t)).1 st.0 in
        let cs = t.row.cells in
        let c = choose key cs t.row.last in
        let stored = Kept-Stored store o (suc h) t k b st in
        let placed = Kept-InPages store o (suc h) t k b in
        let chosen = Ordered-choose (Ordered h) key lo hi cs t.row.last w above below in
        Deletes-after (delete_from_node store fuel (page_no h c) key)
          (delete_from_node store (suc fuel) t.page key) (suc h) t k
          (inner-delete fuel t.page _ _ s u e
            ∙ ap (λ i. delete_from_node store fuel i key u)
                (child_page-choose (page_no h) key cs t.row.last))
          (lift_result u stored placed
            (find-choose (Ordered h) (entries h) (Ordered-InBounds h) (Ordered-IsSorted h) key lo hi
              cs t.row.last w)
            (delete_from_node_lem h fuel u c chosen.lo chosen.hi (omega arith) k.ready
              (AllRow-choose (Stored o u h) key cs t.row.last stored.1)
              (λ j p. placed j (omega (arith, choose-le (λ x. occurs j h x) key cs t.row.last)))
              (λ j. omega (arith, d j, choose-le (λ x. occurs j h x) key cs t.row.last))
              chosen.ordered chosen.above chosen.below))
      where
        lift_result :
            (u : State)
            → Stored o u (suc h) t
            → InPages store o u (suc h) t
            → find key (entries (suc h) t)
              ≡ find key (entries h (choose key t.row.cells t.row.last))
            → Deletes
                (delete_from_node store fuel (page_no h (choose key t.row.cells t.row.last)) key)
                u
                h
                (choose key t.row.cells t.row.last)
            → Deletes
                (delete_from_node store fuel (page_no h (choose key t.row.cells t.row.last)) key)
                u
                (suc h)
                t
        lift_result u stored placed same (missing v q g k') = missing v q (same ∙ g) k'
        lift_result u stored placed same (removed v c' q g rep) =
            removed v (with_child store o key none u v h t stored placed d c') q
              (λ x. g (sym same ∙ x)) (Replaced-row store o key none u v h t stored placed d c' rep)
