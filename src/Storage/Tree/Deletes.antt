-- ===== src/Storage/Tree/Deletes.antt =====
-- internal/storage/btree.go: `Delete`.
use rawth.Base.{
  ◌≡◌, ◌≢◌, sym, ap, ◌∙◌, List, [], none, true, false, arith, ok, err, le-cases, inl, inr,
}
use rawth.Bytes.{Bytes}
use rawth.Storage.Fault.{key_not_found}
use rawth.Storage.Node.View.{Entry}
use rawth.Storage.Entries.{find, remove}
use rawth.Storage.Store.{NodeStore, Observation, IsNodeStore}
use rawth.Storage.Tree.{delete, delete_from_node}
use rawth.Storage.Tree.Shape.{Tree, page_no}
use rawth.Storage.Tree.Grown.{Replaced}
use rawth.Storage.Tree.Delete.{Deletes, missing, removed, delete_from_node_lem}
use rawth.Storage.Tree.Contract.{Represents, Represents-Kept, fuel_enough}

module _ (store : NodeStore) (o : Observation store.State) where
  open store use {State, page_count}

  -- A tree that takes the place of the whole tree, on the same pages or on new ones.
  pub replaced-Represents :
      (key : Bytes) (s u : State) (es : List Entry) (r : Represents store o s es)
      (t : Tree r.height)
      → Replaced store o key none s u r.height r.tree [] t
      → Represents store o u (remove key es)
  replaced-Represents key s u es r t rep = record {
    height = r.height;
    tree = t;
    at_root = rep.root_same ∙ r.at_root ∙ sym rep.head;
    ready = rep.ready;
    stored = rep.stored;
    placed = λ j p. elim (le-cases (page_count s) j) [
      | inl new ↦ (omega (arith, new, r.fits), (rep.new_pages j new).1 p)
      | inr old ↦
          let (a, b) = r.placed j (omega (arith, rep.old_pages j old)) in
          (a, omega (arith, old, rep.grows))
    ];
    distinct = λ j. elim (le-cases (page_count s) j) [
      | inl new ↦ (rep.new_pages j new).0
      | inr old ↦ omega (arith, rep.old_pages j old, r.distinct j)
    ];
    ordered = (rep.ordered none none r.ordered tt tt).0;
    chained = rep.chained 0 r.chained;
    fits = omega (arith, rep.node_count, r.fits);
    same = (rep.ordered none none r.ordered tt tt).1 ∙ ap (remove key) r.same;
  }

  -- How `Delete` ends: the key was there and its entry is gone, or it was not.
  pub data Removes (s : State) (es : List Entry) (key : Bytes) : Type 0 where
    gone :
        (u : State)
        → find key es ≢ none
        → delete store key s ≡ (ok tt, u)
        → Represents store o u (remove key es)
        → Removes s es key
    not_found :
        (u : State)
        → find key es ≡ none
        → delete store key s ≡ (err key_not_found, u)
        → Represents store o u es
        → Removes s es key

  module _ (laws : IsNodeStore store o) (key : Bytes) (s : State) (es : List Entry)
      (r : Represents store o s es) where
    delete-gone :
        (u : State)
        → delete_from_node store (page_count s) (o.root s) key s ≡ (ok true, u)
        → delete store key s ≡ store.flush u
    unfolding delete
    delete-gone u e = rw (laws.get_root s, e)

    delete-missing :
        (u : State)
        → delete_from_node store (page_count s) (o.root s) key s ≡ (ok false, u)
        → delete store key s ≡ (err key_not_found, u)
    unfolding delete
    delete-missing u e = rw (laws.get_root s, e)

    -- On a database that represents a list of entries, `Delete` of a key in the list succeeds and
    -- the database represents the list without that entry; for a key that is not in the list it
    -- returns the error that the key is not found, and the database represents the same list.
    pub delete_lem : Removes s es key
    delete_lem = by_node at_tree
      where
        from_root :
            delete_from_node store (page_count s) (o.root s) key s
            ≡ delete_from_node store (page_count s) (page_no r.height r.tree) key s
        from_root = ap (λ i. delete_from_node store (page_count s) i key s) r.at_root

        at_tree :
            Deletes store o key
              (delete_from_node store (page_count s) (page_no r.height r.tree) key)
              s
              r.height
              r.tree
        at_tree =
            delete_from_node_lem store o key laws r.height (page_count s) s r.tree none none
              (fuel_enough store o s es r) r.ready r.stored r.placed r.distinct r.ordered tt tt

        by_node :
            Deletes store o key
              (delete_from_node store (page_count s) (page_no r.height r.tree) key)
              s
              r.height
              r.tree
            → Removes s es key
        by_node (missing u e f k) =
            not_found u (ap (find key) (sym r.same) ∙ f) (delete-missing u (from_root ∙ e))
              (Represents-Kept store o es k r)
        by_node (removed u c e f rep) =
            let (w, q, k) = laws.flushes u rep.ready in
            gone w (λ x. f (ap (find key) r.same ∙ x)) (delete-gone u (from_root ∙ e) ∙ q)
              (Represents-Kept store o _ k (replaced-Represents key s u es r c rep))
