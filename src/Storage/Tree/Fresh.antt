-- ===== src/Storage/Tree/Fresh.antt =====
-- internal/storage/btree.go: `NewBPlusTree`.
use rawth.Base.{◌+◌, ◌<◌, ◌≡◌, refl, ◌∙◌, List, [], arith, ok}
use rawth.Storage.Monad.{and_then}
use rawth.Storage.Node.{make_leaf_node}
use rawth.Storage.Node.View.{Entry, leaf, to_node, view_size, entries_size}
use rawth.Storage.Store.{NodeStore, Observation, IsNodeStore}
use rawth.Storage.Tree.{new_tree}
use rawth.Storage.Tree.Placed.{occurs-page_no}
use rawth.Storage.Tree.Contract.{Represents}

module _ (store : NodeStore) (o : Observation store.State) (laws : IsNodeStore store o)
    (s : store.State) where
  open store use {State, page_count}

  new_tree-eq :
      o.root s ≡ 0
      → new_tree store s
        ≡ and_then (store.allocate_page s) (λ id u.
          and_then (store.write_node id (to_node (leaf [] 0)) u) (λ _ v. store.set_root_page id v))
  unfolding new_tree to_node make_leaf_node
  new_tree-eq e = rw (laws.get_root s, e)

  -- On a ready store without a root, with at least one page and a page number left, `NewBPlusTree`
  -- succeeds and the database represents the empty list.
  pub new_tree_lem :
      o.root s ≡ 0
      → o.IsReady s
      → 0 < page_count s
      → page_count s + 1 < 4294967296
      → (u : State) × (new_tree store s ≡ (ok tt, u)) × Represents store o u []
  unfolding view_size entries_size
  new_tree_lem e ready pos room =
      let (u, ea, a) = laws.allocate s ready room in
      let (v, eb, b) =
        laws.write u (page_count s) (leaf [] 0) a.ready (omega (arith, a.count)) (omega arith)
          (omega arith) in
      let (w, ec, c) = laws.set_root v (page_count s) b.ready in
      (
        w,
        new_tree-eq e ∙ rw (ea, eb, ec),
        record {
          height = 0;
          tree = record { page = page_count s; entries = []; next = 0 };
          at_root = c.root_new;
          ready = c.ready;
          stored = (
            c.nodes (page_count s) (leaf [] 0) pos (omega (arith, a.count, b.count)) b.node,
            omega arith,
          );
          placed = λ j p. ground (arith, pos, a.count, b.count, c.count);
          distinct = λ j. ground arith;
          ordered = (tt, tt);
          chained = refl;
          fits = omega (arith, pos, a.count, b.count, c.count);
          same = refl;
        },
      )

  -- One that has a tree is left as it is.
  pub new_tree-again : (es : List Entry) → Represents store o s es → new_tree store s ≡ (ok tt, s)
  unfolding new_tree
  new_tree-again es r =
      rw (laws.get_root s)
        (ground (arith, r.at_root, r.placed (o.root s), occurs-page_no r.height r.tree))
