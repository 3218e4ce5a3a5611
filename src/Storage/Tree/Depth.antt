-- ===== src/Storage/Tree/Depth.antt =====
-- internal/storage/btree.go: `Depth` and `depth`.
use rawth.Base.{
  ℕ, zero, suc, ◌+◌, ◌<◌, ◌≡◌, ap, ◌∙◌, List, arith, ok, length, get_or, ltb, if◌then◌else◌,
}
use rawth.Bytes.{Bytes}
use rawth.Storage.Monad.{and_then}
use rawth.Storage.Node.View.{Entry, leaf, internal, to_node}
use rawth.Storage.Store.{NodeStore, Observation, IsNodeStore}
use rawth.Storage.Tree.{depth, depth_from}
use rawth.Storage.Tree.Shape.{Tree, head_row, page_no, occurs, Stored}
use rawth.Storage.Tree.Rows.{AllRow-head, head_row-le}
use rawth.Storage.Tree.Placed.{Kept, InPages, Kept-trans, Kept-Stored, Kept-InPages, occurs-page_no}
use rawth.Storage.Tree.Scan.{first_child}
use rawth.Storage.Tree.Contract.{Represents, Represents-Kept, fuel_enough}

module _ (store : NodeStore) (o : Observation store.State) (laws : IsNodeStore store o) where
  open store use {State, page_count}

  depth-leaf :
      (fuel i next : ℕ) (es : List Entry) (s u : State)
      → store.read_node i s ≡ (ok (to_node (leaf es next)), u)
      → depth_from store (suc fuel) i s ≡ (ok 1, u)
  unfolding depth_from to_node
  depth-leaf fuel i next es s u e = rw e

  depth-internal :
      (fuel i last : ℕ) (cs : List (ℕ × Bytes)) (s u : State)
      → store.read_node i s ≡ (ok (to_node (internal cs last)), u)
      → depth_from store (suc fuel) i s
        ≡ and_then
            (depth_from store fuel
              (let n = to_node (internal cs last) in
                if ltb 0 (length n.children) then get_or n.children 0 0 else n.right_ptr)
              u)
            (λ d w. (ok (d + 1), w))
  unfolding depth_from to_node
  depth-internal fuel i last cs s u e = rw e

  -- Enough fuel: one step for each level.
  depth_from_lem :
      (h fuel : ℕ) (s : State) (t : Tree h)
      → h < fuel
      → o.IsReady s
      → Stored o s h t
      → InPages store o s h t
      → (u : State) × (depth_from store fuel (page_no h t) s ≡ (ok (h + 1), u)) × Kept store o s u
  depth_from_lem h zero s t f r st b = absurd (omega arith)
  depth_from_lem zero (suc fuel) s t f r st b =
      let (u, e, k) = laws.read s t.page _ r (b t.page (occurs-page_no zero t)).1 st.0 in
      (u, depth-leaf fuel t.page t.next t.entries s u e, k)
  depth_from_lem (suc h) (suc fuel) s t f r st b =
      let (u, e, k) = laws.read s t.page _ r (b t.page (occurs-page_no (suc h) t)).1 st.0 in
      let cs = t.row.cells in
      let last = t.row.last in
      let stored = Kept-Stored store o (suc h) t k b st in
      let (v, q, k') =
        depth_from_lem h fuel u (head_row cs last) (omega arith) k.ready
          (AllRow-head (Stored o u h) cs last stored.1)
          (λ j p.
            Kept-InPages store o (suc h) t k b j
              (omega (arith, head_row-le (λ c. occurs j h c) cs last))) in
      (
        v,
        depth-internal fuel t.page _ _ s u e
            ∙ ap (λ i. and_then (depth_from store fuel i u) (λ d w. (ok (d + 1), w)))
                (first_child (page_no h) cs last)
            ∙ ap (λ x. and_then x (λ d w. (ok (d + 1), w))) q
            ∙ ap (λ n. (ok n, v)) one_more,
        Kept-trans store o k k',
      )
    where
      one_more : h + 1 + 1 ≡ suc h + 1
      one_more = omega arith

  -- On a database that represents a list of entries, `Depth` returns one more than the height of
  -- its tree, the number of nodes on the way from the root to any leaf, and the database
  -- represents the same list afterwards.
  pub depth_lem :
      (s : State) (es : List Entry) (r : Represents store o s es)
      → (u : State) × (depth store s ≡ (ok (r.height + 1), u)) × Represents store o u es
  unfolding depth
  depth_lem s es r =
      let (u, e, k) =
        depth_from_lem r.height (page_count s) s r.tree (fuel_enough store o s es r) r.ready
          r.stored r.placed in
      (
        u,
        rw (laws.get_root s) (ap (λ i. depth_from store (page_count s) i s) r.at_root ∙ e),
        Represents-Kept store o es k r,
      )
