-- ===== src/Storage/Tree/Scan.antt =====
-- internal/storage/btree.go: `findLeftmostLeaf`, and the loop over the chain of leaves.
use rawth.Base.{
  ℕ, zero, suc, ◌+◌, ◌≤◌, ◌<◌, ◌≡◌, refl, sym, ap, ◌∙◌, false, List, [], ◌∷◌, ◌++◌, arith, ok,
  length, get_or, ltb, ◌==◌, if◌then◌else◌, Outcome, ◌-◌,
}
use rawth.Bytes.{Bytes}
use rawth.Storage.Fault.{Fault}
use rawth.Storage.Node.{Node}
use rawth.Storage.Node.View.{Entry, leaf, internal, to_node}
use rawth.Storage.Store.{NodeStore, Observation, IsNodeStore}
use rawth.Storage.Tree.{find_leftmost_leaf, scan_leaves}
use rawth.Storage.Tree.Shape.{
  Tree, sum_row, concat_row, ids_row, head_row, AllRow, ChainedRow, page_no, entries, nodes, occurs,
  first_leaf, Chained, Stored,
}
use rawth.Storage.Tree.Rows.{AllRow-head, head_row-le}
use rawth.Storage.Tree.Placed.{
  Kept, InPages, Kept-trans, Kept-Stored, Kept-InPages, AllRow-imp, occurs-page_no,
}

-- The number of leaves.
abbrev pub leaves : (h : ℕ) → Tree h → ℕ
leaves zero t = 1
leaves (suc h) t = sum_row (leaves h) t.row.cells t.row.last

sum_row-le :
    {T : Type 0} (f g : T → ℕ) (cs : List (T × Bytes)) (t : T)
    → ((c : T) → f c ≤ g c)
    → sum_row f cs t ≤ sum_row g cs t
sum_row-le f g [] t h = h t
sum_row-le f g ((c, k) ∷ cs) t h = omega (arith, h c, sum_row-le f g cs t h)

pub leaves-nodes : (h : ℕ) (t : Tree h) → leaves h t ≤ nodes h t
leaves-nodes zero t = omega arith
leaves-nodes (suc h) t =
    omega (arith, sum_row-le (leaves h) (nodes h) t.row.cells t.row.last (leaves-nodes h))

pub first_child :
    {T : Type 0} (f : T → ℕ) (cs : List (T × Bytes)) (t : T)
    → (let n = to_node (internal (ids_row f cs) (f t)) in
        if ltb 0 (length n.children) then get_or n.children 0 0 else n.right_ptr)
      ≡ f (head_row cs t)
unfolding to_node
first_child f [] t = refl
first_child f ((c, k) ∷ cs) t = ground arith

module _ (store : NodeStore) (o : Observation store.State) (laws : IsNodeStore store o) where
  open store use {State, page_count}

  leftmost-leaf :
      (fuel i next : ℕ) (es : List Entry) (s u : State)
      → store.read_node i s ≡ (ok (to_node (leaf es next)), u)
      → find_leftmost_leaf store (suc fuel) i s ≡ (ok i, u)
  unfolding find_leftmost_leaf to_node
  leftmost-leaf fuel i next es s u e = rw e

  leftmost-internal :
      (fuel i last : ℕ) (cs : List (ℕ × Bytes)) (s u : State)
      → store.read_node i s ≡ (ok (to_node (internal cs last)), u)
      → find_leftmost_leaf store (suc fuel) i s
        ≡ find_leftmost_leaf store fuel
            (let n = to_node (internal cs last) in
              if ltb 0 (length n.children) then get_or n.children 0 0 else n.right_ptr)
            u
  unfolding find_leftmost_leaf to_node
  leftmost-internal fuel i last cs s u e = rw e

  -- Enough fuel: one step for each level.
  pub find_leftmost_leaf_lem :
      (h fuel : ℕ) (s : State) (t : Tree h)
      → h < fuel
      → o.IsReady s
      → Stored o s h t
      → InPages store o s h t
      → (u : State) × (find_leftmost_leaf store fuel (page_no h t) s ≡ (ok (first_leaf h t), u))
        × Kept store o s u
  find_leftmost_leaf_lem h zero s t f r st b = absurd (omega arith)
  find_leftmost_leaf_lem zero (suc fuel) s t f r st b =
      let (u, e, k) = laws.read s t.page _ r (b t.page (occurs-page_no zero t)).1 st.0 in
      (u, leftmost-leaf fuel t.page t.next t.entries s u e, k)
  find_leftmost_leaf_lem (suc h) (suc fuel) s t f r st b =
      let (u, e, k) = laws.read s t.page _ r (b t.page (occurs-page_no (suc h) t)).1 st.0 in
      let cs = t.row.cells in
      let last = t.row.last in
      let stored = Kept-Stored store o (suc h) t k b st in
      let (v, q, k') =
        find_leftmost_leaf_lem h fuel u (head_row cs last) (omega arith) k.ready
          (AllRow-head (Stored o u h) cs last stored.1)
          (λ j p.
            Kept-InPages store o (suc h) t k b j
              (omega (arith, head_row-le (λ c. occurs j h c) cs last))) in
      (
        v,
        leftmost-internal fuel t.page _ _ s u e
            ∙ ap (λ i. find_leftmost_leaf store fuel i u) (first_child (page_no h) cs last)
            ∙ q,
        Kept-trans store o k k',
      )

  -- A visit that takes the entries of a leaf one after the other.
  module _ {A : Type 0} (visit : A → Node → Outcome Fault A) (step : A → List Entry → A)
      (visits : (acc : A) (es : List Entry) (next : ℕ)
        → visit acc (to_node (leaf es next)) ≡ ok (step acc es))
      (steps : (acc : A) (xs ys : List Entry) → step acc (xs ++ ys) ≡ step (step acc xs) ys) where
    abbrev Scans : ℕ → ℕ → ℕ → List Entry → State → Type 0
    Scans first after n es s =
        (fuel : ℕ) (acc : A)
        → (u : State) × (scan_leaves store visit (n + fuel) first acc s
            ≡ scan_leaves store visit fuel after (step acc es) u)
          × Kept store o s u

    scan-leaf :
        (fuel i next : ℕ) (es : List Entry) (acc : A) (s u : State)
        → 0 < i
        → store.read_node i s ≡ (ok (to_node (leaf es next)), u)
        → scan_leaves store visit (suc fuel) i acc s
          ≡ scan_leaves store visit fuel next (step acc es) u
    unfolding scan_leaves to_node
    scan-leaf fuel i next es acc s u pos e = rw (not_zero, e, visits acc es next)
      where
        not_zero : (i == 0) ≡ false
        not_zero = ground (arith, pos)

    module _ (h : ℕ)
        (one : (s : State) (t : Tree h) (after : ℕ)
          → o.IsReady s
          → Stored o s h t
          → InPages store o s h t
          → Chained h t after
          → Scans (first_leaf h t) after (leaves h t) (entries h t) s) where
      scan_row :
          (cs : List (Tree h × Bytes)) (t : Tree h) (s : State) (after : ℕ)
          → o.IsReady s
          → AllRow (Stored o s h) cs t
          → ((j : ℕ) → 1 ≤ sum_row (occurs j h) cs t → (0 < j) × (j < page_count s))
          → ChainedRow (Chained h) (first_leaf h) cs t after
          → Scans
              (first_leaf h (head_row cs t))
              after
              (sum_row (leaves h) cs t)
              (concat_row (entries h) cs t)
              s
      scan_row [] t s after r st b ch fuel acc = one s t after r st b ch fuel acc
      scan_row ((c, key) ∷ cs) t s after r (sc, st) b (ch_c, ch) fuel acc =
          let (u, e, k) =
            one s c (first_leaf h (head_row cs t)) r sc (λ j p. b j (omega arith)) ch_c
              (sum_row (leaves h) cs t + fuel) acc in
          let (v, q, k') =
            scan_row cs t u after k.ready
              (AllRow-imp (λ j. occurs j h) (Stored o s h) (Stored o u h) cs t
                (λ d le. Kept-Stored store o h d k (λ j p. b j (omega (arith, le j)))) st)
              (λ j p. omega (arith, k.count, b j (omega arith))) ch fuel (step acc (entries h c)) in
          (
            v,
            ap (λ n. scan_leaves store visit n (first_leaf h c) acc s)
                  (add_assoc (leaves h c) (sum_row (leaves h) cs t) fuel)
                ∙ e
                ∙ q
                ∙ ap (λ x. scan_leaves store visit fuel after x v)
                    (sym (steps acc (entries h c) (concat_row (entries h) cs t))),
            Kept-trans store o k k',
          )
        where
          add_assoc : (a b c : ℕ) → (a + b) + c ≡ a + (b + c)
          add_assoc a b c = omega arith

    pub scan_tree :
        (h : ℕ) (s : State) (t : Tree h) (after : ℕ)
        → o.IsReady s
        → Stored o s h t
        → InPages store o s h t
        → Chained h t after
        → Scans (first_leaf h t) after (leaves h t) (entries h t) s
    scan_tree zero s t after r st b ch fuel acc =
        let (pos, bound) = b t.page (occurs-page_no zero t) in
        let (u, e, k) = laws.read s t.page _ r bound st.0 in
        (
          u,
          ap (λ n. scan_leaves store visit n t.page acc s) one_more
              ∙ scan-leaf fuel t.page t.next t.entries acc s u pos e
              ∙ ap (λ i. scan_leaves store visit fuel i (step acc t.entries) u) ch,
          k,
        )
      where
        one_more : 1 + fuel ≡ suc fuel
        one_more = omega arith
    scan_tree (suc h) s t after r st b ch fuel acc =
        scan_row h (scan_tree h) t.row.cells t.row.last s after r st.1 (λ j p. b j (omega arith)) ch
          fuel acc

    scan-end : (fuel : ℕ) (acc : A) (s : State) → scan_leaves store visit fuel 0 acc s ≡ (ok acc, s)
    unfolding scan_leaves
    scan-end zero acc s = refl
    scan-end (suc fuel) acc s = refl

    -- With as much fuel as there are leaves, the loop visits every entry in order.
    pub scan_leaves_lem :
        (h fuel : ℕ) (s : State) (t : Tree h) (acc : A)
        → leaves h t ≤ fuel
        → o.IsReady s
        → Stored o s h t
        → InPages store o s h t
        → Chained h t 0
        → (u : State) × (scan_leaves store visit fuel (first_leaf h t) acc s
            ≡ (ok (step acc (entries h t)), u))
          × Kept store o s u
    scan_leaves_lem h fuel s t acc le r st b ch =
        let (u, e, k) = scan_tree h s t 0 r st b ch (fuel - leaves h t) acc in
        (
          u,
          ap (λ n. scan_leaves store visit n (first_leaf h t) acc s) (omega (arith, le))
              ∙ e
              ∙ scan-end (fuel - leaves h t) (step acc (entries h t)) u,
          k,
        )
