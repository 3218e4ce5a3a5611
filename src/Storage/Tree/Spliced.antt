-- ===== src/Storage/Tree/Spliced.antt =====
-- An internal node whose child has been replaced: what holds of its new row of children, wherever
-- the row is then written.
use rawth.Base.{ℕ, zero, suc, ◌+◌, ◌≤◌, ◌<◌, ◌≡◌, refl, List, Option, arith}
use rawth.Bytes.{Bytes}
use rawth.Storage.Node.View.{View}
use rawth.Storage.Entries.{Bound, Above, Below}
use rawth.Storage.Entries.Concat.{change}
use rawth.Storage.Store.{NodeStore, Observation}
use rawth.Storage.Tree.Shape.{
  Tree, sum_row, concat_row, head_row, AllRow, OrderedRow, ChainedRow, entries, nodes, occurs,
  first_leaf, Ordered, Chained, Stored,
}
use rawth.Storage.Tree.Rows.{choose, choose-le, Ordered-InBounds, Ordered-IsSorted}
use rawth.Storage.Tree.Placed.{InPages, Stored-mono}
use rawth.Storage.Tree.Splice.{splice_cells, splice_last, sum_row-splice}
use rawth.Storage.Tree.SpliceLaws.{
  AllRow-splice, head_row-splice, ChainedRow-splice, OrderedRow-splice,
}
use rawth.Storage.Tree.Grown.{Replaced}

module _ (store : NodeStore) (o : Observation store.State) (key : Bytes)
    (value : Option Bytes) where
  open store use {State, page_count}

  -- `cs'`, `last'` is the new row of the node `t`.
  pub record Spliced (s u : State) (h : ℕ) (t : Tree (suc h)) (cs' : List (Tree h × Bytes))
      (last' : Tree h) : Type 0 where
    pub first : first_leaf h (head_row cs' last') ≡ first_leaf (suc h) t
    pub stored : AllRow (Stored o u h) cs' last'
    pub ordered :
        (lo hi : Bound)
        → Ordered (suc h) lo hi t
        → Above lo key
        → Below key hi
        → OrderedRow (Ordered h) lo hi cs' last'
          × (concat_row (entries h) cs' last' ≡ change key value (entries (suc h) t))
    pub chained :
        (after : ℕ)
        → Chained (suc h) t after
        → ChainedRow (Chained h) (first_leaf h) cs' last' after
    pub old_pages :
        (j : ℕ)
        → j < page_count s
        → sum_row (occurs j h) cs' last' ≡ sum_row (occurs j h) t.row.cells t.row.last
    pub new_pages :
        (j : ℕ)
        → page_count s ≤ j
        → (sum_row (occurs j h) cs' last' ≤ 1)
          × (1 ≤ sum_row (occurs j h) cs' last' → j < page_count u)
    pub node_count :
        sum_row (nodes h) cs' last' + page_count s
        ≡ sum_row (nodes h) t.row.cells t.row.last + page_count u
    pub frame :
        (j : ℕ) (v : View)
        → 0 < j
        → j < page_count s
        → sum_row (occurs j h) t.row.cells t.row.last ≡ 0
        → o.Holds s j v
        → o.Holds u j v
    pub grows : (page_count s ≤ page_count u) × (page_count u ≤ page_count s + suc h)
    pub root_same : o.root u ≡ o.root s
    pub ready : o.IsReady u

  module _ (s u : State) (h : ℕ) (t : Tree (suc h))
      (stored : AllRow (Stored o s h) t.row.cells t.row.last) (placed : InPages store o s (suc h) t)
      (distinct : (j : ℕ) → occurs j (suc h) t ≤ 1) (front : List (Tree h × Bytes)) (d : Tree h)
      (rep : Replaced store o key value s u h (choose key t.row.cells t.row.last) front d) where
    -- A sibling of the replaced child shares no page with it, and stays where it is.
    sibling_stays :
        (b : Tree h)
        → ((j : ℕ)
            → occurs j h b + occurs j h (choose key t.row.cells t.row.last)
              ≤ sum_row (occurs j h) t.row.cells t.row.last)
        → Stored o s h b
        → Stored o u h b
    sibling_stays b apart = Stored-mono o s u h b (λ j v p.
        let (pos, bound) = placed j (omega (arith, apart j)) in
        rep.frame j v pos bound (omega (arith, apart j, distinct j)))

    pub replaced-Spliced :
        Spliced s u h t
          (splice_cells key front d t.row.cells t.row.last)
          (splice_last key front d t.row.cells t.row.last)
    replaced-Spliced = record {
      first = head_row-splice key front d (first_leaf h) t.row.cells t.row.last rep.first;
      stored =
          AllRow-splice key front d (λ j. occurs j h) (Stored o s h) (Stored o u h) t.row.cells
            t.row.last sibling_stays stored rep.stored;
      ordered = λ lo hi w above below.
          OrderedRow-splice (Ordered h) (entries h) (Ordered-InBounds h) (Ordered-IsSorted h) key
            value front d lo hi t.row.cells t.row.last w above below rep.ordered;
      chained = λ after w.
          ChainedRow-splice key front d (Chained h) (first_leaf h) t.row.cells t.row.last after
            rep.first rep.chained w;
      old_pages = λ j p. omega (
        arith,
        sum_row-splice key front d (occurs j h) t.row.cells t.row.last,
        rep.old_pages j p,
      );
      new_pages = λ j p. (
        omega (arith, spliced j, (rep.new_pages j p).0, unused j p),
        λ q. (rep.new_pages j p).1 (omega (arith, spliced j, unused j p)),
      );
      node_count =
          omega
            (arith, sum_row-splice key front d (nodes h) t.row.cells t.row.last, rep.node_count);
      frame = λ j v p q away holds.
          rep.frame j v p q (omega (arith, choose-le (occurs j h) key t.row.cells t.row.last))
            holds;
      grows = rep.grows;
      root_same = rep.root_same;
      ready = rep.ready;
    }
      where
        spliced :
            (j : ℕ)
            → sum_row
                  (occurs j h)
                  (splice_cells key front d t.row.cells t.row.last)
                  (splice_last key front d t.row.cells t.row.last)
                + occurs j h (choose key t.row.cells t.row.last)
              ≡ sum_row (occurs j h) t.row.cells t.row.last + sum_row (occurs j h) front d
        spliced j = sum_row-splice key front d (occurs j h) t.row.cells t.row.last

        -- A page behind the last one is none of the tree's.
        unused : (j : ℕ) → page_count s ≤ j → sum_row (occurs j h) t.row.cells t.row.last ≡ 0
        unused j p =
            zero_or (sum_row (occurs j h) t.row.cells t.row.last)
              (λ q. absurd (omega (arith, (placed j (omega arith)).1)))
          where
            zero_or : (n : ℕ) → (1 ≤ n → n ≡ 0) → n ≡ 0
            zero_or zero f = refl
            zero_or (suc n) f = f (omega arith)
