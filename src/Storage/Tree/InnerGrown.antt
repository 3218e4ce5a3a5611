-- ===== src/Storage/Tree/InnerGrown.antt =====
-- The new row of an internal node, written to one page or to two.
use mathlib.Core.Path.{subst}
use rawth.Base.{
  ℕ, suc, ◌+◌, ◌≤◌, ◌<◌, ◌≡◌, ◌≢◌, refl, sym, ap, ◌∙◌, List, [], ◌∷◌, ◌++◌, Option, arith, le-cases,
  inl, inr,
}
use rawth.Bytes.{Bytes}
use rawth.Storage.Node.View.{View}
use rawth.Storage.Store.{NodeStore, Observation}
use rawth.Storage.Tree.Shape.{
  Tree, sum_row, head_row, AllRow, nodes, occurs, first_leaf, view, Stored, Ordered, OrderedRow,
  Chained, ChainedRow, concat_row, entries,
}
use rawth.Storage.Tree.Placed.{InPages, Stored-mono, AllRow-imp, occurs-page_no}
use rawth.Storage.Tree.Splice.{
  sum_row-append, concat_row-append, head_row-append, AllRow-split, OrderedRow-split,
  ChainedRow-split,
}
use rawth.Storage.Tree.Grown.{Replaced}
use rawth.Storage.Tree.Spliced.{Spliced}

module _ (store : NodeStore) (o : Observation store.State) (key : Bytes) (value : Option Bytes)
    (s u w : store.State) (h : ℕ) (t : Tree (suc h)) (placed : InPages store o s (suc h) t)
    (distinct : (j : ℕ) → occurs j (suc h) t ≤ 1) (cs' : List (Tree h × Bytes)) (last' : Tree h)
    (sp : Spliced store o key value s u h t cs' last')
    (moved : (j : ℕ) (v : View)
      → 0 < j
      → j < store.page_count u
      → j ≢ t.page
      → o.Holds u j v
      → o.Holds w j v)
    (root_same : o.root w ≡ o.root u) (ready : o.IsReady w) where
  open store use {State, page_count}

  own : (0 < t.page) × (t.page < page_count s)
  own = placed t.page (occurs-page_no (suc h) t)

  -- The node's own page is none of its children's, before and after.
  own_apart : sum_row (occurs t.page h) t.row.cells t.row.last ≡ 0
  own_apart = ground (arith, distinct t.page)

  pub in_pages :
      (j : ℕ) → 1 ≤ sum_row (occurs j h) cs' last' → (0 < j) × (j < page_count u) × (j ≢ t.page)
  in_pages j p = elim (le-cases (page_count s) j) [
    | inl new ↦ (omega (arith, own, new), (sp.new_pages j new).1 p, omega (arith, own, new))
    | inr old ↦ (
      (placed j (omega (arith, sp.old_pages j old))).0,
      omega (arith, old, sp.grows),
      λ same. absurd (ground (arith, own_apart, sp.old_pages j old, same)),
    )
  ]

  row_stays : AllRow (Stored o w h) cs' last'
  row_stays =
      AllRow-imp (λ j. occurs j h) (Stored o u h) (Stored o w h) cs' last'
        (λ c le.
          Stored-mono o u w h c
            (λ j v p. let (a, b, d) = in_pages j (omega (arith, le j)) in moved j v a b d))
        sp.stored

  frame :
      (j : ℕ) (v : View)
      → 0 < j
      → j < page_count s
      → occurs j (suc h) t ≡ 0
      → o.Holds s j v
      → o.Holds w j v
  frame j v p q away holds =
      moved j v p (omega (arith, sp.grows)) (λ same. absurd (ground (arith, away, same)))
        (sp.frame j v p q (omega (arith, away)) holds)

  pub inner_one :
      o.Holds w t.page
        (view (suc h) (record { page = t.page; row = record { cells = cs'; last = last' } }))
      → page_count w ≡ page_count u
      → Replaced store o key value s w
          (suc h)
          t
          []
          (record { page = t.page; row = record { cells = cs'; last = last' } })
  inner_one node count = record {
    head = refl;
    first = sp.first;
    stored = (node, row_stays);
    ordered = sp.ordered;
    chained = sp.chained;
    old_pages = λ j p. omega (arith, sp.old_pages j p);
    new_pages = λ j p. ground (arith, sp.new_pages j p, own, count);
    node_count = omega (arith, sp.node_count, count);
    frame = frame;
    grows = omega (arith, sp.grows, count);
    root_same = root_same ∙ sp.root_same;
    ready = ready;
  }

  -- The row is cut at the cell of `k`; the part behind it goes to the page behind the last one.
  module _ (front back : List (Tree h × Bytes)) (c : Tree h) (k : Bytes)
      (cut : cs' ≡ front ++ ((c, k) ∷ back)) where
    unfoldable pub left_half : Tree (suc h)
    left_half = record { page = t.page; row = record { cells = front; last = c } }

    unfoldable pub right_half : Tree (suc h)
    right_half = record { page = page_count u; row = record { cells = back; last = last' } }

    sum_cut : (f : Tree h → ℕ) → sum_row f cs' last' ≡ sum_row f front c + sum_row f back last'
    sum_cut f = ap (λ x. sum_row f x last') cut ∙ sum_row-append back last' f front c k

    pub inner_two :
        o.Holds w t.page (view (suc h) left_half)
        → o.Holds w (page_count u) (view (suc h) right_half)
        → page_count w ≡ page_count u + 1
        → Replaced store o key value s w (suc h) t ((left_half, k) ∷ []) right_half
    unfolding left_half right_half
    inner_two left right count =
        let (stored_left, stored_right) =
          AllRow-split back last' (Stored o w h) front c k
            (subst (λ x. AllRow (Stored o w h) x last') cut row_stays) in
        record {
          head = refl;
          first =
              ap (first_leaf h) (sym (head_row-append back last' front c k))
              ∙ ap (λ x. first_leaf h (head_row x last')) (sym cut)
              ∙ sp.first;
          stored = ((left, stored_left), (right, stored_right));
          ordered = λ lo hi ord above below.
              let (row, same) = sp.ordered lo hi ord above below in
              (
                OrderedRow-split back last' (Ordered h) lo hi front c k
                    (subst (λ x. OrderedRow (Ordered h) lo hi x last') cut row),
                sym (concat_row-append back last' (entries h) front c k)
                    ∙ ap (λ x. concat_row (entries h) x last') (sym cut)
                    ∙ same,
              );
          chained = λ after ch.
              ChainedRow-split back last' (Chained h) (first_leaf h) after front c k (
                subst (λ x. ChainedRow (Chained h) (first_leaf h) x last' after) cut
                  (sp.chained after ch));
          old_pages = λ j p. ground (arith, sp.old_pages j p, sum_cut (occurs j h), sp.grows);
          new_pages =
              λ j p. ground (arith, sp.new_pages j p, sum_cut (occurs j h), own, count, sp.grows);
          node_count = omega (arith, sp.node_count, count, sum_cut (nodes h));
          frame = frame;
          grows = omega (arith, sp.grows, count);
          root_same = root_same ∙ sp.root_same;
          ready = ready;
        }
