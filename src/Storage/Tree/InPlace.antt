-- ===== src/Storage/Tree/InPlace.antt =====
-- An internal node whose child has been replaced by one tree on the same page: the node's own page
-- stays as it is.
use mathlib.Core.Path.{subst}
use rawth.Base.{ℕ, suc, ◌≤◌, ◌<◌, ◌≡◌, refl, sym, [], Option, arith}
use rawth.Bytes.{Bytes}
use rawth.Storage.Store.{NodeStore, Observation}
use rawth.Storage.Tree.Shape.{Tree, page_no, occurs, view, Stored}
use rawth.Storage.Tree.Rows.{choose, choose-le}
use rawth.Storage.Tree.Placed.{InPages, occurs-page_no}
use rawth.Storage.Tree.Splice.{splice_cells, splice_last}
use rawth.Storage.Tree.Spliced.{replaced-Spliced}
use rawth.Storage.Tree.Ids.{same_ids}
use rawth.Storage.Tree.InnerGrown.{inner_one}
use rawth.Storage.Tree.Grown.{Replaced}

module _ (store : NodeStore) (o : Observation store.State) (key : Bytes) (value : Option Bytes)
    (s w : store.State) (h : ℕ) (t : Tree (suc h)) (stored : Stored o s (suc h) t)
    (placed : InPages store o s (suc h) t) (distinct : (j : ℕ) → occurs j (suc h) t ≤ 1)
    (c : Tree h) where
  open store use {State, page_count}

  abbrev pub with_child : Tree (suc h)
  with_child = record {
    page = t.page;
    row = record {
      cells = splice_cells key [] c t.row.cells t.row.last;
      last = splice_last key [] c t.row.cells t.row.last;
    };
  }

  pub Replaced-row :
      Replaced store o key value s w h (choose key t.row.cells t.row.last) [] c
      → Replaced store o key value s w (suc h) t [] with_child
  Replaced-row rep =
      inner_one store o key value s w w h t placed distinct _ _
        (replaced-Spliced store o key value s w h t stored.1 placed distinct [] c rep)
        (λ j v a b d x. x) refl rep.ready
        (subst (λ v. o.Holds w t.page v) (sym same_view)
          (rep.frame t.page (view (suc h) t) own.0 own.1 apart stored.0))
        refl
    where
      own : (0 < t.page) × (t.page < page_count s)
      own = placed t.page (occurs-page_no (suc h) t)

      apart : occurs t.page h (choose key t.row.cells t.row.last) ≡ 0
      apart =
          ground (arith, distinct t.page, choose-le (occurs t.page h) key t.row.cells t.row.last)

      same_view : view (suc h) with_child ≡ view (suc h) t
      same_view =
          let (a, b) = same_ids (page_no h) key c t.row.cells t.row.last rep.head in rw (a, b)
