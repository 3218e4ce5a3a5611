-- ===== src/Storage/Tree/InnerStep.antt =====
-- An internal node adopts the new child that a split passed up.
use mathlib.Core.Path.{subst}
use rawth.Base.{
  ℕ, suc, ◌+◌, ◌/◌, ◌≤◌, ◌<◌, ◌≡◌, ◌≢◌, refl, sym, ap, ◌∙◌, inl, inr, List, [], ◌∷◌, ◌++◌, some,
  length, take, drop, ltb, ltb→lt, ltb→ge, arith, true, false, Bool-cases, take-append-drop,
  length-drop, length-take,
}
use rawth.Bytes.{Bytes}
use rawth.Storage.Monad.{M}
use rawth.Storage.Node.{cell_area_size}
use rawth.Storage.Node.View.{
  View, internal, to_node, cells_size, view_size, ChildrenInRange, IsInRange,
}
use rawth.Storage.Store.{NodeStore, Observation, IsNodeStore}
use rawth.Storage.Tree.{Split, split_internal}
use rawth.Storage.Tree.Shape.{Tree, sum_row, ids_row, page_no, occurs}
use rawth.Storage.Tree.Placed.{InPages, occurs-page_no}
use rawth.Storage.Tree.TwoPages.{Halves, written, too_large, write_halves, write_halves_lem}
use rawth.Storage.Tree.Grown.{Inserts, kept, split, overflow}
use rawth.Storage.Tree.Spliced.{Spliced}
use rawth.Storage.Tree.InnerInsert.{finish, split_internal-eq}
use rawth.Storage.Tree.InnerGrown.{inner_one, inner_two, in_pages, left_half, right_half}

ids_in_range :
    (n h : ℕ) (cs : List (Tree h × Bytes)) (t : Tree h)
    → n ≤ 4294967296
    → ((j : ℕ) → 1 ≤ sum_row (occurs j h) cs t → j < n)
    → ChildrenInRange (ids_row (page_no h) cs) × (page_no h t < 4294967296)
ids_in_range n h [] t le f = (tt, omega (arith, f (page_no h t) (occurs-page_no h t)))
ids_in_range n h ((c, k) ∷ cs) t le f =
    let (a, b) = ids_in_range n h cs t le (λ j p. f j (omega arith)) in
    ((omega (arith, f (page_no h c) (omega (arith, occurs-page_no h c))), a), b)

module _ {T : Type 0} (f : T → ℕ) where
  pub ids_row-append :
      (front back : List (T × Bytes)) (c : T) (k : Bytes)
      → ids_row f (front ++ ((c, k) ∷ back)) ≡ ids_row f front ++ ((f c, k) ∷ ids_row f back)
  ids_row-append [] back c k = refl
  ids_row-append ((d, m) ∷ front) back c k = ap (λ x. (f d, m) ∷ x) (ids_row-append front back c k)

  pub length-ids_row : (cs : List (T × Bytes)) → length (ids_row f cs) ≡ length cs
  length-ids_row [] = refl
  length-ids_row ((c, k) ∷ cs) = ap suc (length-ids_row cs)

-- The middle of a row that is not empty.
pub record Middle {A : Type 0} (cs : List (A × Bytes)) : Type 0 where
  pub front : List (A × Bytes)
  pub back : List (A × Bytes)
  pub c : A
  pub k : Bytes
  pub cut : cs ≡ front ++ ((c, k) ∷ back)
  pub half : length cs / 2 ≡ length front

pub Middle-of : {A : Type 0} (cs : List (A × Bytes)) → 1 ≤ length cs → Middle cs
Middle-of {A} cs h = go (drop (length cs / 2) cs) refl
  where
    go : (xs : List (A × Bytes)) → drop (length cs / 2) cs ≡ xs → Middle cs
    go [] e = absurd (omega (arith, ap (length {A = A × Bytes}) e, length-drop (length cs / 2) cs))
    go ((c, k) ∷ back) e = record {
      front = take (length cs / 2) cs;
      back = back;
      c = c;
      k = k;
      cut = sym (take-append-drop (length cs / 2) cs) ∙ ap (λ x. take (length cs / 2) cs ++ x) e;
      half = omega (arith, length-take (length cs / 2) cs);
    }

cells_size-positive : (cs : List (ℕ × Bytes)) → 0 < cells_size cs → 1 ≤ length cs
unfolding cells_size
cells_size-positive [] h = h
cells_size-positive (c ∷ cs) h = omega arith

ids_append :
    (front : List (ℕ × Bytes)) (c : ℕ) (k : Bytes) (back : List (ℕ × Bytes))
    → ChildrenInRange (front ++ ((c, k) ∷ back))
    → ChildrenInRange front × ((c < 4294967296) × ChildrenInRange back)
ids_append [] c k back (a, b) = (tt, (a, b))
ids_append ((d, m) ∷ front) c k back (a, b) =
    let (x, y) = ids_append front c k back b in ((a, x), y)

module _ (store : NodeStore) (o : Observation store.State) (laws : IsNodeStore store o)
    (key value : Bytes) (s u : store.State) (h : ℕ) (t : Tree (suc h))
    (placed : InPages store o s (suc h) t) (distinct : (j : ℕ) → occurs j (suc h) t ≤ 1)
    (cs' : List (Tree h × Bytes)) (last' : Tree h)
    (sp : Spliced store o key (some value) s u h t cs' last')
    (room : store.page_count u + 1 < 4294967296) (m : M store.State Split)
    (e : m s ≡ finish store o laws t.page (ids_row (page_no h) cs') (page_no h last') u) where
  open store use {State, page_count}

  own_below : t.page < page_count u
  own_below = omega (arith, placed t.page (occurs-page_no (suc h) t), sp.grows)

  range : ChildrenInRange (ids_row (page_no h) cs') × (page_no h last' < 4294967296)
  range = ids_in_range (page_count u) h cs' last' (omega arith) (λ j p.
      (in_pages store o key (some value) s u u h t placed distinct cs' last' sp (λ j' v a b d x. x)
        refl sp.ready j p).1)

  node_fits :
      cells_size (ids_row (page_no h) cs') ≤ cell_area_size
      → ltb cell_area_size (cells_size (ids_row (page_no h) cs')) ≡ false
      → Inserts store o key value m s (suc h) t
  unfolding view_size
  node_fits fits test =
      let v = internal (ids_row (page_no h) cs') (page_no h last') in
      let (w, eq, done) = laws.write u t.page v sp.ready own_below range fits in
      kept w (record { page = t.page; row = record { cells = cs'; last = last' } })
        (e ∙ rw (test, eq))
        (inner_one store o key (some value) s u w h t placed distinct cs' last' sp done.nodes
          done.root_same done.ready done.node done.count)

  module _ (test : ltb cell_area_size (cells_size (ids_row (page_no h) cs')) ≡ true)
      (front back : List (Tree h × Bytes)) (c : Tree h) (k : Bytes)
      (cut : cs' ≡ front ++ ((c, k) ∷ back)) (half : length cs' / 2 ≡ length front) where
    left : View
    left = internal (ids_row (page_no h) front) (page_no h c)

    right : View
    right = internal (ids_row (page_no h) back) (page_no h last')

    ids_cut :
        ids_row (page_no h) cs'
        ≡ ids_row (page_no h) front ++ ((page_no h c, k) ∷ ids_row (page_no h) back)
    ids_cut = ap (ids_row (page_no h)) cut ∙ ids_row-append (page_no h) front back c k

    ids_half :
        length (ids_row (page_no h) front ++ ((page_no h c, k) ∷ ids_row (page_no h) back)) / 2
        ≡ length (ids_row (page_no h) front)
    ids_half =
        ap (λ x. length x / 2) (sym ids_cut)
        ∙ ap (λ x. x / 2) (length-ids_row (page_no h) cs')
        ∙ half
        ∙ sym (length-ids_row (page_no h) front)

    result : m s ≡ write_halves store o laws u t.page k (λ _. left) right
    unfolding left right
    result =
        e
        ∙ (rw test)
        ∙ ap (λ x. split_internal store t.page (to_node (internal x (page_no h last'))) u) ids_cut
        ∙ split_internal-eq store o laws t.page (page_no h c) (page_no h last') k
            (ids_row (page_no h) front) (ids_row (page_no h) back) u ids_half

    ranges : IsInRange left × IsInRange right
    unfolding left right
    ranges =
        let (a, b) =
          ids_append (ids_row (page_no h) front) (page_no h c) k (ids_row (page_no h) back)
            (subst ChildrenInRange ids_cut range.0) in
        ((a, b.0), (b.1, range.1))

    from_halves :
        Halves store o laws u t.page k left right
          (write_halves store o laws u t.page k (λ _. left) right)
        → Inserts store o key value m s (suc h) t
    unfolding left right left_half right_half
    from_halves (too_large w x q over) = overflow w x (result ∙ q) over
    from_halves (written u₁ u₂ u₃ q a w₂ w₃) =
        split u₃
          (left_half store o key (some value) s u u₃ h t placed distinct cs' last' sp moved
            (w₃.root_same ∙ w₂.root_same ∙ a.root_same) w₃.ready front back c k cut)
          k
          (right_half store o key (some value) s u u₃ h t placed distinct cs' last' sp moved
            (w₃.root_same ∙ w₂.root_same ∙ a.root_same) w₃.ready front back c k cut)
          (result ∙ q)
          (inner_two store o key (some value) s u u₃ h t placed distinct cs' last' sp moved
            (w₃.root_same ∙ w₂.root_same ∙ a.root_same) w₃.ready front back c k cut
            (w₃.nodes t.page left own.0 (omega (arith, own_below, a.count, w₂.count))
              (λ same. absurd (omega (arith, same, own_below))) w₂.node)
            w₃.node (omega (arith, a.count, w₂.count, w₃.count)))
      where
        own : (0 < t.page) × (t.page < page_count s)
        own = placed t.page (occurs-page_no (suc h) t)

        moved :
            (j : ℕ) (v : View)
            → 0 < j
            → j < page_count u
            → j ≢ t.page
            → o.Holds u j v
            → o.Holds u₃ j v
        moved j v pos below ne holds =
            w₃.nodes j v pos (omega (arith, a.count, w₂.count))
              (λ same. absurd (omega (arith, same)))
              (w₂.nodes j v pos (omega (arith, a.count)) ne (a.nodes j v pos below holds))

    in_two : Inserts store o key value m s (suc h) t
    in_two = from_halves (
        write_halves_lem store o laws u t.page k (λ _. left) right sp.ready room own_below ranges.0
          ranges.1)

  node_splits :
      ltb cell_area_size (cells_size (ids_row (page_no h) cs')) ≡ true
      → Inserts store o key value m s (suc h) t
  node_splits test =
      let mid = Middle-of cs' (
        omega (
          arith,
          cells_size-positive (ids_row (page_no h) cs') (omega (arith, ltb→lt _ _ test)),
          length-ids_row (page_no h) cs',
        )) in
      in_two test mid.front mid.back mid.c mid.k mid.cut mid.half

  pub inner_step : Inserts store o key value m s (suc h) t
  inner_step = elim (Bool-cases (ltb cell_area_size (cells_size (ids_row (page_no h) cs')))) [
    | inl over ↦ node_splits over
    | inr fits ↦ node_fits (ltb→ge _ _ fits) fits
  ]
