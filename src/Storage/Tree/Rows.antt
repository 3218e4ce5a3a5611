-- ===== src/Storage/Tree/Rows.antt =====
-- internal/storage/btree.go: the loop over the keys of an internal node, and the subtree that a key
-- belongs to.
use rawth.Base.{
  ℕ, zero, suc, ◌≤◌, ◌≡◌, refl, List, [], ◌∷◌, none, some, length, get_or, ltb, if◌then◌else◌,
  arith, Bool-cases, inl, inr,
}
use Prim.Native.Nat.Ordering.{lt, eq, gt}
use rawth.Bytes.{Bytes, compare_bytes}
use rawth.Storage.Node.View.{Entry, cell_keys, cell_children, internal, to_node}
use rawth.Storage.Entries.{
  Bound, Above, Below, AtMost, InBounds, IsSorted, less, find, le_trans, less_of_less_le,
}
use rawth.Storage.Entries.Concat.{find-append_left, find-append_right}
use rawth.Storage.Entries.Sorted.{InBounds-append, IsSorted-append}
use rawth.Storage.Tree.{child_index, child_page}
use rawth.Storage.Tree.Shape.{
  Tree, sum_row, concat_row, ids_row, head_row, AllRow, OrderedRow, entries, Ordered,
}

module _ {T : Type 0} where
  unfoldable pub choose : Bytes → List (T × Bytes) → T → T
  choose key [] t = t
  choose key ((c, k) ∷ cs) t = elim (compare_bytes key k) [ lt ↦ c | _ ↦ choose key cs t ]

  pub choose_page :
      (f : T → ℕ) (key : Bytes) (cs : List (T × Bytes)) (t : T)
      → (if ltb (child_index key (cell_keys (ids_row f cs))) (length (cell_children (ids_row f cs)))
          then get_or (cell_children (ids_row f cs)) (child_index key (cell_keys (ids_row f cs))) 0
          else f t)
        ≡ f (choose key cs t)
  unfolding choose child_index
  choose_page f key [] t = refl
  choose_page f key ((c, k) ∷ cs) t = ground (arith, choose_page f key cs t)

  pub child_page-choose :
      (f : T → ℕ) (key : Bytes) (cs : List (T × Bytes)) (t : T)
      → child_page
          (to_node (internal (ids_row f cs) (f t)))
          (child_index key (cell_keys (ids_row f cs)))
        ≡ f (choose key cs t)
  unfolding child_page to_node
  child_page-choose f key cs t = choose_page f key cs t

  pub choose-le :
      (f : T → ℕ) (key : Bytes) (cs : List (T × Bytes)) (t : T)
      → f (choose key cs t) ≤ sum_row f cs t
  unfolding choose
  choose-le f key [] t = omega arith
  choose-le f key ((c, k) ∷ cs) t = ground (arith, choose-le f key cs t)

  pub AllRow-choose :
      (P : T → Type 0) (key : Bytes) (cs : List (T × Bytes)) (t : T)
      → AllRow P cs t
      → P (choose key cs t)
  unfolding choose
  AllRow-choose P key [] t h = h
  AllRow-choose P key ((c, k) ∷ cs) t (a, h) =
      elim (compare_bytes key k) as (λ o. P (elim o [ lt ↦ c | _ ↦ choose key cs t ])) [
        | lt ↦ a
        | eq ↦ AllRow-choose P key cs t h
        | gt ↦ AllRow-choose P key cs t h
      ]

  -- The first subtree counts among those of the row.
  pub head_row-le : (f : T → ℕ) (cs : List (T × Bytes)) (t : T) → f (head_row cs t) ≤ sum_row f cs t
  head_row-le f [] t = omega arith
  head_row-le f ((c, k) ∷ cs) t = omega arith

  pub AllRow-head :
      (P : T → Type 0) (cs : List (T × Bytes)) (t : T) → AllRow P cs t → P (head_row cs t)
  AllRow-head P [] t h = h
  AllRow-head P ((c, k) ∷ cs) t (a, h) = a

InBounds-weaken_hi :
    (lo hi : Bound) (k : Bytes) (es : List Entry)
    → AtMost k hi
    → InBounds lo (some k) es
    → InBounds lo hi es
InBounds-weaken_hi lo hi k [] b h = tt
InBounds-weaken_hi lo none k ((i, v) ∷ es) b (a, c, h) =
    (a, tt, InBounds-weaken_hi lo none k es b h)
InBounds-weaken_hi lo (some hi) k ((i, v) ∷ es) b (a, c, h) =
    (a, less_of_less_le i k hi c b, InBounds-weaken_hi lo (some hi) k es b h)

InBounds-weaken_lo :
    (lo hi : Bound) (k : Bytes) (es : List Entry)
    → Above lo k
    → InBounds (some k) hi es
    → InBounds lo hi es
InBounds-weaken_lo lo hi k [] b h = tt
InBounds-weaken_lo none hi k ((i, v) ∷ es) b (a, c, h) =
    (tt, c, InBounds-weaken_lo none hi k es b h)
InBounds-weaken_lo (some lo) hi k ((i, v) ∷ es) b (a, c, h) =
    (le_trans lo k i b a, c, InBounds-weaken_lo (some lo) hi k es b h)

-- A row whose subtrees are in bounds and sorted is so as a whole.
module _ {T : Type 0} (P : Bound → Bound → T → Type 0) (es : T → List Entry)
    (bounds : (lo hi : Bound) (t : T) → P lo hi t → InBounds lo hi (es t))
    (sorted : (lo hi : Bound) (t : T) → P lo hi t → IsSorted (es t)) where
  pub row_bounds :
      (lo hi : Bound) (cs : List (T × Bytes)) (t : T)
      → OrderedRow P lo hi cs t
      → InBounds lo hi (concat_row es cs t)
  row_bounds lo hi [] t h = bounds lo hi t h
  row_bounds lo hi ((c, k) ∷ cs) t (a, b, p, h) =
      InBounds-append lo hi (es c) (concat_row es cs t)
        (InBounds-weaken_hi lo hi k (es c) b (bounds lo (some k) c p))
        (InBounds-weaken_lo lo hi k (concat_row es cs t) a (row_bounds (some k) hi cs t h))

  pub row-IsSorted :
      (lo hi : Bound) (cs : List (T × Bytes)) (t : T)
      → OrderedRow P lo hi cs t
      → IsSorted (concat_row es cs t)
  row-IsSorted lo hi [] t h = sorted lo hi t h
  row-IsSorted lo hi ((c, k) ∷ cs) t (a, b, p, h) =
      IsSorted-append lo hi k (es c) (concat_row es cs t) (bounds lo (some k) c p)
        (row_bounds (some k) hi cs t h) (sorted lo (some k) c p) (row-IsSorted (some k) hi cs t h)

  pub find-choose :
      (key : Bytes) (lo hi : Bound) (cs : List (T × Bytes)) (t : T)
      → OrderedRow P lo hi cs t
      → find key (concat_row es cs t) ≡ find key (es (choose key cs t))
  unfolding choose
  find-choose key lo hi [] t h = refl
  find-choose key lo hi ((c, k) ∷ cs) t (a, b, p, h) = elim (Bool-cases (less key k)) [
    | inl e ↦ ground (
      arith,
      e,
      find-append_left key k e hi (es c) (concat_row es cs t) (row_bounds (some k) hi cs t h),
    )
    | inr e ↦ ground (
      arith,
      e,
      find-append_right key k e lo (es c) (concat_row es cs t) (bounds lo (some k) c p),
      find-choose key (some k) hi cs t h,
    )
  ]

-- The bounds of the subtree that a key belongs to, with the key between them.
pub record Chosen {T : Type 0} (P : Bound → Bound → T → Type 0) (key : Bytes) (t : T) : Type 0 where
  pub lo : Bound
  pub hi : Bound
  pub ordered : P lo hi t
  pub above : Above lo key
  pub below : Below key hi

pub Ordered-choose :
    {T : Type 0} (P : Bound → Bound → T → Type 0) (key : Bytes) (lo hi : Bound)
    (cs : List (T × Bytes)) (t : T)
    → OrderedRow P lo hi cs t
    → Above lo key
    → Below key hi
    → Chosen P key (choose key cs t)
unfolding choose
Ordered-choose P key lo hi [] t h above below = record {
  lo = lo;
  hi = hi;
  ordered = h;
  above = above;
  below = below;
}
Ordered-choose {T} P key lo hi ((c, k) ∷ cs) t (a, b, p, h) above below =
    elim (compare_bytes key k)
        as (λ o. compare_bytes key k ≡ o → Chosen P key (elim o [ lt ↦ c | _ ↦ choose key cs t ])) [
          | lt ↦ λ e. record {
            lo = lo;
            hi = some k;
            ordered = p;
            above = above;
            below = ground (arith, e);
          }
          | eq ↦ λ e. Ordered-choose P key (some k) hi cs t h (ground (arith, e)) below
          | gt ↦ λ e. Ordered-choose P key (some k) hi cs t h (ground (arith, e)) below
        ]
      refl

-- The entries of a tree lie within its bounds, in ascending order.
mutual
  pub Ordered-InBounds :
      (h : ℕ) (lo hi : Bound) (t : Tree h) → Ordered h lo hi t → InBounds lo hi (entries h t)
  Ordered-InBounds zero lo hi t o = o.0
  Ordered-InBounds (suc h) lo hi t o =
      row_bounds (Ordered h) (entries h) (Ordered-InBounds h) (Ordered-IsSorted h) lo hi t.row.cells
        t.row.last o

  pub Ordered-IsSorted :
      (h : ℕ) (lo hi : Bound) (t : Tree h) → Ordered h lo hi t → IsSorted (entries h t)
  Ordered-IsSorted zero lo hi t o = o.1
  Ordered-IsSorted (suc h) lo hi t o =
      row-IsSorted (Ordered h) (entries h) (Ordered-InBounds h) (Ordered-IsSorted h) lo hi
        t.row.cells t.row.last o
