-- ===== src/Storage/Tree/InnerInsert.antt =====
-- internal/storage/btree.go: `insertInternal` and `splitInternal` on rows of children.
use native.Mathlib.Numerals.{add-one}
use rawth.Base.{
  ℕ, ◌/◌, ◌≡◌, ap, ◌∙◌, inl, inr, List, [], ◌∷◌, ◌++◌, none, some, length, get_elem?, ltb, ltb→lt,
  ltb→ge, Bool-cases, if◌then◌else◌,
}
use rawth.Bytes.{Bytes}
use rawth.Storage.Monad.{M, pure, ◌>>◌}
use rawth.Storage.Node.{Node, cell_area_size}
use rawth.Storage.Node.Pages.{internal_size-cells}
use rawth.Storage.Node.View.{internal, to_node, cell_keys, cell_children, cells_size}
use rawth.Storage.Store.{NodeStore, Observation, IsNodeStore}
use rawth.Storage.Tree.{Split, child_index, adopt, split_internal, split_internal_at}
use rawth.Storage.Tree.Shape.{ids_row}
use rawth.Storage.Tree.Rows.{choose}
use rawth.Storage.Tree.Splice.{splice_cells, splice_last}
use rawth.Storage.Tree.Ids.{
  adopt_keys, adopt_children, adopt_last, left_part-eq, right_part-eq, keys_at, length-cell_keys,
}
use rawth.Storage.Tree.TwoPages.{write_halves}

module _ (store : NodeStore) (o : Observation store.State) (laws : IsNodeStore store o) where
  open store use {State}

  -- The node with its new child: written back, or split.
  abbrev pub finish : ℕ → List (ℕ × Bytes) → ℕ → M State Split
  finish i cs last =
      if ltb cell_area_size (cells_size cs)
      then split_internal store i (to_node (internal cs last))
      else (do store.write_node i (to_node (internal cs last)); pure none)

  module _ {T : Type 0} (f : T → ℕ) (key : Bytes) (i : ℕ) (cs : List (T × Bytes)) (t l : T)
      (sk : Bytes) (r : T) (same : f l ≡ f (choose key cs t)) where
    pub adopt-eq :
        (s : State)
        → adopt store i
            (to_node (internal (ids_row f cs) (f t)))
            (child_index key (cell_keys (ids_row f cs)))
            sk
            (f r)
            s
          ≡ finish i
              (ids_row f (splice_cells key ((l, sk) ∷ []) r cs t))
              (f (splice_last key ((l, sk) ∷ []) r cs t))
              s
    unfolding adopt to_node
    adopt-eq s =
        elim (Bool-cases (
          ltb (child_index key (cell_keys (ids_row f cs)))
            (length (cell_children (ids_row f cs))))) [
              | inl inside ↦
                  let (a, b) = adopt_children f key l sk r cs t same (ltb→lt _ _ inside) in
                  rw (adopt_keys f key l sk r cs t, inside, add-one, a, b, internal_size-cells)
              | inr outside ↦
                  let (a, b) = adopt_last f key l sk r cs t same (ltb→ge _ _ outside) in
                  rw (adopt_keys f key l sk r cs t, outside, a, b, internal_size-cells)
            ]

  -- The halves of a node that does not fit, cut by the number of keys.
  pub split_internal-eq :
      (i c last : ℕ) (k : Bytes) (front back : List (ℕ × Bytes)) (s : State)
      → length (front ++ ((c, k) ∷ back)) / 2 ≡ length front
      → split_internal store i (to_node (internal (front ++ ((c, k) ∷ back)) last)) s
        ≡ write_halves store o laws s i k (λ _. internal front c) (internal back last)
  unfolding split_internal split_internal_at write_halves to_node
  split_internal-eq i c last k front back s mid =
      ap (λ m. split_internal_at store i n m (get_elem? n.keys m) s) (ap (λ x. x / 2) keys_of ∙ mid)
      ∙ ap (λ x. split_internal_at store i n (length front) x s) key_of
      ∙ halves
    where
      n : Node
      n = to_node (internal (front ++ ((c, k) ∷ back)) last)

      keys_of : length n.keys ≡ length (front ++ ((c, k) ∷ back))
      keys_of = length-cell_keys (front ++ ((c, k) ∷ back))

      key_of : get_elem? n.keys (length front) ≡ some k
      key_of = keys_at c k back last front

      halves :
          split_internal_at store i n (length front) (some k) s
          ≡ write_halves store o laws s i k (λ _. internal front c) (internal back last)
      halves =
          rw
            (split_internal_at, left_part-eq front c k back last, right_part-eq front c k back last)
