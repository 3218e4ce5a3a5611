-- ===== src/Storage/Node/View.antt =====
-- What a node says, as data: the entries of a leaf with the leaf after it, or the children of an
-- internal node, each with the key that bounds it from above, and the last child.
use rawth.Base.{ℕ, ◌+◌, List, [], ◌∷◌, length}
use rawth.Bytes.{Bytes, IsU32}
use rawth.Storage.Node.{Node, node_type_leaf, node_type_internal}

abbrev pub Entry : Type 0
Entry = Bytes × Bytes

pub data View : Type 0 where
  leaf : List Entry → ℕ → View
  internal : List (ℕ × Bytes) → ℕ → View

abbrev pub leaf_keys : List Entry → List Bytes
leaf_keys [] = []
leaf_keys ((k, v) ∷ es) = k ∷ leaf_keys es

abbrev pub leaf_values : List Entry → List Bytes
leaf_values [] = []
leaf_values ((k, v) ∷ es) = v ∷ leaf_values es

abbrev pub cell_keys : List (ℕ × Bytes) → List Bytes
cell_keys [] = []
cell_keys ((c, k) ∷ cs) = k ∷ cell_keys cs

abbrev pub cell_children : List (ℕ × Bytes) → List ℕ
cell_children [] = []
cell_children ((c, k) ∷ cs) = c ∷ cell_children cs

unfoldable pub to_node : View → Node
to_node (leaf es next) = record {
  node_type = node_type_leaf;
  keys = leaf_keys es;
  values = leaf_values es;
  children = [];
  right_ptr = next;
}
to_node (internal cs last) = record {
  node_type = node_type_internal;
  keys = cell_keys cs;
  values = [];
  children = cell_children cs;
  right_ptr = last;
}

-- The bytes that the entries of a leaf take, two lengths before each.
unfoldable pub entries_size : List Entry → ℕ
entries_size [] = 0
entries_size ((k, v) ∷ es) = 4 + length k + length v + entries_size es

unfoldable pub cells_size : List (ℕ × Bytes) → ℕ
cells_size [] = 0
cells_size ((c, k) ∷ cs) = 6 + length k + cells_size cs

unfoldable pub view_size : View → ℕ
unfolding entries_size cells_size
view_size (leaf es next) = entries_size es
view_size (internal cs last) = cells_size cs

abbrev pub ChildrenInRange : List (ℕ × Bytes) → Type 0
ChildrenInRange [] = Unit
ChildrenInRange ((c, k) ∷ cs) = IsU32 c × ChildrenInRange cs

-- Page numbers fit in 32 bits.
abbrev pub IsInRange : View → Type 0
IsInRange (leaf es next) = IsU32 next
IsInRange (internal cs last) = ChildrenInRange cs × IsU32 last
