-- ===== src/Storage/Tree/Shape.antt =====
-- The trees that the pages of a database form: all leaves at one height, each node with the number
-- of its page. Entries, order, page numbers and the chain of leaves are read off them.
use rawth.Base.{ℕ, zero, suc, ◌+◌, ◌≡◌, ◌<◌, List, [], ◌∷◌, ◌++◌, some, ◌==◌, if◌then◌else◌}
use rawth.Bytes.{Bytes}
use rawth.Storage.Node.View.{Entry, View, leaf, internal}
use rawth.Storage.Entries.{Bound, Above, AtMost, InBounds, IsSorted}
use rawth.Storage.Store.{Observation}

-- Subtrees, each with the key that bounds it from above, and the last one.
pub record Row (T : Type 0) : Type 0 where
  pub cells : List (T × Bytes)
  pub last : T

pub record LeafPage : Type 0 where
  pub page : ℕ
  pub entries : List Entry
  pub next : ℕ

pub record InnerPage (T : Type 0) : Type 0 where
  pub page : ℕ
  pub row : Row T

abbrev pub Tree : ℕ → Type 0
Tree zero = LeafPage
Tree (suc h) = InnerPage (Tree h)

abbrev pub page_no : (h : ℕ) → Tree h → ℕ
page_no zero t = t.page
page_no (suc h) t = t.page

-- What is read off the subtrees of a row, in order; written over its parts, for recursion.
module _ {T : Type 0} where
  abbrev pub sum_row : (T → ℕ) → List (T × Bytes) → T → ℕ
  sum_row f [] t = f t
  sum_row f ((c, k) ∷ cs) t = f c + sum_row f cs t

  abbrev pub concat_row : (T → List Entry) → List (T × Bytes) → T → List Entry
  concat_row f [] t = f t
  concat_row f ((c, k) ∷ cs) t = f c ++ concat_row f cs t

  abbrev pub ids_row : (T → ℕ) → List (T × Bytes) → List (ℕ × Bytes)
  ids_row f [] = []
  ids_row f ((c, k) ∷ cs) = (f c, k) ∷ ids_row f cs

  abbrev pub head_row : List (T × Bytes) → T → T
  head_row [] t = t
  head_row ((c, k) ∷ cs) t = c

  abbrev pub AllRow : (T → Type 0) → List (T × Bytes) → T → Type 0
  AllRow P [] t = P t
  AllRow P ((c, k) ∷ cs) t = P c × AllRow P cs t

  -- Each subtree within the keys around it.
  abbrev pub OrderedRow :
      (Bound → Bound → T → Type 0) → Bound → Bound → List (T × Bytes) → T → Type 0
  OrderedRow P lo hi [] t = P lo hi t
  OrderedRow P lo hi ((c, k) ∷ cs) t =
      Above lo k × AtMost k hi × P lo (some k) c × OrderedRow P (some k) hi cs t

  -- The last leaf of each subtree points at the first leaf of the next one.
  abbrev pub ChainedRow : (T → ℕ → Type 0) → (T → ℕ) → List (T × Bytes) → T → ℕ → Type 0
  ChainedRow P first [] t after = P t after
  ChainedRow P first ((c, k) ∷ cs) t after =
      P c (first (head_row cs t)) × ChainedRow P first cs t after

abbrev pub entries : (h : ℕ) → Tree h → List Entry
entries zero t = t.entries
entries (suc h) t = concat_row (entries h) t.row.cells t.row.last

-- The number of nodes.
abbrev pub nodes : (h : ℕ) → Tree h → ℕ
nodes zero t = 1
nodes (suc h) t = 1 + sum_row (nodes h) t.row.cells t.row.last

abbrev pub is_page : ℕ → ℕ → ℕ
is_page j page = if page == j then 1 else 0

-- How many nodes stand on page `j`.
abbrev pub occurs : ℕ → (h : ℕ) → Tree h → ℕ
occurs j zero t = is_page j t.page
occurs j (suc h) t = is_page j t.page + sum_row (occurs j h) t.row.cells t.row.last

abbrev pub first_leaf : (h : ℕ) → Tree h → ℕ
first_leaf zero t = t.page
first_leaf (suc h) t = first_leaf h (head_row t.row.cells t.row.last)

abbrev pub view : (h : ℕ) → Tree h → View
view zero t = leaf t.entries t.next
view (suc h) t = internal (ids_row (page_no h) t.row.cells) (page_no h t.row.last)

-- Keys within the bounds, ascending in each leaf, and on the right sides of the separators.
abbrev pub Ordered : (h : ℕ) → Bound → Bound → Tree h → Type 0
Ordered zero lo hi t = InBounds lo hi t.entries × IsSorted t.entries
Ordered (suc h) lo hi t = OrderedRow (Ordered h) lo hi t.row.cells t.row.last

-- The leaves form a list that goes on at page `after`.
abbrev pub Chained : (h : ℕ) → Tree h → ℕ → Type 0
Chained zero t after = t.next ≡ after
Chained (suc h) t after = ChainedRow (Chained h) (first_leaf h) t.row.cells t.row.last after

-- Every node stands on its page; a leaf's pointer is a page number of 32 bits.
module _ {State : Type 0} (o : Observation State) (s : State) where
  abbrev pub Stored : (h : ℕ) → Tree h → Type 0
  Stored zero t = o.Holds s t.page (view zero t) × (t.next < 4294967296)
  Stored (suc h) t = o.Holds s t.page (view (suc h) t) × AllRow (Stored h) t.row.cells t.row.last
