-- ===== src/Storage/Node/Cells.antt =====
-- internal/storage/btree.go, `serializeNode`: the cells of a node as plain concatenations.
use rawth.Base.{
  ℕ, ◌+◌, ◌≤◌, ◌<◌, ◌≡◌, refl, List, [], ◌∷◌, ◌++◌, length, arith, length-append, ok, err,
}
use rawth.Bytes.{Bytes, put_uint16, put_uint32}
use rawth.Storage.Fault.{internal_overflow, leaf_overflow}
use rawth.Storage.Node.{
  page_size, serialize_internal, serialize_leaf, leaf_node_size, internal_node_size,
}

-- The space that the entries of a leaf take, where there is a value for each key.
unfoldable pub leaf_size : List Bytes → List Bytes → ℕ
leaf_size [] values = 0
leaf_size (key ∷ keys) [] = 0
leaf_size (key ∷ keys) (val ∷ values) = 4 + length key + length val + leaf_size keys values

unfoldable pub leaf_cells : List Bytes → List Bytes → Bytes
leaf_cells [] values = []
leaf_cells (key ∷ keys) [] = []
leaf_cells (key ∷ keys) (val ∷ values) =
    put_uint16 (length key) ++ (put_uint16 (length val) ++ (key ++ (val ++ leaf_cells keys values)))

unfoldable pub internal_cells : List Bytes → List ℕ → Bytes
internal_cells [] children = []
internal_cells (key ∷ keys) [] = []
internal_cells (key ∷ keys) (child ∷ children) =
    put_uint32 child ++ (put_uint16 (length key) ++ (key ++ internal_cells keys children))

pub leaf_node_size-leaf_size :
    (keys values : List Bytes)
    → length keys ≡ length values
    → leaf_node_size keys values ≡ ok (leaf_size keys values)
unfolding leaf_node_size leaf_size
leaf_node_size-leaf_size [] values h = refl
leaf_node_size-leaf_size (key ∷ keys) [] h = absurd (omega arith)
leaf_node_size-leaf_size (key ∷ keys) (val ∷ values) h =
    rw (leaf_node_size-leaf_size keys values (omega arith)) (ground arith)

-- The serializer of a leaf succeeds when the entries fit behind `offset`.
pub serialize_leaf_fits :
    (offset : ℕ) (keys values : List Bytes)
    → length keys ≡ length values
    → offset + leaf_size keys values ≤ page_size
    → serialize_leaf offset keys values ≡ ok (leaf_cells keys values)
unfolding serialize_leaf leaf_size leaf_cells
serialize_leaf_fits offset [] values e h = refl
serialize_leaf_fits offset (key ∷ keys) [] e h = absurd (omega arith)
serialize_leaf_fits offset (key ∷ keys) (val ∷ values) e h =
    ground (arith, serialize_leaf_fits (offset + (2 + 2 + length key + length val)) keys values)

-- It fails when they do not.
pub serialize_leaf_overflow :
    (offset : ℕ) (keys values : List Bytes)
    → length keys ≡ length values
    → offset ≤ page_size
    → page_size < offset + leaf_size keys values
    → serialize_leaf offset keys values ≡ err leaf_overflow
unfolding serialize_leaf leaf_size
serialize_leaf_overflow offset [] values e o h = absurd (omega arith)
serialize_leaf_overflow offset (key ∷ keys) [] e o h = absurd (omega arith)
serialize_leaf_overflow offset (key ∷ keys) (val ∷ values) e o h =
    ground (arith, serialize_leaf_overflow (offset + (2 + 2 + length key + length val)) keys values)

pub serialize_internal_fits :
    (offset : ℕ) (keys : List Bytes) (children : List ℕ)
    → length keys ≡ length children
    → offset + internal_node_size keys children ≤ page_size
    → serialize_internal offset keys children ≡ ok (internal_cells keys children)
unfolding serialize_internal internal_node_size internal_cells
serialize_internal_fits offset [] children e h = refl
serialize_internal_fits offset (key ∷ keys) [] e h = absurd (omega arith)
serialize_internal_fits offset (key ∷ keys) (child ∷ children) e h =
    ground (arith, serialize_internal_fits (offset + 4 + 2 + length key) keys children)

pub serialize_internal_overflow :
    (offset : ℕ) (keys : List Bytes) (children : List ℕ)
    → length keys ≡ length children
    → offset ≤ page_size
    → page_size < offset + internal_node_size keys children
    → serialize_internal offset keys children ≡ err internal_overflow
unfolding serialize_internal internal_node_size
serialize_internal_overflow offset [] children e o h = absurd (omega arith)
serialize_internal_overflow offset (key ∷ keys) [] e o h = absurd (omega arith)
serialize_internal_overflow offset (key ∷ keys) (child ∷ children) e o h =
    ground (arith, serialize_internal_overflow (offset + 4 + 2 + length key) keys children)

pub length-leaf_cells :
    (keys values : List Bytes) → length (leaf_cells keys values) ≡ leaf_size keys values
unfolding leaf_cells leaf_size put_uint16
length-leaf_cells [] values = refl
length-leaf_cells (key ∷ keys) [] = refl
length-leaf_cells (key ∷ keys) (val ∷ values) = omega (
  arith,
  length-append key (val ++ leaf_cells keys values),
  length-append val (leaf_cells keys values),
  length-leaf_cells keys values,
)

pub length-internal_cells :
    (keys : List Bytes) (children : List ℕ)
    → length keys ≡ length children
    → length (internal_cells keys children) ≡ internal_node_size keys children
unfolding internal_cells internal_node_size put_uint16 put_uint32
length-internal_cells [] children e = refl
length-internal_cells (key ∷ keys) [] e = absurd (omega arith)
length-internal_cells (key ∷ keys) (child ∷ children) e = omega (
  arith,
  length-append key (internal_cells keys children),
  length-internal_cells keys children (omega arith),
)
