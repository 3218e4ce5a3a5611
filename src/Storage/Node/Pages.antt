-- ===== src/Storage/Node/Pages.antt =====
-- internal/storage/btree.go, `serializeNode` and `deserializeNode`: nodes and whole pages.
use rawth.Base.{
  ℕ, ◌*◌, ◌≤◌, ◌<◌, ◌≡◌, refl, ◌∙◌, List, [], ◌∷◌, ◌++◌, length, arith, length-append, ok, err, All,
  ge→ltb,
}
use rawth.Bytes.{Bytes, IsU32}
use rawth.Storage.Fault.{Fault, internal_overflow, leaf_overflow}
use rawth.Storage.Node.{
  page_size, cell_area_size, serialize_node, deserialize_node, header_bytes, pad_page,
  internal_node_size, deserialize_leaf, deserialize_internal,
}
use rawth.Storage.Node.Cells.{
  leaf_size, leaf_cells, internal_cells, serialize_leaf_fits, serialize_leaf_overflow,
  serialize_internal_fits, serialize_internal_overflow, length-leaf_cells, length-internal_cells,
}
use rawth.Storage.Node.RoundTrip.{
  deserialize_leaf-cells, deserialize_internal-cells, count-le-leaf_size, count-le-internal_size,
  length-pad_page, length-header_bytes, page_header, length-page,
}
use rawth.Storage.Node.View.{
  Entry, View, leaf, internal, leaf_keys, leaf_values, cell_keys, cell_children, to_node,
  entries_size, cells_size, view_size, IsInRange, ChildrenInRange,
}

pub leaf_lengths : (es : List Entry) → length (leaf_keys es) ≡ length (leaf_values es)
leaf_lengths [] = refl
leaf_lengths ((k, v) ∷ es) = omega (arith, leaf_lengths es)

pub cell_lengths : (cs : List (ℕ × Bytes)) → length (cell_keys cs) ≡ length (cell_children cs)
cell_lengths [] = refl
cell_lengths ((c, k) ∷ cs) = omega (arith, cell_lengths cs)

pub leaf_size-entries :
    (es : List Entry) → leaf_size (leaf_keys es) (leaf_values es) ≡ entries_size es
unfolding leaf_size entries_size
leaf_size-entries [] = refl
leaf_size-entries ((k, v) ∷ es) = omega (arith, leaf_size-entries es)

pub internal_size-cells :
    (cs : List (ℕ × Bytes)) → internal_node_size (cell_keys cs) (cell_children cs) ≡ cells_size cs
unfolding internal_node_size cells_size
internal_size-cells [] = refl
internal_size-cells ((c, k) ∷ cs) = omega (arith, internal_size-cells cs)

All-cell_children : (cs : List (ℕ × Bytes)) → ChildrenInRange cs → All IsU32 (cell_children cs)
All-cell_children [] h = tt
All-cell_children ((c, k) ∷ cs) (h, hs) = (h, All-cell_children cs hs)

view_cells : View → Bytes
view_cells (leaf es next) = leaf_cells (leaf_keys es) (leaf_values es)
view_cells (internal cs last) = internal_cells (cell_keys cs) (cell_children cs)

abbrev pub overflow : View → Fault
overflow (leaf es next) = leaf_overflow
overflow (internal cs last) = internal_overflow

-- The page of a node that fits.
pub page_of : View → Bytes
page_of v = pad_page (header_bytes (to_node v) ++ view_cells v)

pub serialize_fits :
    (v : View) → view_size v ≤ cell_area_size → serialize_node (to_node v) ≡ ok (page_of v)
unfolding to_node view_size page_of view_cells serialize_node
serialize_fits (leaf es next) h = rw (
    serialize_leaf_fits 7 (leaf_keys es) (leaf_values es) (leaf_lengths es)
      (omega (arith, leaf_size-entries es)))
serialize_fits (internal cs last) h = rw (
    serialize_internal_fits 7 (cell_keys cs) (cell_children cs) (cell_lengths cs)
      (omega (arith, internal_size-cells cs)))

-- A node whose entries do not fit in the cell area is not serialized: the result is the overflow
-- error of its kind of node.
pub serialize_overflow :
    (v : View) → cell_area_size < view_size v → serialize_node (to_node v) ≡ err (overflow v)
unfolding to_node view_size serialize_node
serialize_overflow (leaf es next) h = rw (
    serialize_leaf_overflow 7 (leaf_keys es) (leaf_values es) (leaf_lengths es) (omega arith)
      (omega (arith, leaf_size-entries es)))
serialize_overflow (internal cs last) h = rw (
    serialize_internal_overflow 7 (cell_keys cs) (cell_children cs) (cell_lengths cs) (omega arith)
      (omega (arith, internal_size-cells cs)))

length-view_cells : (v : View) → length (view_cells v) ≡ view_size v
unfolding view_cells view_size
length-view_cells (leaf es next) =
    length-leaf_cells (leaf_keys es) (leaf_values es) ∙ leaf_size-entries es
length-view_cells (internal cs last) =
    length-internal_cells (cell_keys cs) (cell_children cs) (cell_lengths cs)
    ∙ internal_size-cells cs

pub length-page_of : (v : View) → view_size v ≤ cell_area_size → length (page_of v) ≡ page_size
unfolding page_of
length-page_of v h = length-pad_page _ (
    omega (
      arith,
      length-append (header_bytes (to_node v)) (view_cells v),
      length-header_bytes (to_node v),
      length-view_cells v,
    ))

module _ (cells tail : Bytes) where
  deserialize_leaf_page :
      (es : List Entry) (next : ℕ)
      → IsU32 next
      → length (leaf_keys es) < 65536
      → deserialize_leaf (length (leaf_keys es)) (cells ++ tail) ≡ ok (leaf_keys es, leaf_values es)
      → deserialize_node ((header_bytes (to_node (leaf es next)) ++ cells) ++ tail)
        ≡ ok (to_node (leaf es next))
  unfolding deserialize_node to_node
  deserialize_leaf_page es next r k e =
      let n = to_node (leaf es next) in
      let (kind, count, right, body) = page_header n cells tail k r in
      rw (kind, count, right, body, e, ge→ltb _ _ (length-page n cells tail))

  deserialize_internal_page :
      (cs : List (ℕ × Bytes)) (last : ℕ)
      → IsU32 last
      → length (cell_keys cs) < 65536
      → deserialize_internal (length (cell_keys cs)) (cells ++ tail)
        ≡ ok (cell_keys cs, cell_children cs)
      → deserialize_node ((header_bytes (to_node (internal cs last)) ++ cells) ++ tail)
        ≡ ok (to_node (internal cs last))
  unfolding deserialize_node to_node
  deserialize_internal_page cs last r k e =
      let n = to_node (internal cs last) in
      let (kind, count, right, body) = page_header n cells tail k r in
      rw (kind, count, right, body, e, ge→ltb _ _ (length-page n cells tail))

pub deserialize-page_of :
    (v : View)
    → IsInRange v
    → view_size v ≤ cell_area_size
    → deserialize_node (page_of v) ≡ ok (to_node v)
unfolding page_of pad_page view_cells view_size
deserialize-page_of (leaf es next) r h =
    deserialize_leaf_page _ _ es next r (omega (arith, count, leaf_size-entries es))
      (deserialize_leaf-cells _ _ _ (leaf_lengths es) (omega (arith, leaf_size-entries es)))
  where
    count : 4 * length (leaf_keys es) ≤ leaf_size (leaf_keys es) (leaf_values es)
    count = count-le-leaf_size _ _ (leaf_lengths es)
deserialize-page_of (internal cs last) (rc, r) h =
    deserialize_internal_page _ _ cs last r (omega (arith, count, internal_size-cells cs)) (
      deserialize_internal-cells _ _ _ (cell_lengths cs) (All-cell_children cs rc)
        (omega (arith, internal_size-cells cs)))
  where
    count : 6 * length (cell_keys cs) ≤ internal_node_size (cell_keys cs) (cell_children cs)
    count = count-le-internal_size _ _ (cell_lengths cs)

-- A node whose page numbers fit in 32 bits and whose entries fit in the cell area is serialized
-- into a page of exactly `page_size` bytes, and `deserialize_node` reads that page as the node.
pub deserialize-serialize :
    (v : View)
    → IsInRange v
    → view_size v ≤ cell_area_size
    → (page : Bytes) × (serialize_node (to_node v) ≡ ok page)
      × (length page ≡ page_size)
      × (deserialize_node page ≡ ok (to_node v))
deserialize-serialize v r h =
    (page_of v, serialize_fits v h, length-page_of v h, deserialize-page_of v r h)
