-- ===== src/Storage/Node/RoundTrip.antt =====
-- internal/storage/btree.go, `deserializeNode` on the parts of a page that `serializeNode` wrote.
use rawth.Base.{
  ℕ, suc, ◌+◌, ◌*◌, ◌/◌, ◌%◌, ◌-◌, ◌≤◌, ◌<◌, ◌≡◌, refl, List, [], ◌∷◌, ◌++◌, length, drop, arith,
  append_assoc, length-append, length-replicate, take-append_length, drop-append_length, ok, ◌>>=◌,
  All, replicate, get_or, ge→ltb,
}
use rawth.Bytes.{Bytes, put_uint16, uint16, put_uint32, uint32, IsU32}
use rawth.Storage.Node.{
  page_size, Node, deserialize_internal, deserialize_leaf, internal_node_size, header_bytes,
  pad_page,
}
use rawth.Storage.Node.Cells.{leaf_size, leaf_cells, internal_cells}

word_parts : (n : ℕ) → n < 65536 → n % 256 + n / 256 % 256 * 256 ≡ n
word_parts n h = omega arith

deserialize_leaf_step :
    (rounds : ℕ) (key val rest : Bytes)
    → length key < 65536
    → length val < 65536
    → deserialize_leaf
        (suc rounds)
        (put_uint16 (length key) ++ (put_uint16 (length val) ++ (key ++ (val ++ rest))))
      ≡ (do (keys, values) ← deserialize_leaf rounds rest; ok (key ∷ keys, val ∷ values))
unfolding deserialize_leaf put_uint16 uint16
deserialize_leaf_step rounds key val rest hk hv =
    rw
      (
        word_parts (length key) hk,
        word_parts (length val) hv,
        take-append_length,
        drop-append_length,
        take-append_length,
        drop-append_length,
        ge→ltb _ _ room,
      )
      (ground arith)
  where
    room : length key + length val ≤ length (key ++ (val ++ rest))
    room = omega (arith, length-append key (val ++ rest), length-append val rest)

leaf_entry_assoc :
    (a b key val cells rest : Bytes)
    → (a ++ (b ++ (key ++ (val ++ cells)))) ++ rest ≡ a ++ (b ++ (key ++ (val ++ (cells ++ rest))))
leaf_entry_assoc a b key val cells rest = simp append_assoc

internal_entry_assoc :
    (a b key cells rest : Bytes)
    → (a ++ (b ++ (key ++ cells))) ++ rest ≡ a ++ (b ++ (key ++ (cells ++ rest)))
internal_entry_assoc a b key cells rest = simp append_assoc

pub deserialize_leaf-cells :
    (keys values : List Bytes) (rest : Bytes)
    → length keys ≡ length values
    → leaf_size keys values < 65536
    → deserialize_leaf (length keys) (leaf_cells keys values ++ rest) ≡ ok (keys, values)
unfolding leaf_cells leaf_size
deserialize_leaf-cells [] [] rest e h = unfold deserialize_leaf in refl
deserialize_leaf-cells [] (val ∷ values) rest e h = absurd (omega arith)
deserialize_leaf-cells (key ∷ keys) [] rest e h = absurd (omega arith)
deserialize_leaf-cells (key ∷ keys) (val ∷ values) rest e h = rw (
  leaf_entry_assoc _ _ key val (leaf_cells keys values) rest,
  deserialize_leaf_step (length keys) key val (leaf_cells keys values ++ rest) (omega arith)
      (omega arith),
  deserialize_leaf-cells keys values rest (omega arith) (omega arith),
)

dword_parts :
    (n : ℕ)
    → n < 4294967296
    → n % 256 + n / 256 % 256 * 256 + n / 65536 % 256 * 65536 + n / 16777216 % 256 * 16777216 ≡ n
dword_parts n h = omega arith

deserialize_internal_step :
    (rounds child : ℕ) (key rest : Bytes)
    → IsU32 child
    → length key < 65536
    → deserialize_internal
        (suc rounds)
        (put_uint32 child ++ (put_uint16 (length key) ++ (key ++ rest)))
      ≡ (do (keys, children) ← deserialize_internal rounds rest; ok (key ∷ keys, child ∷ children))
unfolding deserialize_internal put_uint16 uint16 put_uint32 uint32
deserialize_internal_step rounds child key rest hc hk =
    rw
      (
        word_parts (length key) hk,
        dword_parts child hc,
        take-append_length,
        drop-append_length,
        ge→ltb _ _ room,
      )
      (ground arith)
  where
    room : length key ≤ length (key ++ rest)
    room = omega (arith, length-append key rest)

pub deserialize_internal-cells :
    (keys : List Bytes) (children : List ℕ) (rest : Bytes)
    → length keys ≡ length children
    → All IsU32 children
    → internal_node_size keys children < 65536
    → deserialize_internal (length keys) (internal_cells keys children ++ rest)
      ≡ ok (keys, children)
unfolding internal_cells internal_node_size
deserialize_internal-cells [] [] rest e c h = unfold deserialize_internal in refl
deserialize_internal-cells [] (child ∷ children) rest e c h = absurd (omega arith)
deserialize_internal-cells (key ∷ keys) [] rest e c h = absurd (omega arith)
deserialize_internal-cells (key ∷ keys) (child ∷ children) rest e (c, cs) h = rw (
  internal_entry_assoc _ _ key (internal_cells keys children) rest,
  deserialize_internal_step (length keys) child key (internal_cells keys children ++ rest) c
      (omega arith),
  deserialize_internal-cells keys children rest (omega arith) cs (omega arith),
)

pub count-le-leaf_size :
    (keys values : List Bytes)
    → length keys ≡ length values
    → 4 * length keys ≤ leaf_size keys values
unfolding leaf_size
count-le-leaf_size [] values e = omega arith
count-le-leaf_size (key ∷ keys) [] e = absurd (omega arith)
count-le-leaf_size (key ∷ keys) (val ∷ values) e =
    omega (arith, count-le-leaf_size keys values (omega arith))

pub count-le-internal_size :
    (keys : List Bytes) (children : List ℕ)
    → length keys ≡ length children
    → 6 * length keys ≤ internal_node_size keys children
unfolding internal_node_size
count-le-internal_size [] children e = omega arith
count-le-internal_size (key ∷ keys) [] e = absurd (omega arith)
count-le-internal_size (key ∷ keys) (child ∷ children) e =
    omega (arith, count-le-internal_size keys children (omega arith))

pub length-pad_page : (b : Bytes) → length b ≤ page_size → length (pad_page b) ≡ page_size
unfolding pad_page
length-pad_page b h = omega (
  arith,
  length-append b (replicate (page_size - length b) 0),
  length-replicate {A = ℕ} (page_size - length b) 0,
)

pub length-header_bytes : (n : Node) → length (header_bytes n) ≡ 7
unfolding header_bytes put_uint16 put_uint32
length-header_bytes n = refl

-- The header of a page, and the body behind it.
module _ (n : Node) (cells tail : Bytes) where
  pub page_header :
      length n.keys < 65536
      → IsU32 n.right_ptr
      → (get_or ((header_bytes n ++ cells) ++ tail) 0 0 ≡ n.node_type)
        × (uint16 (drop 1 ((header_bytes n ++ cells) ++ tail)) ≡ length n.keys)
        × (uint32 (drop 3 ((header_bytes n ++ cells) ++ tail)) ≡ n.right_ptr)
        × (drop 7 ((header_bytes n ++ cells) ++ tail) ≡ cells ++ tail)
  unfolding header_bytes put_uint16 put_uint32 uint16 uint32
  page_header hk hp = (refl, word_parts (length n.keys) hk, dword_parts n.right_ptr hp, refl)

  pub length-page : 7 ≤ length ((header_bytes n ++ cells) ++ tail)
  length-page = omega (
    arith,
    length-append (header_bytes n ++ cells) tail,
    length-append (header_bytes n) cells,
    length-header_bytes n,
  )
