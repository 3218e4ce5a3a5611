-- ===== src/Storage/Node.antt =====
-- internal/storage/btree.go, the codec of nodes: `node`, `serializeNode`, `deserializeNode` and the
-- sizes of nodes.
pub mod Cells
pub mod View
pub mod RoundTrip
pub mod Pages
use rawth.Base.{
  ℕ, zero, suc, ◌+◌, ◌-◌, List, [], ◌∷◌, ◌++◌, length, take, drop, get_or, replicate, ltb, ◌==◌,
  if◌then◌else◌, Outcome, ok, err, panic, ◌>>=◌,
}
use rawth.Bytes.{Bytes, put_uint16, uint16, put_uint32, uint32}
use rawth.Storage.Fault.{
  Fault, internal_overflow, leaf_overflow, page_too_small, truncated_child, truncated_key_length,
  truncated_key_data, truncated_leaf_lengths, truncated_leaf_data, unknown_node_type,
}

abbrev pub page_size : ℕ
page_size = 4096

abbrev pub node_header_size : ℕ
node_header_size = 7

abbrev pub max_key_size : ℕ
max_key_size = 255

abbrev pub max_value_size : ℕ
max_value_size = 3840

abbrev pub cell_area_size : ℕ
cell_area_size = page_size - node_header_size

abbrev pub node_type_internal : ℕ
node_type_internal = 1

abbrev pub node_type_leaf : ℕ
node_type_leaf = 2

pub record Node : Type 0 where
  pub node_type : ℕ
  pub keys : List Bytes
  pub values : List Bytes
  pub children : List ℕ
  pub right_ptr : ℕ

unfoldable pub make_leaf_node : Node
make_leaf_node = record {
  node_type = node_type_leaf;
  keys = [];
  values = [];
  children = [];
  right_ptr = 0;
}

unfoldable pub make_internal_node : Node
make_internal_node = record {
  node_type = node_type_internal;
  keys = [];
  values = [];
  children = [];
  right_ptr = 0;
}

-- The loop of `serializeNode` over an internal node, from `offset` on: the bytes that it writes.
unfoldable pub serialize_internal : ℕ → List Bytes → List ℕ → Outcome Fault Bytes
serialize_internal offset [] children = ok []
serialize_internal offset (key ∷ keys) [] =
    if ltb page_size (offset + 2 + length key) then err internal_overflow else (do
      rest ← serialize_internal (offset + 2 + length key) keys []
      ok (put_uint16 (length key) ++ (key ++ rest)))
serialize_internal offset (key ∷ keys) (child ∷ children) =
    if ltb page_size (offset + 4)
    then err internal_overflow
    else if ltb page_size (offset + 4 + 2 + length key)
    then err internal_overflow
    else (do
      rest ← serialize_internal (offset + 4 + 2 + length key) keys children
      ok (put_uint32 child ++ (put_uint16 (length key) ++ (key ++ rest))))

-- The loop over a leaf; `n.values[i]` panics where there are fewer values than keys.
unfoldable pub serialize_leaf : ℕ → List Bytes → List Bytes → Outcome Fault Bytes
serialize_leaf offset [] values = ok []
serialize_leaf offset (key ∷ keys) [] = panic
serialize_leaf offset (key ∷ keys) (val ∷ values) =
    if ltb page_size (offset + (2 + 2 + length key + length val)) then err leaf_overflow else (do
      rest ← serialize_leaf (offset + (2 + 2 + length key + length val)) keys values
      ok (put_uint16 (length key) ++ (put_uint16 (length val) ++ (key ++ (val ++ rest)))))

unfoldable pub header_bytes : Node → Bytes
header_bytes n = (n.node_type ∷ []) ++ (put_uint16 (length n.keys) ++ put_uint32 n.right_ptr)

-- What is written never passes `page_size`, and the buffer behind it is still zero.
unfoldable pub pad_page : Bytes → Bytes
pad_page written = written ++ replicate (page_size - length written) 0

unfoldable pub serialize_node : Node → Outcome Fault Bytes
unfolding header_bytes pad_page serialize_internal serialize_leaf
serialize_node n = do
  cells ←
      if n.node_type == node_type_internal
      then serialize_internal node_header_size n.keys n.children
      else serialize_leaf node_header_size n.keys n.values
  ok (pad_page (header_bytes n ++ cells))

-- The loop of `deserializeNode` over an internal node: the rounds left, and `data[offset:]`.
unfoldable pub deserialize_internal : ℕ → Bytes → Outcome Fault (List Bytes × List ℕ)
deserialize_internal zero rest = ok ([], [])
deserialize_internal (suc rounds) rest =
    let key_len = uint16 (drop 4 rest) in
    let after = drop 6 rest in
    let more = deserialize_internal rounds (drop key_len after) in
    if ltb (length rest) 4
    then err truncated_child
    else if ltb (length rest) 6
    then err truncated_key_length
    else if ltb (length after) key_len
    then err truncated_key_data
    else (do (keys, children) ← more; ok (take key_len after ∷ keys, uint32 rest ∷ children))

unfoldable pub deserialize_leaf : ℕ → Bytes → Outcome Fault (List Bytes × List Bytes)
deserialize_leaf zero rest = ok ([], [])
deserialize_leaf (suc rounds) rest =
    let key_len = uint16 rest in
    let val_len = uint16 (drop 2 rest) in
    let after = drop 4 rest in
    let more = deserialize_leaf rounds (drop val_len (drop key_len after)) in
    if ltb (length rest) 4
    then err truncated_leaf_lengths
    else if ltb (length after) (key_len + val_len)
    then err truncated_leaf_data
    else (do
      (keys, values) ← more
      ok (take key_len after ∷ keys, take val_len (drop key_len after) ∷ values))

unfoldable pub deserialize_node : Bytes → Outcome Fault Node
unfolding deserialize_internal deserialize_leaf
deserialize_node page =
    let node_type = get_or page 0 0 in
    let key_count = uint16 (drop 1 page) in
    let right_ptr = uint32 (drop 3 page) in
    let body = drop node_header_size page in
    if ltb (length page) node_header_size
    then err page_too_small
    else if node_type == node_type_internal
    then (do
      (keys, children) ← deserialize_internal key_count body
      ok (record {
        node_type = node_type;
        keys = keys;
        values = [];
        children = children;
        right_ptr = right_ptr;
      }))
    else if node_type == node_type_leaf
    then (do
      (keys, values) ← deserialize_leaf key_count body
      ok (record {
        node_type = node_type;
        keys = keys;
        values = values;
        children = [];
        right_ptr = right_ptr;
      }))
    else err (unknown_node_type node_type)

-- `leafNodeSize`, over the keys and the values; `n.values[i]` panics where a value is missing.
unfoldable pub leaf_node_size : List Bytes → List Bytes → Outcome Fault ℕ
leaf_node_size [] values = ok 0
leaf_node_size (key ∷ keys) [] = panic
leaf_node_size (key ∷ keys) (val ∷ values) = do
  size ← leaf_node_size keys values
  ok (2 + 2 + length key + length val + size)

-- `internalNodeSize`, over the keys and the children
unfoldable pub internal_node_size : List Bytes → List ℕ → ℕ
internal_node_size [] children = 0
internal_node_size (key ∷ keys) [] = 2 + length key + internal_node_size keys []
internal_node_size (key ∷ keys) (child ∷ children) =
    2 + length key + 4 + internal_node_size keys children
