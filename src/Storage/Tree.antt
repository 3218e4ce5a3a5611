-- ===== src/Storage/Tree.antt =====
-- internal/storage/btree.go: the B+ tree over the pages of a store. The source recurs from page to
-- page without a bound; here the recursion takes fuel, and the methods give it as many steps as
-- the database has pages.
pub mod Shape
pub mod Rows
pub mod Placed
pub mod Slots
pub mod TwoPages
pub mod Grown
pub mod LeafInsert
pub mod Splice
pub mod SpliceLaws
pub mod Ids
pub mod InnerInsert
pub mod Spliced
pub mod InnerGrown
pub mod InPlace
pub mod InnerStep
pub mod Insert
pub mod Search
pub mod Contract
pub mod Puts
pub mod Rejects
pub mod Fresh
pub mod Delete
pub mod Deletes
pub mod Scan
pub mod Listing
pub mod Depth
use rawth.Base.{
  ℕ, zero, suc, ◌+◌, ◌-◌, ◌/◌, Bool, true, false, List, [], ◌∷◌, ◌++◌, Option, none, some, length,
  take, drop, get_or, get_elem?, ltb, ◌==◌, if◌then◌else◌, Outcome, ok, err, panic, stuck,
}
use rawth.Base
use Prim.Native.Nat.Ordering.{lt, eq, gt}
use rawth.Bytes.{Bytes, compare_bytes, equal_bytes}
use rawth.Storage.Fault.{Fault, key_empty, key_too_long, value_too_long, key_not_found}
use rawth.Storage.Monad.{M, pure, raise, gets, lift, ◌>>=◌, ◌>>◌}
use rawth.Storage.Node.{
  Node, node_type_leaf, node_type_internal, cell_area_size, max_key_size, max_value_size,
  leaf_node_size, internal_node_size, make_leaf_node, make_internal_node,
}
use rawth.Storage.Store.{NodeStore}

module _ {A : Type 0} where
  -- `insertAt` and `insertAtUint32`; an index past the end panics.
  unfoldable pub insert_at : List A → ℕ → A → Outcome Fault (List A)
  insert_at xs zero v = ok (v ∷ xs)
  insert_at [] (suc i) v = panic
  insert_at (x ∷ xs) (suc i) v = Base.◌>>=◌ (insert_at xs i v) (λ ys. ok (x ∷ ys))

  -- `removeAt`
  unfoldable pub remove_at : List A → ℕ → Outcome Fault (List A)
  remove_at [] i = panic
  remove_at (x ∷ xs) zero = ok xs
  remove_at (x ∷ xs) (suc i) = Base.◌>>=◌ (remove_at xs i) (λ ys. ok (x ∷ ys))

  -- `slice[index] = value`
  unfoldable pub set_at : List A → ℕ → A → Outcome Fault (List A)
  set_at [] i v = panic
  set_at (x ∷ xs) zero v = ok (v ∷ xs)
  set_at (x ∷ xs) (suc i) v = Base.◌>>=◌ (set_at xs i v) (λ ys. ok (x ∷ ys))

-- The first index whose key is above `key`: the loop that finds a child.
unfoldable pub child_index : Bytes → List Bytes → ℕ
child_index key [] = 0
child_index key (k ∷ ks) = elim (compare_bytes key k) [ lt ↦ 0 | _ ↦ suc (child_index key ks) ]

unfoldable pub child_page : Node → ℕ → ℕ
child_page n i = if ltb i (length n.children) then get_or n.children i 0 else n.right_ptr

-- The loop of `insertLeaf`: where it stops, and whether the key is there.
unfoldable pub leaf_slot : Bytes → List Bytes → ℕ × Bool
leaf_slot key [] = (0, false)
leaf_slot key (k ∷ ks) =
    let (pos, found) = leaf_slot key ks in
    elim (compare_bytes key k) [ eq ↦ (0, true) | lt ↦ (0, false) | gt ↦ (suc pos, found) ]

-- The loop of `search` over a leaf; `n.values[i]` panics where there is no such value.
unfoldable pub leaf_get : Bytes → List Bytes → List Bytes → Outcome Fault Bytes
leaf_get key [] values = err key_not_found
leaf_get key (k ∷ ks) [] =
    let rest = leaf_get key ks [] in if equal_bytes k key then panic else rest
leaf_get key (k ∷ ks) (v ∷ vs) =
    let rest = leaf_get key ks vs in if equal_bytes k key then ok v else rest

-- The loop of `deleteFromNode` over a leaf: the index of the key.
unfoldable pub leaf_find : Bytes → List Bytes → Option ℕ
leaf_find key [] = none
leaf_find key (k ∷ ks) =
    let rest = leaf_find key ks in
    if equal_bytes k key then some 0 else elim rest [ none ↦ none | some i ↦ some (suc i) ]

-- What `insert` returns beside an error: the key and the page that a split passes up.
abbrev pub Split : Type 0
Split = Option (Bytes × ℕ)

-- The end of `Has`: any error of `Get` but `ErrKeyNotFound` is passed on.
unfoldable pub found : {S : Type 0} → Outcome Fault Bytes × S → Outcome Fault Bool × S
found (ok v, t) = (ok true, t)
found (err key_not_found, t) = (ok false, t)
found (err e, t) = (err e, t)
found (panic, t) = (panic, t)
found (stuck, t) = (stuck, t)

-- The loop of `ForEach` over one leaf, with what the callback gathers.
unfoldable pub visit_entries :
    {A : Type 0}
    → (A → Bytes → Bytes → Outcome Fault A)
    → List Bytes
    → List Bytes
    → A
    → Outcome Fault A
visit_entries f [] values acc = ok acc
visit_entries f (k ∷ ks) [] acc = panic
visit_entries f (k ∷ ks) (v ∷ vs) acc = Base.◌>>=◌ (f acc k v) (visit_entries f ks vs)

-- `n.children[:mid+1]`, and its last child as the rightmost one.
unfoldable pub left_part : Node → ℕ → Node
left_part n mid =
    let front = take (mid + 1) n.children in
    if ltb 0 (length front)
    then record n {
      keys = take mid n.keys;
      children = take (length front - 1) front;
      right_ptr = get_or front (length front - 1) 0;
    }
    else record n { keys = take mid n.keys; children = front }

unfoldable pub right_part : Node → ℕ → Node
right_part n mid = record make_internal_node {
  keys = drop (mid + 1) n.keys;
  children = if ltb (mid + 1) (length n.children) then drop (mid + 1) n.children else [];
  right_ptr = n.right_ptr;
}

module _ (store : NodeStore) where
  open store use {
    State, read_node, write_node, allocate_page, root_page, set_root_page, flush, page_count,
  }

  -- `newLeaf.keys[0]` panics on an empty leaf.
  unfoldable pub split_leaf : ℕ → Node → M State Split
  split_leaf id n =
      let mid = length n.keys / 2 in
      let keys = drop mid n.keys in
      do
        new_id ← allocate_page
        write_node id
            (record n { keys = take mid n.keys; values = take mid n.values; right_ptr = new_id })
        write_node new_id (record make_leaf_node {
          keys = keys;
          values = drop mid n.values;
          right_ptr = n.right_ptr;
        })
        elim (get_elem? keys 0) [ none ↦ lift panic | some k ↦ pure (some (k, new_id)) ]

  -- The update of a key that is there, and the insertion of one that is not.
  unfoldable pub insert_leaf : ℕ → Node → Bytes → Bytes → M State Split
  unfolding split_leaf
  insert_leaf id n key value =
      let (pos, found) = leaf_slot key n.keys in
      if found
      then (do
        values ← lift (set_at n.values pos value)
        write_node id (record n { values = values })
        pure none)
      else (do
        keys ← lift (insert_at n.keys pos key)
        values ← lift (insert_at n.values pos value)
        size ← lift (leaf_node_size keys values)
        if ltb cell_area_size size
            then split_leaf id (record n { keys = keys; values = values })
            else (do write_node id (record n { keys = keys; values = values }); pure none))

  -- The rest of `splitInternal`, given `n.keys[mid]`.
  unfoldable pub split_internal_at : ℕ → Node → ℕ → Option Bytes → M State Split
  split_internal_at id n mid none = lift panic
  split_internal_at id n mid (some promoted) = do
    new_id ← allocate_page
    write_node id (left_part n mid)
    write_node new_id (right_part n mid)
    pure (some (promoted, new_id))

  unfoldable pub split_internal : ℕ → Node → M State Split
  split_internal id n =
      let mid = length n.keys / 2 in split_internal_at id n mid (get_elem? n.keys mid)

  -- The rest of `insertInternal` when the child at `i` has split.
  unfoldable pub adopt : ℕ → Node → ℕ → Bytes → ℕ → M State Split
  unfolding split_internal
  adopt id n i split_key split_id = do
    keys ← lift (insert_at n.keys i split_key)
    m ←
        if ltb i (length n.children)
        then (do
          children ← lift (insert_at n.children (i + 1) split_id)
          pure (record n { keys = keys; children = children }))
        else pure (record n {
          keys = keys;
          children = n.children ++ (n.right_ptr ∷ []);
          right_ptr = split_id;
        })
    if ltb cell_area_size (internal_node_size m.keys m.children)
        then split_internal id m
        else (do write_node id m; pure none)

  -- `insertInternal`, given the recursive call of `insert`
  unfoldable pub insert_internal : (ℕ → M State Split) → ℕ → Node → Bytes → M State Split
  unfolding adopt
  insert_internal insert_child id n key =
      let i = child_index key n.keys in
      do
        split ← insert_child (child_page n i)
        elim split [
          | none ↦ pure none
          | some (split_key, split_id) ↦ adopt id n i split_key split_id
        ]

  unfoldable pub insert : ℕ → ℕ → Bytes → Bytes → M State Split
  unfolding insert_leaf insert_internal
  insert zero id key value = lift stuck
  insert (suc fuel) id key value =
      let below = λ (child : ℕ). insert fuel child key value in
      do
        n ← read_node id
        if n.node_type == node_type_leaf
            then insert_leaf id n key value
            else insert_internal below id n key

  unfoldable pub put : Bytes → Bytes → M State (Unit {0})
  unfolding insert
  put key value =
      if length key == 0
      then raise key_empty
      else if ltb max_key_size (length key)
      then raise key_too_long
      else if ltb max_value_size (length value)
      then raise value_too_long
      else (do
        fuel ← gets page_count
        root ← root_page
        split ← insert fuel root key value
        elim split [
          | none ↦ flush
          | some (new_key, new_child) ↦ do
            new_root ← allocate_page
            write_node new_root (record make_internal_node {
              keys = new_key ∷ [];
              children = root ∷ [];
              right_ptr = new_child;
            })
            set_root_page new_root
            flush
        ])

  unfoldable pub search : ℕ → ℕ → Bytes → M State Bytes
  search zero id key = lift stuck
  search (suc fuel) id key =
      let below = λ (child : ℕ). search fuel child key in
      do
        n ← read_node id
        if n.node_type == node_type_leaf
            then lift (leaf_get key n.keys n.values)
            else below (child_page n (child_index key n.keys))

  unfoldable pub get : Bytes → M State Bytes
  unfolding search
  get key = do fuel ← gets page_count; root ← root_page; search fuel root key

  unfoldable pub delete_from_node : ℕ → ℕ → Bytes → M State Bool
  delete_from_node zero id key = lift stuck
  delete_from_node (suc fuel) id key =
      let below = λ (child : ℕ). delete_from_node fuel child key in
      do
        n ← read_node id
        if n.node_type == node_type_leaf
            then elim (leaf_find key n.keys) [
              | none ↦ pure false
              | some i ↦ do
                keys ← lift (remove_at n.keys i)
                values ← lift (remove_at n.values i)
                write_node id (record n { keys = keys; values = values })
                pure true
            ]
            else below (child_page n (child_index key n.keys))

  unfoldable pub delete : Bytes → M State (Unit {0})
  unfolding delete_from_node
  delete key = do
    fuel ← gets page_count
    root ← root_page
    deleted ← delete_from_node fuel root key
    if deleted then flush else raise key_not_found

  unfoldable pub has : Bytes → M State Bool
  unfolding get found
  has key s = found (get key s)

  unfoldable pub find_leftmost_leaf : ℕ → ℕ → M State ℕ
  find_leftmost_leaf zero id = lift stuck
  find_leftmost_leaf (suc fuel) id =
      let below = λ (child : ℕ). find_leftmost_leaf fuel child in
      do
        n ← read_node id
        if n.node_type == node_type_leaf
            then pure id
            else below (if ltb 0 (length n.children) then get_or n.children 0 0 else n.right_ptr)

  -- The loop over the chain of leaves: `visit` takes what is gathered so far and one leaf.
  unfoldable pub scan_leaves : {A : Type 0} → (A → Node → Outcome Fault A) → ℕ → ℕ → A → M State A
  scan_leaves visit zero id acc = if id == 0 then pure acc else lift stuck
  scan_leaves {A} visit (suc fuel) id acc =
      let rest = λ (next : ℕ) (acc' : A). scan_leaves visit fuel next acc' in
      if id == 0
      then pure acc
      else (do n ← read_node id; acc' ← lift (visit acc n); rest n.right_ptr acc')

  unfoldable pub keys : M State (List Bytes)
  unfolding find_leftmost_leaf scan_leaves
  keys = do
    fuel ← gets page_count
    root ← root_page
    leaf ← find_leftmost_leaf fuel root
    scan_leaves (λ acc n. ok (acc ++ n.keys)) fuel leaf []

  unfoldable pub for_each : {A : Type 0} → (A → Bytes → Bytes → Outcome Fault A) → A → M State A
  unfolding find_leftmost_leaf scan_leaves visit_entries
  for_each f acc = do
    fuel ← gets page_count
    root ← root_page
    leaf ← find_leftmost_leaf fuel root
    scan_leaves (λ acc' n. visit_entries f n.keys n.values acc') fuel leaf acc

  unfoldable pub count : M State ℕ
  unfolding for_each
  count = for_each (λ (c : ℕ) k v. ok (c + 1)) 0

  unfoldable pub depth_from : ℕ → ℕ → M State ℕ
  depth_from zero id = lift stuck
  depth_from (suc fuel) id =
      let below = λ (child : ℕ). depth_from fuel child in
      do
        n ← read_node id
        if n.node_type == node_type_leaf then pure 1 else (do
          d ← below (if ltb 0 (length n.children) then get_or n.children 0 0 else n.right_ptr)
          pure (d + 1))

  unfoldable pub depth : M State ℕ
  unfolding depth_from
  depth = do fuel ← gets page_count; root ← root_page; depth_from fuel root

  -- `NewBPlusTree`: a database without a root gets an empty leaf.
  unfoldable pub new_tree : M State (Unit {0})
  new_tree = do
    root ← root_page
    if root == 0
        then (do root_id ← allocate_page; write_node root_id make_leaf_node; set_root_page root_id)
        else pure tt
