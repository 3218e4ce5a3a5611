-- ===== src/Storage/Tests.antt =====
-- The storage's theorems at concrete databases: a file that has just been created, and one leaf
-- with two entries.
use rawth.Base.{
  ℕ, inl, inr, ◌+◌, ◌≡◌, refl, List, [], ◌∷◌, ok, err, arith, true, length, replicate,
  length-replicate,
}
use rawth.Bytes.{Bytes, compare_bytes}
use rawth.Storage.Node.{page_size, serialize_node, deserialize_node}
use rawth.Storage.Node.View.{Entry, leaf, internal, to_node, entries_size, cells_size, view_size}
use rawth.Storage.Node.Pages.{deserialize-serialize, serialize_overflow}
use rawth.Storage.Fault.{Fault, leaf_overflow}
use rawth.Storage.Entries.{find}
use rawth.Storage.Pager
use rawth.Storage.Pager.{Pager}
use rawth.Storage.Pager.Pages.{SamePages, page_at, read_page_lem}
use rawth.Storage.Pager.Writes.{
  OnePage, Allocated, NewRoot, write_page_lem, allocate_page_lem, set_root_page_lem,
}
use rawth.Storage.Pager.Recycle.{Recycled, allocate_page-free_page}
use rawth.Storage.Pager.Flush.{Flushed, Dumped, flush_lem}
use rawth.Storage.Pager.Fresh.{new_pager, new_pager-IsSound}
use rawth.Storage.PageStore.{page_store, page_nodes, page_store-IsNodeStore}
use rawth.Storage.Tree.{get, put, has, keys, count, for_each, new_tree, insert, depth}
use rawth.Storage.Tree.Shape.{page_no}
use rawth.Storage.Tree.Grown.{Inserts}
use rawth.Storage.Tree.Insert.{insert_lem}
use rawth.Storage.Tree.Contract.{Represents, get_lem, has_lem, fuel_enough}
use rawth.Storage.Tree.Puts.{Puts, put_lem}
use rawth.Storage.Tree.Rejects.{Refuses, put_rejects}
use rawth.Storage.Tree.Deletes.{Removes, delete_lem}
use rawth.Storage.Tree.Listing.{keys_lem, count_lem, for_each_lem}
use rawth.Storage.Tree.Depth.{depth_lem}
use rawth.Storage.Tree.Fresh.{new_tree_lem}

abbrev pub key_a : Bytes
key_a = 97 ∷ []

abbrev pub key_b : Bytes
key_b = 98 ∷ []

abbrev pub items : List Entry
items = (key_a, 49 ∷ []) ∷ (key_b, 50 ∷ []) ∷ []

-- The root page of the database with two entries is written by the store's operations.
pub loaded : (p : Pager) × Represents page_store page_nodes p items × (p.header.page_count ≡ 2)
unfolding new_pager view_size entries_size compare_bytes
loaded =
    let laws = page_store-IsNodeStore in
    let (u, ea, a) = laws.allocate new_pager (new_pager-IsSound, refl) (omega arith) in
    let (v, eb, b) =
      laws.write u 1 (leaf items 0) a.ready (omega (arith, a.count)) (omega arith) (omega arith) in
    let (w, ec, c) = laws.set_root v 1 b.ready in
    (
      w,
      record {
        height = 0;
        tree = record { page = 1; entries = items; next = 0 };
        at_root = c.root_new;
        ready = c.ready;
        stored = (
          c.nodes 1 (leaf items 0) (omega arith) (omega (arith, a.count, b.count)) b.node,
          omega arith,
        );
        placed = λ j p. ground (arith, a.count, b.count, c.count);
        distinct = λ j. ground arith;
        ordered = ((tt, tt, (tt, tt, tt)), (refl, (tt, tt)));
        chained = refl;
        fits = omega (arith, a.count, b.count, c.count);
        same = refl;
      },
      omega (arith, a.count, b.count, c.count),
    )

abbrev pub db : Pager
db = loaded.0

put_lem_example : Puts page_store page_nodes db items key_b (51 ∷ 51 ∷ [])
put_lem_example =
    put_lem page_store page_nodes page_store-IsNodeStore key_b (51 ∷ 51 ∷ []) db items (omega arith)
      (omega arith) (omega arith) loaded.1 (omega (arith, loaded.2))

get_lem_example :
    (u : Pager) × (get page_store key_b db ≡ (ok (50 ∷ []), u))
    × Represents page_store page_nodes u items
unfolding find compare_bytes
get_lem_example = get_lem page_store page_nodes page_store-IsNodeStore key_b db items loaded.1

has_lem_example :
    (u : Pager) × (has page_store key_b db ≡ (ok true, u))
    × Represents page_store page_nodes u items
unfolding find compare_bytes
has_lem_example = has_lem page_store page_nodes page_store-IsNodeStore key_b db items loaded.1

delete_lem_example : Removes page_store page_nodes db items key_a
delete_lem_example = delete_lem page_store page_nodes page_store-IsNodeStore key_a db items loaded.1

keys_lem_example :
    (u : Pager) × (keys page_store db ≡ (ok (key_a ∷ key_b ∷ []), u))
    × Represents page_store page_nodes u items
keys_lem_example = keys_lem page_store page_nodes page_store-IsNodeStore db items loaded.1

count_lem_example :
    (u : Pager) × (count page_store db ≡ (ok 2, u)) × Represents page_store page_nodes u items
count_lem_example = count_lem page_store page_nodes page_store-IsNodeStore db items loaded.1

for_each_lem_example :
    (u : Pager) × (for_each page_store (λ n k v. ok (n + length v)) 0 db ≡ (ok 2, u))
    × Represents page_store page_nodes u items
for_each_lem_example =
    for_each_lem page_store page_nodes page_store-IsNodeStore db items loaded.1
      (λ n k v. n + length v) 0

new_tree_lem_example :
    (u : Pager) × (new_tree page_store new_pager ≡ (ok tt, u))
    × Represents page_store page_nodes u []
unfolding new_pager
new_tree_lem_example =
    new_tree_lem page_store page_nodes page_store-IsNodeStore new_pager refl
      (new_pager-IsSound, refl) (omega arith) (omega arith)

deserialize-serialize_example :
    (page : Bytes) × (serialize_node (to_node (internal ((3, key_a) ∷ []) 4)) ≡ ok page)
    × (length page ≡ page_size)
    × (deserialize_node page ≡ ok (to_node (internal ((3, key_a) ∷ []) 4)))
unfolding view_size cells_size
deserialize-serialize_example =
    deserialize-serialize (internal ((3, key_a) ∷ []) 4) ((omega arith, tt), omega arith)
      (omega arith)

read_page_lem_example :
    (q : Pager) × (Pager.read_page 1 db ≡ (ok (page_at db 1), q)) × SamePages db q
read_page_lem_example = read_page_lem 1 loaded.1.ready.0 (omega (arith, loaded.2))

allocate_page_lem_example :
    (q : Pager) × (Pager.allocate_page new_pager ≡ (ok 1, q)) × Allocated new_pager q 1
unfolding new_pager
allocate_page_lem_example = allocate_page_lem new_pager-IsSound refl (omega arith)

flush_lem_example :
    (q : Pager) × (Pager.flush db ≡ (ok tt, q))
    × Flushed db q
    × Dumped db.dirty db q
    × (q.dirty ≡ [])
flush_lem_example = flush_lem loaded.1.ready.0

set_root_page_lem_example : (q : Pager) × (Pager.set_root_page 1 db ≡ (ok tt, q)) × NewRoot db q 1
set_root_page_lem_example = set_root_page_lem 1 loaded.1.ready.0

write_page_lem_example :
    (q : Pager) × (Pager.write_page 1 (replicate page_size 7) db ≡ (ok tt, q))
    × OnePage db q 1 (replicate page_size 7)
write_page_lem_example =
    write_page_lem 1 (replicate page_size 7) loaded.1.ready.0 (length-replicate {A = ℕ} page_size 7)

serialize_overflow_example :
    serialize_node (to_node (leaf ((key_a, replicate 4090 0) ∷ []) 0)) ≡ err leaf_overflow
unfolding view_size entries_size
serialize_overflow_example =
    serialize_overflow (leaf ((key_a, replicate 4090 0) ∷ []) 0)
      (omega (arith, length-replicate {A = ℕ} 4090 0))

insert_lem_example :
    Inserts page_store page_nodes key_b
      (51 ∷ [])
      (insert page_store db.header.page_count
        (page_no loaded.1.height loaded.1.tree)
        key_b
        (51 ∷ []))
      db
      loaded.1.height
      loaded.1.tree
insert_lem_example =
    insert_lem page_store page_nodes page_store-IsNodeStore key_b (51 ∷ []) loaded.1.height
      db.header.page_count db loaded.1.tree (fuel_enough page_store page_nodes db items loaded.1)
      loaded.1.ready loaded.1.stored loaded.1.placed loaded.1.distinct
      (omega (arith, loaded.2, fuel_enough page_store page_nodes db items loaded.1))

depth_lem_example :
    (u : Pager) × (depth page_store db ≡ (ok (loaded.1.height + 1), u))
    × Represents page_store page_nodes u items
depth_lem_example = depth_lem page_store page_nodes page_store-IsNodeStore db items loaded.1

allocate_page-free_page_example :
    (q : Pager) × (r : Pager) × (Pager.free_page 1 db ≡ (ok tt, q))
    × (Pager.allocate_page q ≡ (ok 1, r))
    × Recycled db r 1
allocate_page-free_page_example =
    allocate_page-free_page 1 loaded.1.ready.0 (omega arith) (omega (arith, loaded.2))
      (omega (arith, loaded.1.ready.1))

put_rejects_example :
    (e : Fault) × (put page_store (replicate 256 1) [] db ≡ (err e, db))
    × Refuses page_store (replicate 256 1) [] db e
put_rejects_example =
    put_rejects page_store (replicate 256 1) [] db
      (inr (inl (omega (arith, length-replicate {A = ℕ} 256 1))))
