-- ===== src/Storage/PageStore.antt =====
-- internal/storage/btree.go, `readNode` and `writeNode`: the pager as the store of a tree's nodes.
use rawth.Base.{ℕ, ◌+◌, ◌≤◌, ◌<◌, ◌≡◌, refl, ap, ◌∙◌, ok, err, arith}
use rawth.Bytes.{Bytes}
use rawth.Storage.Monad.{M, lift, ◌>>=◌}
use rawth.Storage.Node.{Node, serialize_node, deserialize_node, cell_area_size}
use rawth.Storage.Node.View.{View, to_node, view_size, IsInRange}
use rawth.Storage.Node.Pages.{
  overflow, page_of, serialize_fits, serialize_overflow, length-page_of, deserialize-page_of,
}
use rawth.Storage.Pager
use rawth.Storage.Pager.{Pager}
use rawth.Storage.Pager.Pages.{page_at, IsSound, read_page_lem}
use rawth.Storage.Pager.Writes.{write_page_lem, allocate_page_lem, set_root_page_lem}
use rawth.Storage.Pager.Flush.{flush_lem}
use rawth.Storage.Store
use rawth.Storage.Store.{NodeStore, Observation, IsNodeStore}

unfoldable pub read_node : ℕ → M Pager Node
read_node id = Pager.read_page id >>= λ buf. lift (deserialize_node buf)

unfoldable pub write_node : ℕ → Node → M Pager (Unit {0})
write_node id n = lift (serialize_node n) >>= Pager.write_page id

abbrev pub page_store : NodeStore
page_store = record {
  State = Pager;
  read_node = read_node;
  write_node = write_node;
  allocate_page = Pager.allocate_page;
  root_page = Pager.root_page;
  set_root_page = Pager.set_root_page;
  flush = Pager.flush;
  page_count = λ p. p.header.page_count;
}

-- A page holds the node that its bytes are read as, and a node has the room of a page.
abbrev pub page_nodes : Observation Pager
page_nodes = record {
  Holds =
      λ p j v. (deserialize_node (page_at p j) ≡ ok (to_node v)) × (view_size v ≤ cell_area_size);
  root = λ p. p.header.root_page_id;
  IsReady = λ p. IsSound p × (p.header.free_list_head ≡ 0);
}

same_node : {a b : Bytes} {n : Node} → b ≡ a → deserialize_node a ≡ ok n → deserialize_node b ≡ ok n
same_node e h = ap deserialize_node e ∙ h

read_law :
    (p : Pager) (i : ℕ) (v : View)
    → IsSound p × (p.header.free_list_head ≡ 0)
    → i < p.header.page_count
    → (deserialize_node (page_at p i) ≡ ok (to_node v)) × (view_size v ≤ cell_area_size)
    → (q : Pager) × (read_node i p ≡ (ok (to_node v), q))
      × Store.Keeps page_nodes page_store.page_count p q
unfolding read_node
read_law p i v (s, free) h (holds, size) =
    let (q, e, same) = read_page_lem i s h in
    (
      q,
      rw (e, holds),
      record {
        nodes = λ j w pos below x. (same_node (same.pages j) x.0, x.1);
        root_same = ap (λ x. x.root_page_id) same.header;
        count = ap (λ x. x.page_count) same.header;
        ready = (same.sound, ap (λ x. x.free_list_head) same.header ∙ free);
      },
    )

write_law :
    (p : Pager) (i : ℕ) (v : View)
    → IsSound p × (p.header.free_list_head ≡ 0)
    → i < p.header.page_count
    → IsInRange v
    → view_size v ≤ cell_area_size
    → (q : Pager) × (write_node i (to_node v) p ≡ (ok tt, q))
      × Store.Writes page_nodes page_store.page_count p q i v
unfolding write_node
write_law p i v (s, free) h range fits =
    let (q, e, one) = write_page_lem i (page_of v) s (length-page_of v fits) in
    (
      q,
      rw (serialize_fits v fits, e),
      record {
        node = (same_node (one.pages i ∙ ground arith) (deserialize-page_of v range fits), fits);
        nodes = λ j w pos below ne x. (same_node (one.pages j ∙ ground (arith, ne)) x.0, x.1);
        root_same = ap (λ x. x.root_page_id) one.header;
        count = ap (λ x. x.page_count) one.header;
        ready = (one.sound, ap (λ x. x.free_list_head) one.header ∙ free);
      },
    )

write_overflow_law :
    (p : Pager) (i : ℕ) (v : View)
    → cell_area_size < view_size v
    → write_node i (to_node v) p ≡ (err (overflow v), p)
unfolding write_node
write_overflow_law p i v over = rw (serialize_overflow v over)

allocate_law :
    (p : Pager)
    → IsSound p × (p.header.free_list_head ≡ 0)
    → p.header.page_count + 1 < 4294967296
    → (q : Pager) × (Pager.allocate_page p ≡ (ok p.header.page_count, q))
      × Store.Allocates page_nodes page_store.page_count p q
allocate_law p (s, free) room =
    let (q, e, a) = allocate_page_lem s free room in
    (
      q,
      e,
      record {
        nodes = λ j w pos below x. (same_node (a.pages j pos below) x.0, x.1);
        root_same = a.root;
        count = a.count;
        ready = (a.sound, a.free);
      },
    )

set_root_law :
    (p : Pager) (i : ℕ)
    → IsSound p × (p.header.free_list_head ≡ 0)
    → (q : Pager) × (Pager.set_root_page i p ≡ (ok tt, q))
      × Store.Roots page_nodes page_store.page_count p q i
set_root_law p i (s, free) =
    let (q, e, r) = set_root_page_lem i s in
    (
      q,
      e,
      record {
        nodes = λ j w pos below x. (same_node (r.pages j pos) x.0, x.1);
        root_new = r.root;
        count = r.count;
        ready = (r.sound, r.free ∙ free);
      },
    )

flush_law :
    (p : Pager)
    → IsSound p × (p.header.free_list_head ≡ 0)
    → (q : Pager) × (Pager.flush p ≡ (ok tt, q)) × Store.Keeps page_nodes page_store.page_count p q
flush_law p (s, free) =
    let (q, e, f, d, clean) = flush_lem s in
    (
      q,
      e,
      record {
        nodes = λ j w pos below x. (same_node (f.pages j below) x.0, x.1);
        root_same = ap (λ x. x.root_page_id) f.header;
        count = ap (λ x. x.page_count) f.header;
        ready = (f.sound, ap (λ x. x.free_list_head) f.header ∙ free);
      },
    )

root_law : (p : Pager) → Pager.root_page p ≡ (ok p.header.root_page_id, p)
unfolding Pager.root_page
root_law p = refl

-- The pager with the node codec keeps the laws that the tree asks of its store: reading returns
-- the node that a page holds; writing a node that fits makes its page hold it and no other page
-- change; writing one that does not returns the overflow error and changes nothing; allocation
-- appends a page; and the root, allocation and flush keep the nodes of all pages.
pub page_store-IsNodeStore : IsNodeStore page_store page_nodes
page_store-IsNodeStore = record {
  read = read_law;
  sized = λ p i v holds. holds.1;
  write = write_law;
  write_overflow = write_overflow_law;
  allocate = allocate_law;
  get_root = root_law;
  set_root = set_root_law;
  flushes = flush_law;
}
