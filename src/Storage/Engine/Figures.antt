-- ===== src/Storage/Engine/Figures.antt =====
-- internal/storage/engine.go: `Stats` on a database that represents a list of entries.
use rawth.Base.{
  ℕ, zero, suc, ◌+◌, ◌*◌, ◌≡◌, refl, sym, ap, ◌∙◌, inl, inr, true, false, List, length, ◌==◌,
  Outcome, ok, err, panic, stuck, Bool-cases,
}
use rawth.Bytes.{Bytes}
use rawth.Storage.Fault.{Fault}
use rawth.Storage.Monad.{M, and_then}
use rawth.Storage.Node.{Node, page_size}
use rawth.Storage.Node.View.{Entry}
use rawth.Storage.Pager.{Pager}
use rawth.Storage.Pager
use rawth.Storage.PageStore.{page_store, page_nodes, page_store-IsNodeStore}
use rawth.Storage.Tree
use rawth.Storage.Tree.Listing.{count_lem}
use rawth.Storage.Tree.Depth.{depth_lem}
use rawth.Storage.Engine.{Engine, EngineStats, set_db, count_until, counted, read_on, stats}
use rawth.Storage.Engine.Reads.{Contains}

abbrev count_one : ℕ → Bytes → Bytes → Outcome Fault ℕ
count_one c k v = ok (c + 1)

abbrev count_node : ℕ → Node → Outcome Fault ℕ
count_node c n = Tree.visit_entries count_one n.keys n.values c

-- What follows when all calls go through.
read_on-ok :
    {A B : Type 0} (b : B) (f g : A → M Pager B) (r : Outcome Fault A × Pager) (n : B) (q : Pager)
    → ((a : A) (p : Pager) → f a p ≡ (ok n, q) → g a p ≡ (ok n, q))
    → and_then r f ≡ (ok n, q)
    → read_on b g r ≡ (ok n, q)
read_on-ok b f g (ok a, p) n q h e = h a p e
read_on-ok {B = B} b f g (err x, p) n q h e = cc (ap (λ (x : Outcome Fault B × Pager). x.0) e)
read_on-ok {B = B} b f g (panic, p) n q h e = cc (ap (λ (x : Outcome Fault B × Pager). x.0) e)
read_on-ok {B = B} b f g (stuck, p) n q h e = cc (ap (λ (x : Outcome Fault B × Pager). x.0) e)

and_then-ok :
    {A B : Type 0} (f g : A → M Pager B) (r : Outcome Fault A × Pager) (n : B) (q : Pager)
    → ((a : A) (p : Pager) → f a p ≡ (ok n, q) → g a p ≡ (ok n, q))
    → and_then r f ≡ (ok n, q)
    → and_then r g ≡ (ok n, q)
and_then-ok f g (ok a, p) n q h e = h a p e
and_then-ok f g (err x, p) n q h e = e
and_then-ok f g (panic, p) n q h e = e
and_then-ok f g (stuck, p) n q h e = e

scan_end :
    (fuel id acc : ℕ) (p : Pager)
    → id == 0 ≡ true
    → (Tree.scan_leaves page_store count_node (suc fuel) id acc p ≡ (ok acc, p))
      × (count_until (suc fuel) id acc p ≡ (ok acc, p))
unfolding Tree.scan_leaves count_until
scan_end fuel id acc p z = (rw z refl, rw z refl)

scan_on :
    (fuel id acc : ℕ) (p : Pager)
    → id == 0 ≡ false
    → Tree.scan_leaves page_store count_node (suc fuel) id acc p
      ≡ and_then (page_store.read_node id p) (λ m. λ s.
        and_then
          (count_node acc m, s)
          (λ a. Tree.scan_leaves page_store count_node fuel m.right_ptr a))
unfolding Tree.scan_leaves
scan_on fuel id acc p z = rw z refl

count_on :
    (fuel id acc : ℕ) (p : Pager)
    → id == 0 ≡ false
    → count_until (suc fuel) id acc p
      ≡ read_on acc
          (λ m. λ s. and_then (count_node acc m, s) (λ a. count_until fuel m.right_ptr a))
          (page_store.read_node id p)
unfolding count_until
count_on fuel id acc p z = rw z refl

count_until-scan :
    (fuel id acc : ℕ) (p : Pager) (n : ℕ) (q : Pager)
    → Tree.scan_leaves page_store count_node fuel id acc p ≡ (ok n, q)
    → count_until fuel id acc p ≡ (ok n, q)
unfolding Tree.scan_leaves count_until
count_until-scan zero id acc p n q e = e
count_until-scan (suc fuel) id acc p n q e = elim (Bool-cases (id == 0)) [
  | inl z ↦ (scan_end fuel id acc p z).1 ∙ sym (scan_end fuel id acc p z).0 ∙ e
  | inr z ↦
      count_on fuel id acc p z
      ∙ read_on-ok acc
          (λ m. λ s.
            and_then (count_node acc m, s)
              (λ a. Tree.scan_leaves page_store count_node fuel m.right_ptr a))
          (λ m. λ s. and_then (count_node acc m, s) (λ a. count_until fuel m.right_ptr a))
          (page_store.read_node id p) n q
          (λ m s.
            and_then-ok _ _ (count_node acc m, s) n q
              (λ a t. count_until-scan fuel m.right_ptr a t n q))
          (sym (scan_on fuel id acc p z) ∙ e)
]

counted-count :
    (p : Pager) (n : ℕ) (q : Pager) → Tree.count page_store p ≡ (ok n, q) → counted p ≡ (ok n, q)
unfolding Tree.count Tree.for_each counted Pager.root_page
counted-count p n q e =
    read_on-ok 0 _ (λ leaf. count_until p.header.page_count leaf 0)
      (Tree.find_leftmost_leaf page_store p.header.page_count p.header.root_page_id p) n q
      (λ leaf s. count_until-scan p.header.page_count leaf 0 s n q) e

-- The figures of a database.
abbrev pub figures : (ℕ → ℕ → Bytes) → ℕ → ℕ → ℕ → Engine → EngineStats
figures uptime now count levels e = record {
  key_count = count;
  tree_depth = levels;
  page_count = e.db.header.page_count;
  file_size = e.db.header.page_count * page_size;
  put_count = e.put_count;
  get_count = e.get_count;
  delete_count = e.delete_count;
  uptime = uptime e.start_time now;
  file_path = e.path;
}

stats-ok :
    (uptime : ℕ → ℕ → Bytes) (now : ℕ) (e : Engine) (n d : ℕ) (p q : Pager)
    → counted e.db ≡ (ok n, p)
    → Tree.depth page_store p ≡ (ok d, q)
    → stats uptime now e ≡ (ok (figures uptime now n d (set_db e q)), set_db e q)
unfolding stats Pager.page_count Pager.file_size
stats-ok uptime now e n d p q f g = rw (f, g) refl

pub stats_lem :
    (uptime : ℕ → ℕ → Bytes) (now : ℕ) (e : Engine) (es : List Entry)
    → Contains e es
    → (levels : ℕ) × (p : Pager) × (stats uptime now e
        ≡ (ok (figures uptime now (length es) levels (set_db e p)), set_db e p))
      × Contains (set_db e p) es
stats_lem uptime now e es r =
    let (p, f, rp) = count_lem page_store page_nodes page_store-IsNodeStore e.db es r in
    let (q, g, rq) = depth_lem page_store page_nodes page_store-IsNodeStore p es rp in
    (
      rp.height + 1,
      q,
      stats-ok uptime now e (length es) (rp.height + 1) p q (counted-count e.db (length es) p f) g,
      rq,
    )
