-- ===== src/Storage/Pager/Recycle.antt =====
-- internal/storage/pager.go: `FreePage`, and `AllocatePage` on a free list that is not empty, on a
-- file that does not fail.
use rawth.Base.{
  ℕ, ◌-◌, ◌<◌, ◌≡◌, ◌≢◌, refl, ap, ◌∙◌, length, replicate, ◌==◌, if◌then◌else◌, arith, ok,
}
use rawth.Bytes.{Bytes, put_uint32, uint32}
use rawth.Bytes.Words.{uint32-put_uint32, length-put_uint32}
use rawth.Storage.Monad.{and_then}
use rawth.Storage.Node.{page_size, pad_page}
use rawth.Storage.Node.RoundTrip.{length-pad_page}
use rawth.Storage.Pager.{
  Pager, FileHeader, free_page, allocate_page, read_page, write_header, store_page, zero_page,
}
use rawth.Storage.Pager.Pages.{page_at, IsSound, read_page_lem}
use rawth.Storage.Pager.Writes.{write_header_lem, store_page-OnePage, length-zero_page}

-- The head of the free list is replaced.
abbrev set_free : ℕ → FileHeader → FileHeader
set_free id h = record {
  magic = h.magic;
  version = h.version;
  size = h.size;
  page_count = h.page_count;
  root_page_id = h.root_page_id;
  free_list_head = id;
}

abbrev with_free : ℕ → Pager → Pager
with_free id p = record p { header = set_free id p.header }

with_free-IsSound : (id : ℕ) (p : Pager) → IsSound p → IsSound (with_free id p)
with_free-IsSound id p s = record {
  full = s.full;
  on_disk = s.on_disk;
  healthy = s.healthy;
  magic = s.magic;
  counted = s.counted;
}

with_free-page_at : (id : ℕ) (p : Pager) (j : ℕ) → page_at (with_free id p) j ≡ page_at p j
unfolding page_at
with_free-page_at id p j = refl

-- A page that says which page is free after it.
free_node : ℕ → Bytes
free_node next = pad_page (put_uint32 next)

length-free_node : (next : ℕ) → length (free_node next) ≡ page_size
unfolding free_node
length-free_node next = length-pad_page (put_uint32 next) (omega (arith, length-put_uint32 next))

uint32-free_node : (next : ℕ) → next < 4294967296 → uint32 (free_node next) ≡ next
unfolding free_node pad_page
uint32-free_node next h =
    uint32-put_uint32 next (replicate (page_size - length (put_uint32 next)) 0) h

-- What `FreePage` leaves before the header is written.
module _ (id : ℕ) (p : Pager) (s : IsSound p) (pos : 0 < id) where
  freed : Pager
  freed = with_free id (store_page id (free_node p.header.free_list_head) p)

  freed-IsSound : IsSound freed
  unfolding freed
  freed-IsSound =
      with_free-IsSound id (store_page id (free_node p.header.free_list_head) p)
        (store_page-OnePage p id (free_node p.header.free_list_head) s
          (length-free_node p.header.free_list_head)).sound

  free-eq : free_page id p ≡ write_header freed
  unfolding free_page freed free_node
  free-eq = ground (arith, pos)

  freed-pages :
      (j : ℕ)
      → page_at freed j ≡ (if id == j then free_node p.header.free_list_head else page_at p j)
  unfolding freed
  freed-pages j =
      with_free-page_at id (store_page id (free_node p.header.free_list_head) p) j
      ∙ (store_page-OnePage p id (free_node p.header.free_list_head) s
            (length-free_node p.header.free_list_head)).pages
          j

-- What `AllocatePage` leaves of a page read from the free list before the header is written.
module _ (id : ℕ) (q r : Pager) (page : Bytes) (read : read_page id q ≡ (ok page, r))
    (head : q.header.free_list_head ≡ id) (pos : 0 < id) (same : r.header ≡ q.header) where
  taken : Pager
  taken = store_page id zero_page (with_free (uint32 page) r)

  allocate-eq : allocate_page q ≡ and_then (write_header taken) (λ x w. (ok id, w))
  unfolding allocate_page taken
  allocate-eq = ground (arith, read, head, pos, same)

here : (id : ℕ) (a b : Bytes) → (if id == id then a else b) ≡ a
here id a b = ground arith

elsewhere : (id j : ℕ) → j ≢ id → (a b : Bytes) → (if id == j then a else b) ≡ b
elsewhere id j ne a b = ground (arith, ne)

-- Two pagers that differ in page `id` only.
pub record Recycled (p r : Pager) (id : ℕ) : Type 0 where
  pub header : r.header ≡ p.header
  pub pages : (j : ℕ) → 0 < j → j ≢ id → page_at r j ≡ page_at p j
  pub blank : page_at r id ≡ zero_page
  pub sound : IsSound r

-- On a sound pager, after `FreePage` of a page of the database, not the header's, `AllocatePage`
-- returns that page: both succeed, the header with its free list is as it was, the page is
-- zeros, every other page is the same, and the pager is sound. The head of the free list fits in
-- 32 bits.
pub allocate_page-free_page :
    (id : ℕ) {p : Pager}
    → IsSound p
    → 0 < id
    → id < p.header.page_count
    → p.header.free_list_head < 4294967296
    → (q : Pager) × (r : Pager) × (free_page id p ≡ (ok tt, q))
      × (allocate_page q ≡ (ok id, r))
      × Recycled p r id
unfolding freed taken
allocate_page-free_page id {p} s pos below u32 =
    let (q, e, first) = write_header_lem (freed-IsSound id p s pos) in
    let (r, read, same) =
      read_page_lem id first.sound (omega (arith, ap (λ h. h.page_count) first.header)) in
    let next : uint32 (page_at q id) ≡ p.header.free_list_head =
      ap uint32 (
        first.pages id pos
        ∙ freed-pages id p s pos id
        ∙ here id (free_node p.header.free_list_head) (page_at p id))
      ∙ uint32-free_node p.header.free_list_head u32 in
    let one =
      store_page-OnePage (with_free (uint32 (page_at q id)) r) id zero_page
        (with_free-IsSound (uint32 (page_at q id)) r same.sound) length-zero_page in
    let (w, e', last) = write_header_lem one.sound in
    (
      q,
      w,
      free-eq id p s pos ∙ e,
      allocate-eq id q r (page_at q id) read (ap (λ h. h.free_list_head) first.header) pos
            same.header
          ∙ ap (λ x. and_then x (λ y v. (ok id, v))) e',
      record {
        header =
            last.header
            ∙ ap (set_free (uint32 (page_at q id))) (same.header ∙ first.header)
            ∙ ap (λ n. set_free n p.header) next;
        pages = λ j p' ne.
            last.pages j p'
            ∙ one.pages j
            ∙ elsewhere id j ne zero_page (page_at (with_free (uint32 (page_at q id)) r) j)
            ∙ with_free-page_at (uint32 (page_at q id)) r j
            ∙ same.pages j
            ∙ first.pages j p'
            ∙ freed-pages id p s pos j
            ∙ elsewhere id j ne (free_node p.header.free_list_head) (page_at p j);
        blank =
            last.pages id pos
            ∙ one.pages id
            ∙ here id zero_page (page_at (with_free (uint32 (page_at q id)) r) id);
        sound = last.sound;
      },
    )
