-- ===== src/Storage/Pager/Pages.antt =====
-- internal/storage/pager.go: what each page of a database holds, and `ReadPage` on a file that does
-- not fail.
use rawth.Base.{
  ℕ, ◌+◌, ◌≤◌, ◌<◌, ◌≡◌, refl, ◌∙◌, [], none, some, length, ltb, ◌==◌, if◌then◌else◌, arith,
  take_all, take-append_le, Option-cases, inl, inr, Bool-cases, ok,
}
use rawth.Bytes.{Bytes}
use rawth.Storage.Disk.{slice}
use rawth.Storage.Disk.Slices.{length-slice}
use rawth.Storage.Disk.Calls.{read_at_healthy}
use rawth.Storage.Node.{page_size}
use rawth.Storage.Pager.{Pager, offset_of, copy_page, read_page, max_buffer_pages, remember}
use rawth.Storage.Pager.Maps.{PageMap, map_get, map_put, map_size, map_get-map_put}

-- The buffered bytes if there are any, else those on the file.
unfoldable pub page_at : Pager → ℕ → Bytes
page_at p id = elim (map_get id p.buffer) [
  | some page ↦ page
  | none ↦ slice p.file.content (offset_of id) page_size
]

-- Buffered pages are whole, every page has its place on the file, and no call will fail.
pub record IsSound (p : Pager) : Type 0 where
  pub full : (j : ℕ) (b : Bytes) → map_get j p.buffer ≡ some b → length b ≡ page_size
  pub on_disk : offset_of p.header.page_count ≤ length p.file.content
  pub healthy : p.file.faults ≡ []
  pub magic : length p.header.magic ≡ 4
  pub counted : 0 < p.header.page_count

pub copy_page-whole : (b : Bytes) → length b ≡ page_size → copy_page b ≡ b
unfolding copy_page
copy_page-whole b h =
    take-append_le page_size b _ (omega arith) ∙ take_all b page_size (omega arith)

module _ (p : Pager) (id : ℕ) where
  page_at-hit : {b : Bytes} → map_get id p.buffer ≡ some b → page_at p id ≡ b
  unfolding page_at
  page_at-hit e = ground (arith, e)

  page_at-miss :
      map_get id p.buffer ≡ none → page_at p id ≡ slice p.file.content (offset_of id) page_size
  unfolding page_at
  page_at-miss e = ground (arith, e)

  in_file : IsSound p → id < p.header.page_count → offset_of id + page_size ≤ length p.file.content
  in_file s h = omega (arith, s.on_disk)

  pub length-page_at : IsSound p → id < p.header.page_count → length (page_at p id) ≡ page_size
  length-page_at s h = elim (Option-cases (map_get id p.buffer)) [
    | inl e ↦ rw (page_at-miss e) (length-slice _ (offset_of id) page_size (in_file s h))
    | inr (b, e) ↦ rw (page_at-hit e) (s.full id b e)
  ]

-- Nothing that a reader of pages can see has changed.
pub record SamePages (p q : Pager) : Type 0 where
  pub header : q.header ≡ p.header
  pub pages : (j : ℕ) → page_at q j ≡ page_at p j
  pub sound : IsSound q

pub full-map_put :
    (id : ℕ) (page : Bytes) (m : PageMap)
    → length page ≡ page_size
    → ((j : ℕ) (b : Bytes) → map_get j m ≡ some b → length b ≡ page_size)
    → (j : ℕ) (b : Bytes) → map_get j (map_put id page m) ≡ some b
    → length b ≡ page_size
full-map_put id page m h full j b e = ground (arith, full j b, map_get-map_put id j page m)

module _ (p : Pager) (s : IsSound p) (id : ℕ) (page : Bytes) (whole : length page ≡ page_size) where
  buffered : Pager
  buffered = record p { buffer = map_put id page p.buffer }

  page_at-buffered : (j : ℕ) → page_at buffered j ≡ (if id == j then page else page_at p j)
  unfolding page_at buffered
  page_at-buffered j = ground (arith, map_get-map_put id j page p.buffer)

  buffered-IsSound : IsSound buffered
  unfolding buffered
  buffered-IsSound = record {
    full = full-map_put id page p.buffer whole s.full;
    on_disk = s.on_disk;
    healthy = s.healthy;
    magic = s.magic;
    counted = s.counted;
  }

  remember-SamePages : page ≡ page_at p id → SamePages p (remember id page p)
  unfolding remember buffered
  remember-SamePages e = elim (Bool-cases (ltb (map_size p.buffer) max_buffer_pages)) [
    | inl room ↦
        rw (room, copy_page-whole page whole)
          (record {
            header = refl;
            pages = λ j. ground (arith, page_at-buffered j, e);
            sound = buffered-IsSound;
          })
    | inr full ↦ rw full (record { header = refl; pages = λ j. refl; sound = s })
  ]

module _ (p : Pager) (s : IsSound p) (id : ℕ) (h : id < p.header.page_count) where
  read_hit : (b : Bytes) → map_get id p.buffer ≡ some b → read_page id p ≡ (ok (page_at p id), p)
  unfolding read_page
  read_hit b e = ground (arith, page_at-hit p id e, copy_page-whole b (s.full id b e))

  read_miss :
      map_get id p.buffer ≡ none
      → read_page id p ≡ (ok (page_at p id), remember id (page_at p id) p)
  unfolding read_page
  read_miss e = ground (
    arith,
    page_at-miss p id e,
    read_at_healthy p.file s.healthy (offset_of id) page_size (in_file p id s h),
  )

-- On a sound pager, `ReadPage` of a page number below the page count returns the page's bytes,
-- buffered or not, and afterwards the header and every page are the same and the pager is sound.
pub read_page_lem :
    (id : ℕ) {p : Pager}
    → IsSound p
    → id < p.header.page_count
    → (q : Pager) × (read_page id p ≡ (ok (page_at p id), q)) × SamePages p q
read_page_lem id {p} s h = elim (Option-cases (map_get id p.buffer)) [
  | inr (b, e) ↦ (p, read_hit p s id h b e, record { header = refl; pages = λ j. refl; sound = s })
  | inl e ↦ (
    remember id (page_at p id) p,
    read_miss p s id h e,
    remember-SamePages p s id (page_at p id) (length-page_at p id s h) refl,
  )
]
