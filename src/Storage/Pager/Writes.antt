-- ===== src/Storage/Pager/Writes.antt =====
-- internal/storage/pager.go: the methods that change pages or the header, on a file that does not
-- fail.
use rawth.Base.{
  ℕ, ◌+◌, ◌%◌, ◌<◌, ◌≡◌, refl, ◌∙◌, ap, ◌++◌, length, ◌==◌, if◌then◌else◌, arith, length-append,
  length-replicate, ok,
}
use rawth.Bytes.{Bytes, put_uint32}
use rawth.Storage.Monad.{and_then}
use rawth.Storage.Disk.{overwrite}
use rawth.Storage.Disk.Slices.{slice-overwrite_before, slice-overwrite_after, length-overwrite}
use rawth.Storage.Disk.Calls.{write_at_healthy}
use rawth.Storage.Node.{page_size}
use rawth.Storage.Node.RoundTrip.{length-pad_page}
use rawth.Storage.Pager.{
  Pager, FileHeader, offset_of, write_page, allocate_page, set_root_page, write_header,
  encode_header, store_page, zero_page,
}
use rawth.Storage.Pager.Maps.{map_put, set_add, map_get-map_put}
use rawth.Storage.Pager.Pages.{page_at, IsSound, copy_page-whole, full-map_put}

-- One page holds new bytes.
pub record OnePage (p q : Pager) (id : ℕ) (page : Bytes) : Type 0 where
  pub header : q.header ≡ p.header
  pub pages : (j : ℕ) → page_at q j ≡ (if id == j then page else page_at p j)
  pub sound : IsSound q

pub store_page-OnePage :
    (p : Pager) (id : ℕ) (page : Bytes)
    → IsSound p
    → length page ≡ page_size
    → OnePage p (store_page id page p) id page
unfolding page_at
store_page-OnePage p id page s h = record {
  header = refl;
  pages = λ j. ground (arith, map_get-map_put id j page p.buffer);
  sound = record {
    full = full-map_put id page p.buffer h s.full;
    on_disk = s.on_disk;
    healthy = s.healthy;
    magic = s.magic;
    counted = s.counted;
  };
}

-- On a sound pager, `WritePage` of a page of the right length succeeds; afterwards that page has
-- these bytes, every other page and the header are the same, and the pager is sound.
pub write_page_lem :
    (id : ℕ) (page : Bytes) {p : Pager}
    → IsSound p
    → length page ≡ page_size
    → (q : Pager) × (write_page id page p ≡ (ok tt, q)) × OnePage p q id page
unfolding write_page
write_page_lem id page {p} s h =
    (store_page id page p, ground (arith, copy_page-whole page h), store_page-OnePage p id page s h)

pub length-encode_header :
    (h : FileHeader) → length h.magic ≡ 4 → length (encode_header h) ≡ page_size
unfolding encode_header put_uint32
length-encode_header h e =
    length-pad_page (h.magic ++ rest) (omega (arith, length-append h.magic rest))
  where
    rest : Bytes
    rest =
        put_uint32 h.version
        ++ (put_uint32 h.size
            ++ (put_uint32 h.page_count
                ++ (put_uint32 h.root_page_id ++ put_uint32 h.free_list_head)))

-- The header on the file is replaced; every page behind it stays.
pub record SameBehind (p q : Pager) : Type 0 where
  pub header : q.header ≡ p.header
  pub pages : (j : ℕ) → 0 < j → page_at q j ≡ page_at p j
  pub sound : IsSound q

module _ (p : Pager) (s : IsSound p) where
  header_written : Pager
  header_written = record p {
    file = record {
      content = overwrite p.file.content 0 (encode_header p.header);
      faults = p.file.faults;
    };
  }

  write_header-eq : write_header p ≡ (ok tt, header_written)
  unfolding write_header header_written
  write_header-eq = ground (arith, write_at_healthy p.file s.healthy (encode_header p.header) 0)

  header_written-SameBehind : SameBehind p header_written
  unfolding header_written page_at
  header_written-SameBehind = record {
    header = refl;
    pages = λ j h. ground (
      arith,
      slice-overwrite_after p.file.content (encode_header p.header) 0 (offset_of j) page_size
          (omega (arith, length-encode_header p.header s.magic)),
    );
    sound = record {
      full = s.full;
      on_disk =
          omega (arith, s.on_disk, length-overwrite p.file.content (encode_header p.header) 0);
      healthy = s.healthy;
      magic = s.magic;
      counted = s.counted;
    };
  }

pub write_header_lem :
    {p : Pager} → IsSound p → (q : Pager) × (write_header p ≡ (ok tt, q)) × SameBehind p q
write_header_lem {p} s = (header_written p s, write_header-eq p s, header_written-SameBehind p s)

pub length-zero_page : length zero_page ≡ page_size
unfolding zero_page
length-zero_page = length-replicate {A = ℕ} page_size 0

-- A page that no one had is handed out, and all others stay.
pub record Allocated (p q : Pager) (id : ℕ) : Type 0 where
  pub taken : id ≡ p.header.page_count
  pub count : q.header.page_count ≡ id + 1
  pub root : q.header.root_page_id ≡ p.header.root_page_id
  pub free : q.header.free_list_head ≡ 0
  pub pages : (j : ℕ) → 0 < j → j < id → page_at q j ≡ page_at p j
  pub blank : page_at q id ≡ zero_page
  pub sound : IsSound q

module _ (p : Pager) (s : IsSound p) (room : p.header.page_count + 1 < 4294967296) where
  -- The pager when the page has been appended, before the header is written.
  appended : Pager
  appended = record p {
    file = record {
      content = overwrite p.file.content (offset_of p.header.page_count) zero_page;
      faults = p.file.faults;
    };
    header = record {
      magic = p.header.magic;
      version = p.header.version;
      size = p.header.size;
      page_count = (p.header.page_count + 1) % 4294967296;
      root_page_id = p.header.root_page_id;
      free_list_head = p.header.free_list_head;
    };
    buffer = map_put p.header.page_count zero_page p.buffer;
    dirty = set_add p.header.page_count p.dirty;
  }

  appended-IsSound : IsSound appended
  unfolding appended
  appended-IsSound = record {
    full = full-map_put p.header.page_count zero_page p.buffer length-zero_page s.full;
    on_disk = omega (
      arith,
      length-zero_page,
      length-overwrite p.file.content zero_page (offset_of p.header.page_count),
    );
    healthy = s.healthy;
    magic = s.magic;
    counted = omega arith;
  }

  appended-pages : (j : ℕ) → j < p.header.page_count → page_at appended j ≡ page_at p j
  unfolding appended page_at
  appended-pages j h = ground (
    arith,
    map_get-map_put p.header.page_count j zero_page p.buffer,
    slice-overwrite_before p.file.content zero_page (offset_of p.header.page_count) (offset_of j)
        page_size (omega arith) (omega (arith, s.on_disk)),
  )

  appended-blank : page_at appended p.header.page_count ≡ zero_page
  unfolding appended page_at
  appended-blank =
      ground (arith, map_get-map_put p.header.page_count p.header.page_count zero_page p.buffer)

  allocate-eq :
      p.header.free_list_head ≡ 0
      → allocate_page p ≡ and_then (write_header appended) (λ _ q. (ok p.header.page_count, q))
  unfolding allocate_page appended
  allocate-eq free =
      ground (arith, write_at_healthy p.file s.healthy zero_page (offset_of p.header.page_count))

-- On a sound pager with an empty free list and a page number left, `AllocatePage` returns the page
-- number behind the last one and raises the count by one; the new page is zeros, the pages between
-- the header's and it and the root are the same, and the pager is sound.
pub allocate_page_lem :
    {p : Pager}
    → IsSound p
    → p.header.free_list_head ≡ 0
    → p.header.page_count + 1 < 4294967296
    → (q : Pager) × (allocate_page p ≡ (ok p.header.page_count, q))
      × Allocated p q p.header.page_count
unfolding appended
allocate_page_lem {p} s free room =
    let (q, e, same) = write_header_lem (appended-IsSound p s room) in
    (
      q,
      allocate-eq p s room free ∙ rw e,
      record {
        taken = refl;
        count = ap (λ h. h.page_count) same.header ∙ omega arith;
        root = ap (λ h. h.root_page_id) same.header;
        free = ap (λ h. h.free_list_head) same.header ∙ free;
        pages = λ j pos h. same.pages j pos ∙ appended-pages p s room j h;
        blank = same.pages _ s.counted ∙ appended-blank p s room;
        sound = same.sound;
      },
    )

pub record NewRoot (p q : Pager) (id : ℕ) : Type 0 where
  pub count : q.header.page_count ≡ p.header.page_count
  pub root : q.header.root_page_id ≡ id
  pub free : q.header.free_list_head ≡ p.header.free_list_head
  pub pages : (j : ℕ) → 0 < j → page_at q j ≡ page_at p j
  pub sound : IsSound q

rooted : Pager → ℕ → Pager
rooted p id = record p {
  header = record {
    magic = p.header.magic;
    version = p.header.version;
    size = p.header.size;
    page_count = p.header.page_count;
    root_page_id = id;
    free_list_head = p.header.free_list_head;
  };
}

rooted-IsSound : {p : Pager} (id : ℕ) → IsSound p → IsSound (rooted p id)
unfolding rooted
rooted-IsSound id s = record {
  full = s.full;
  on_disk = s.on_disk;
  healthy = s.healthy;
  magic = s.magic;
  counted = s.counted;
}

-- On a sound pager, `SetRootPage` succeeds and sets the root; the page count, the free list and
-- every page but the header's are the same, and the pager is sound.
pub set_root_page_lem :
    (id : ℕ) {p : Pager}
    → IsSound p
    → (q : Pager) × (set_root_page id p ≡ (ok tt, q)) × NewRoot p q id
unfolding set_root_page rooted page_at
set_root_page_lem id {p} s =
    let (q, e, same) = write_header_lem (rooted-IsSound id s) in
    (
      q,
      e,
      record {
        count = ap (λ h. h.page_count) same.header;
        root = ap (λ h. h.root_page_id) same.header;
        free = ap (λ h. h.free_list_head) same.header;
        pages = same.pages;
        sound = same.sound;
      },
    )
