-- ===== src/Storage/Pager.antt =====
-- internal/storage/pager.go: pages of a file, a buffer over them, the file header, a free list.
-- A Go map is an association list with each key once. The methods hold the pager's lock
-- throughout, so each of them is one step.
pub mod Maps
pub mod Pages
pub mod Writes
pub mod Flush
pub mod Fresh
pub mod Recycle
use rawth.Base.{
  ℕ, zero, suc, ◌+◌, ◌-◌, ◌*◌, ◌%◌, Bool, true, false, List, [], ◌∷◌, ◌++◌, Option, none, some,
  length, take, drop, get_or, replicate, ltb, leb, ◌==◌, if◌then◌else◌, Outcome, ok, err,
}
use rawth.Bytes.{Bytes, put_uint32, uint32, equal_bytes}
use rawth.Storage.Fault.{
  Fault, page_out_of_range, wrong_page_length, free_header_page, bad_magic, unsupported_version,
  unexpected_page_size,
}
use rawth.Storage.Monad.{M, pure, raise, gets, modify, ◌>>=◌, ◌>>◌}
use rawth.Storage.Disk.{File, read_at, write_at, sync, stat_size}
use rawth.Storage.Node.{page_size, pad_page}
use Maps.{PageMap, map_get, map_put, map_size, set_add}

-- 'R', 'A', 'W', 'T'
abbrev pub magic_bytes : Bytes
magic_bytes = 82 ∷ 65 ∷ 87 ∷ 84 ∷ []

abbrev pub file_version : ℕ
file_version = 1

abbrev pub max_buffer_pages : ℕ
max_buffer_pages = 256

-- `size` is the field `PageSize`
pub record FileHeader : Type 0 where
  pub magic : Bytes
  pub version : ℕ
  pub size : ℕ
  pub page_count : ℕ
  pub root_page_id : ℕ
  pub free_list_head : ℕ

pub record Pager : Type 0 where
  pub file : File
  pub header : FileHeader
  pub buffer : PageMap
  pub dirty : List ℕ

abbrev pub set_file : Pager → File → Pager
set_file p f = record p { file = f }

abbrev pub with_file : {A : Type 0} → Pager → Outcome Fault A × File → Outcome Fault A × Pager
with_file p (r, f) = (r, set_file p f)

-- A call on the file.
abbrev pub on_file : {A : Type 0} → M File A → M Pager A
on_file m p = with_file p (m p.file)

abbrev pub offset_of : ℕ → ℕ
offset_of id = id * page_size

unfoldable pub zero_page : Bytes
zero_page = replicate page_size 0

-- A fresh buffer of `page_size` bytes with `bytes` copied into it.
unfoldable pub copy_page : Bytes → Bytes
copy_page bytes = take page_size (bytes ++ replicate (page_size - length bytes) 0)

abbrev pub store_page : ℕ → Bytes → Pager → Pager
store_page id page p = record p { buffer = map_put id page p.buffer; dirty = set_add id p.dirty }

unfoldable pub encode_header : FileHeader → Bytes
unfolding pad_page
encode_header h = pad_page (
    h.magic
    ++ (put_uint32 h.version
        ++ (put_uint32 h.size
            ++ (put_uint32 h.page_count
                ++ (put_uint32 h.root_page_id ++ put_uint32 h.free_list_head)))))

unfoldable pub write_header : M Pager (Unit {0})
write_header p = on_file (write_at (encode_header p.header) 0) p

unfoldable pub init_new_file : M Pager (Unit {0})
unfolding write_header
init_new_file = do
  modify λ p. record p {
    header = record {
      magic = magic_bytes;
      version = file_version;
      size = page_size;
      page_count = 1;
      root_page_id = 0;
      free_list_head = 0;
    };
  }
  write_header

-- The fields are read after the magic bytes are checked, the version and the size checked last.
unfoldable pub read_header : M Pager (Unit {0})
read_header = do
  buf ← on_file (read_at 0 page_size)
  modify λ p. let h : FileHeader = p.header in record p { header = record h { magic = take 4 buf } }
  if equal_bytes (take 4 buf) magic_bytes
      then (do
        modify λ p. record p {
          header = record {
            magic = take 4 buf;
            version = uint32 (drop 4 buf);
            size = uint32 (drop 8 buf);
            page_count = uint32 (drop 12 buf);
            root_page_id = uint32 (drop 16 buf);
            free_list_head = uint32 (drop 20 buf);
          };
        }
        if uint32 (drop 4 buf) == file_version
            then (if uint32 (drop 8 buf) == page_size
                then pure tt
                else raise (unexpected_page_size (uint32 (drop 8 buf))))
            else raise (unsupported_version (uint32 (drop 4 buf))))
      else raise bad_magic

abbrev blank_header : FileHeader
blank_header = record {
  magic = 0 ∷ 0 ∷ 0 ∷ 0 ∷ [];
  version = 0;
  size = 0;
  page_count = 0;
  root_page_id = 0;
  free_list_head = 0;
}

-- `OpenPager` on a file that the operating system has opened; the pager is the caller's if the
-- result is `ok`.
unfoldable pub open_pager : File → Outcome Fault (Unit {0}) × Pager
unfolding init_new_file read_header
open_pager f =
    (do size ← on_file stat_size; if size == 0 then init_new_file else read_header)
      (record { file = f; header = blank_header; buffer = []; dirty = [] })

-- The buffer keeps a copy while it has room.
unfoldable pub remember : ℕ → Bytes → Pager → Pager
unfolding copy_page
remember id page q =
    if ltb (map_size q.buffer) max_buffer_pages
    then record q { buffer = map_put id (copy_page page) q.buffer }
    else q

-- A miss goes to the file, and the page is kept if the buffer has room.
unfoldable pub read_page : ℕ → M Pager Bytes
unfolding copy_page remember
read_page id p =
    if leb p.header.page_count id
    then (err (page_out_of_range id), p)
    else elim (map_get id p.buffer) [
      | some page ↦ (ok (copy_page page), p)
      | none ↦
          (do
            page ← on_file (read_at (offset_of id) page_size)
            modify (remember id page)
            pure page)
            p
    ]

-- Reuses the head of the free list if there is one; else appends a page to the file.
unfoldable pub allocate_page : M Pager ℕ
unfolding read_page write_header
allocate_page p =
    let id = p.header.free_list_head in
    let fresh = p.header.page_count in
    let h : FileHeader = p.header in
    if id == 0
    then (do
      modify λ q. record q { header = record h { page_count = (fresh + 1) % 4294967296 } }
      on_file (write_at zero_page (offset_of fresh))
      modify (store_page fresh zero_page)
      write_header
      pure fresh)
        p
    else (do
      page ← read_page id
      modify λ q. record q { header = record h { free_list_head = uint32 page } }
      modify (store_page id zero_page)
      write_header
      pure id)
        p

unfoldable pub free_page : ℕ → M Pager (Unit {0})
unfolding pad_page write_header
free_page id p =
    let h : FileHeader = p.header in
    if id == 0
    then (err free_header_page, p)
    else (do
      modify (store_page id (pad_page (put_uint32 h.free_list_head)))
      modify λ q. record q { header = record h { free_list_head = id } }
      write_header)
        p

unfoldable pub write_page : ℕ → Bytes → M Pager (Unit {0})
unfolding copy_page
write_page id page p =
    if length page == page_size
    then (ok tt, store_page id (copy_page page) p)
    else (err (wrong_page_length (length page)), p)

-- The loop of `Flush` over the dirty pages, in the order of the list (Go's order is unspecified).
unfoldable pub flush_pages : List ℕ → M Pager (Unit {0})
flush_pages [] p = (ok tt, p)
flush_pages (id ∷ ids) p = elim (map_get id p.buffer) [
  | none ↦ flush_pages ids p
  | some page ↦ (on_file (write_at page (offset_of id)) >> flush_pages ids) p
]

unfoldable pub flush : M Pager (Unit {0})
unfolding flush_pages
flush p = (do flush_pages p.dirty; modify λ q. record q { dirty = [] }; on_file sync) p

unfoldable pub set_root_page : ℕ → M Pager (Unit {0})
unfolding write_header
set_root_page id p =
    let h : FileHeader = p.header in
    write_header (record p { header = record h { root_page_id = id } })

unfoldable pub root_page : M Pager ℕ
root_page p = (ok p.header.root_page_id, p)

unfoldable pub page_count : Pager → ℕ
page_count p = p.header.page_count

unfoldable pub file_size : Pager → ℕ
file_size p = p.header.page_count * page_size

-- `Close`; `closed` is what closing the file returns, which the operating system decides.
unfoldable pub close : Outcome Fault (Unit {0}) → M Pager (Unit {0})
unfolding flush
close closed = do flush; λ p. (closed, p)
