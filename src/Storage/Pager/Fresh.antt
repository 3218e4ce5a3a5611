-- ===== src/Storage/Pager/Fresh.antt =====
-- internal/storage/pager.go: `OpenPager` on an empty file.
use rawth.Base.{◌≡◌, refl, [], arith, ok}
use rawth.Storage.Disk.{File, overwrite}
use rawth.Storage.Disk.Slices.{length-overwrite}
use rawth.Storage.Disk.Calls.{write_at_healthy, stat_size_healthy}
use rawth.Storage.Node.{page_size}
use rawth.Storage.Pager.{
  Pager, FileHeader, open_pager, init_new_file, write_header, encode_header, magic_bytes,
  file_version,
}
use rawth.Storage.Pager.Maps.{map_get}
use rawth.Storage.Pager.Pages.{IsSound}
use rawth.Storage.Pager.Writes.{length-encode_header}

abbrev pub empty_file : File
empty_file = record { content = []; faults = [] }

abbrev new_header : FileHeader
new_header = record {
  magic = magic_bytes;
  version = file_version;
  size = page_size;
  page_count = 1;
  root_page_id = 0;
  free_list_head = 0;
}

unfoldable pub new_pager : Pager
new_pager = record {
  file = record { content = overwrite [] 0 (encode_header new_header); faults = [] };
  header = new_header;
  buffer = [];
  dirty = [];
}

pub open_pager-empty : open_pager empty_file ≡ (ok tt, new_pager)
unfolding open_pager init_new_file write_header new_pager
open_pager-empty = rw (
  stat_size_healthy empty_file refl,
  write_at_healthy empty_file refl (encode_header new_header) 0,
)

pub new_pager-IsSound : IsSound new_pager
unfolding new_pager map_get
new_pager-IsSound = record {
  full = λ j b e. ground (arith, e);
  on_disk = omega (
    arith,
    length-overwrite [] (encode_header new_header) 0,
    length-encode_header new_header refl,
  );
  healthy = refl;
  magic = refl;
  counted = omega arith;
}
