-- ===== src/Storage/Disk/Calls.antt =====
-- Calls on a file that does not fail.
use rawth.Base.{ℕ, ◌+◌, ◌≤◌, ◌≡◌, [], length, arith, ok}
use rawth.Bytes.{Bytes}
use rawth.Storage.Disk.{File, read_at, write_at, sync, stat_size, slice, overwrite, later_faults}

module _ (f : File) (healthy : f.faults ≡ []) where
  unfailing : ◌≡◌ {A = File} (record f { faults = later_faults f.faults }) f
  unfailing = ground arith

  pub read_at_healthy :
      (offset size : ℕ)
      → offset + size ≤ length f.content
      → read_at offset size f ≡ (ok (slice f.content offset size), f)
  unfolding read_at
  read_at_healthy offset size h = ground (arith, unfailing)

  pub write_at_healthy :
      (bytes : Bytes) (offset : ℕ)
      → write_at bytes offset f ≡ (ok tt, record f { content = overwrite f.content offset bytes })
  unfolding write_at
  write_at_healthy bytes offset = ground (arith, unfailing)

  pub sync_healthy : sync f ≡ (ok tt, f)
  unfolding sync
  sync_healthy = ground (arith, unfailing)

  pub stat_size_healthy : stat_size f ≡ (ok (length f.content), f)
  unfolding stat_size
  stat_size_healthy = ground (arith, unfailing)
