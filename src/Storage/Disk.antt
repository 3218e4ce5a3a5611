-- ===== src/Storage/Disk.antt =====
-- The database file, as internal/storage/pager.go uses it: Go's `os.File` with `ReadAt`, `WriteAt`,
-- `Sync` and `Stat`. A call can fail at any time: `faults` says what the next calls do, `none` for
-- a call that goes through and `some n` for one that fails (a write after its first `n` bytes).
-- Behind the end of the list no call fails.
pub mod Slices
pub mod Calls
use rawth.Base.{
  ℕ, ◌+◌, ◌-◌, List, [], ◌∷◌, ◌++◌, Option, none, some, length, take, drop, replicate, ltb,
  if◌then◌else◌, Outcome, ok, err,
}
use rawth.Bytes.{Bytes}
use rawth.Storage.Fault.{Fault, read_failed, write_failed, sync_failed}

pub record File : Type 0 where
  pub content : Bytes
  pub faults : List (Option ℕ)

-- What the next call does, and what is left.
abbrev pub next_fault : List (Option ℕ) → Option ℕ
next_fault [] = none
next_fault (f ∷ fs) = f

abbrev pub later_faults : List (Option ℕ) → List (Option ℕ)
later_faults [] = []
later_faults (f ∷ fs) = fs

-- Writes `bytes` at `offset`; a gap behind the old end reads as zeros.
unfoldable pub overwrite : Bytes → ℕ → Bytes → Bytes
overwrite content offset bytes =
    take offset (content ++ replicate (offset - length content) 0)
    ++ (bytes ++ drop (offset + length bytes) content)

unfoldable pub slice : Bytes → ℕ → ℕ → Bytes
slice content offset size = take size (drop offset content)

-- `ReadAt` of `size` bytes: an error when fewer are there (`io.EOF`).
unfoldable pub read_at : ℕ → ℕ → File → Outcome Fault Bytes × File
read_at offset size f =
    let f' : File = record f { faults = later_faults f.faults } in
    elim (next_fault f.faults) [
      | some n ↦ (err read_failed, f')
      | none ↦
          if ltb (length f.content) (offset + size)
          then (err read_failed, f')
          else (ok (slice f.content offset size), f')
    ]

unfoldable pub write_at : Bytes → ℕ → File → Outcome Fault (Unit {0}) × File
write_at bytes offset f = elim (next_fault f.faults) [
  | some n ↦ (
    err write_failed,
    record { content = overwrite f.content offset (take n bytes); faults = later_faults f.faults },
  )
  | none ↦
      (ok tt, record { content = overwrite f.content offset bytes; faults = later_faults f.faults })
]

unfoldable pub sync : File → Outcome Fault (Unit {0}) × File
sync f =
    let f' : File = record f { faults = later_faults f.faults } in
    elim (next_fault f.faults) [ some n ↦ (err sync_failed, f') | none ↦ (ok tt, f') ]

-- `Stat().Size()`
unfoldable pub stat_size : File → Outcome Fault ℕ × File
stat_size f =
    let f' : File = record f { faults = later_faults f.faults } in
    elim (next_fault f.faults) [
      | some n ↦ (err read_failed, f')
      | none ↦ (ok (length f.content), f')
    ]
