-- ===== src/Storage/Engine/Lifetimes.antt =====
-- internal/storage/engine.go: the deadlines that `Put` computes, and lifetimes that are too long for them.
use rawth.Base.{
  ℕ, ◌+◌, ◌*◌, ◌%◌, ◌^◌, ◌≤◌, ◌<◌, ◌≡◌, ap, ◌∙◌, List, Option, none, length, if◌then◌else◌, arith,
  ok, err,
}
use rawth.Bytes.{Bytes, equal_bytes}
use rawth.Storage.Fault.{Fault, key_not_found}
use rawth.Storage.Node.{max_key_size, max_value_size}
use rawth.Storage.Node.View.{Entry}
use rawth.Storage.Entries.{upsert}
use rawth.Storage.Tree.TwoPages.{IsOverflow}
use rawth.Storage.Engine.{Engine, deadline, put, get}
use rawth.Storage.Engine.Deadlines.{equal_bytes_refl}
use rawth.Storage.Tree.Search.{found_or_not}
use rawth.Storage.Engine.Reads.{Contains, live_get}
use rawth.Storage.Engine.Writes.{lasting, EnginePuts, kept, refused, put_until}

-- When the nanoseconds of a lifetime are below 2 ^ 63, the deadline that `Put` computes is the
-- time of the call and the lifetime after it.
pub deadline_fits :
    (now seconds : ℕ)
    → seconds * 1000000000 < 2 ^ 63
    → deadline now seconds ≡ now + seconds * 1000000000
unfolding deadline
deadline_fits now seconds h = ground (arith, h)

deadline_over :
    (now seconds : ℕ)
    → 2 ^ 63 ≤ (seconds * 1000000000) % 2 ^ 64
    → 2 ^ 63 ≤ now
    → deadline now seconds < now
unfolding deadline
deadline_over now seconds over early = ground (arith, over, early)

-- A value that no `Get` returns from the moment that it is put.
pub data LostAtOnce (now later : ℕ) (key value : Bytes) (seconds : ℕ) (e : Engine) : Type 0 where
  lost :
      (u w : Engine)
      → put now key value seconds e ≡ (ok tt, u)
      → get later key u ≡ (err key_not_found, w)
      → LostAtOnce now later key value seconds e
  not_put :
      (u : Engine) (x : Fault)
      → put now key value seconds e ≡ (err x, u)
      → IsOverflow x
      → LostAtOnce now later key value seconds e

-- With a key and a value within their limits, page numbers left, a lifetime whose nanoseconds are
-- negative as a signed number of 64 bits, and a clock at least 2 ^ 63 nanoseconds after Go's zero
-- time: `Put` succeeds and no later `Get` returns the value, or `Put` returns an overflow error.
pub put_overlong :
    (now later : ℕ) (key value : Bytes) (seconds : ℕ) (e : Engine) (es : List Entry)
    → 0 < length key
    → length key ≤ max_key_size
    → length value ≤ max_value_size
    → 2 ^ 63 ≤ (seconds * 1000000000) % 2 ^ 64
    → 2 ^ 63 ≤ now
    → now ≤ later
    → Contains e es
    → e.db.header.page_count + e.db.header.page_count + 1 < 4294967296
    → LostAtOnce now later key value seconds e
put_overlong now later key value seconds e es not_empty short_key short_value over early h r room =
    go (put_until now key value seconds e es not_empty short_key short_value r room)
  where
    positive : 0 < seconds
    positive = ground (arith, over)

    gone_by :
        (x : Option Bytes)
        → (if equal_bytes key key then lasting now seconds later value else x) ≡ none
    gone_by x =
        rw (equal_bytes_refl key)
          (ground (arith, positive, deadline_over now seconds over early, h))

    go : EnginePuts now key value seconds e es → LostAtOnce now later key value seconds e
    go (kept u q rep shows) =
        let (w, f, same) = live_get later u (upsert key value es) rep key in
        lost u w q (f ∙ ap (λ o. (found_or_not o, w)) (shows later key ∙ gone_by _))
    go (refused u x q over_page same) = not_put u x q over_page
