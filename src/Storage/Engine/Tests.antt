-- ===== src/Storage/Engine/Tests.antt =====
-- The engine's theorems on a database of two entries, one of which dies at time 5.
use rawth.Base.{ℕ, ◌^◌, ◌≡◌, refl, inr, List, [], ◌∷◌, none, arith, if◌then◌else◌, ok, err}
use rawth.Bytes.{Bytes, equal_bytes, compare_bytes}
use rawth.Storage.Fault.{key_not_found, sync_failed}
use rawth.Storage.Node.View.{Entry}
use rawth.Storage.Entries.{find}
use rawth.Storage.Pager.Fresh.{empty_file}
use rawth.Storage.Tests.{loaded, db, items, key_a, key_b}
use rawth.Storage.Engine.{Engine, expiry_of, get, keys, delete, nuke}
use rawth.Storage.Engine.Deadlines.{visible}
use rawth.Storage.Engine.Runs.{Timeline, Shows, deletes, call, change, step, nothing, get-Run}
use rawth.Storage.Engine.Reads.{Contains, SameView, live_get, live_keys}
use rawth.Storage.Engine.Writes.{EnginePuts, put_until, delete_shown}
use rawth.Storage.Engine.Restart.{Emptied, nuke_lem}
use rawth.Storage.Engine.Lifetimes.{LostAtOnce, put_overlong}

abbrev pub engine : Engine
engine = record {
  db = db;
  path = [];
  ttls = (key_a, 5) ∷ [];
  put_count = 2;
  get_count = 0;
  delete_count = 0;
  start_time = 0;
}

live_get_example :
    (u : Engine) × (get 9 key_a engine ≡ (err key_not_found, u)) × SameView 9 engine items u
unfolding find expiry_of compare_bytes
live_get_example = live_get 9 engine items loaded.1 key_a

live_keys_example :
    (u : Engine) × (keys 9 engine ≡ (ok (key_b ∷ []), u))
    × Contains u items
    × (u.ttls ≡ (key_a, 5) ∷ [])
unfolding expiry_of compare_bytes
live_keys_example = live_keys 9 engine items loaded.1

put_until_example : EnginePuts 9 key_b (51 ∷ []) 60 engine items
put_until_example =
    put_until 9 key_b (51 ∷ []) 60 engine items (omega arith) (omega arith) (omega arith) loaded.1
      (omega (arith, loaded.2))

delete_shown_example :
    (u : Engine) × (left : List Entry) × (delete key_b engine ≡ (ok tt, u))
    × Contains u left
    × ((later : ℕ) (j : Bytes)
        → find j (visible later u.ttls left)
          ≡ (if equal_bytes key_b j then none else find j (visible later ((key_a, 5) ∷ []) items)))
unfolding find compare_bytes
delete_shown_example = delete_shown key_b engine items loaded.1

nuke_lem_example :
    (u : Engine) × (nuke (err sync_failed) (ok tt) (ok empty_file) engine ≡ (ok tt, u))
    × Emptied engine u
nuke_lem_example = nuke_lem (err sync_failed) engine items (inr (sync_failed, refl)) loaded.1

put_overlong_example : LostAtOnce (2 ^ 63) (2 ^ 63) key_a (51 ∷ []) 9223372037 engine
put_overlong_example =
    put_overlong (2 ^ 63) (2 ^ 63) key_a (51 ∷ []) 9223372037 engine items (omega arith)
      (omega arith) (omega arith) (omega arith) (omega arith) (omega arith) loaded.1
      (omega (arith, loaded.2))

abbrev timeline : Timeline
timeline later j = find j (visible later engine.ttls items)

get-Run_example :
    (v : Engine) × (get 10 key_b (call 10 (deletes key_b) engine).1 ≡ (err key_not_found, v))
    × Shows 10 v (change 10 (deletes key_b) timeline)
unfolding compare_bytes
get-Run_example =
    get-Run 9 10 engine (call 10 (deletes key_b) engine).1 timeline
      (change 10 (deletes key_b) timeline) key_b
      (record { held = items; contains = loaded.1; agree = λ later h j. refl })
      (step 9 10 10 engine _ timeline _ (deletes key_b) (omega arith) tt tt (nothing 10 _ _))
