-- ===== src/Storage/Engine.antt =====
-- internal/storage/engine.go: the engine, over the tree on the pager. The clock is an argument: `now`
-- is what `time.Now` returns, in nanoseconds since Go's zero time. One operation runs at a time, as
-- the engine's lock sees to (the pager's buffer is written under it).
pub mod Deadlines
pub mod Reads
pub mod Writes
pub mod Restart
pub mod Lifetimes
pub mod Figures
pub mod Runs
pub mod Tests
use rawth.Base.{
  ℕ, zero, suc, ◌+◌, ◌-◌, ◌==◌, ◌*◌, ◌%◌, ◌^◌, Bool, true, false, not, List, [], ◌∷◌, Option, none,
  some, ltb, if◌then◌else◌, Outcome, ok, err, panic, stuck,
}
use rawth.Bytes.{Bytes, equal_bytes}
use rawth.Storage.Fault.{Fault, key_not_found}
use rawth.Storage.Monad.{M, and_then, ◌>>=◌, ◌>>◌, pure, lift, raise, gets, modify}
use rawth.Storage.Disk.{File}
use rawth.Storage.Pager
use rawth.Storage.Pager.{Pager, open_pager}
use rawth.Storage.PageStore.{page_store}
use rawth.Storage.Tree

-- A Go map from keys to the times after which they are dead.
abbrev pub Ttls : Type 0
Ttls = List (Bytes × ℕ)

unfoldable pub expiry_of : Bytes → Ttls → Option ℕ
expiry_of key [] = none
expiry_of key ((k, t) ∷ ttls) = if equal_bytes k key then some t else expiry_of key ttls

unfoldable pub drop_ttl : Bytes → Ttls → Ttls
drop_ttl key [] = []
drop_ttl key ((k, t) ∷ ttls) =
    let rest = drop_ttl key ttls in if equal_bytes k key then rest else (k, t) ∷ rest

abbrev pub set_ttl : Bytes → ℕ → Ttls → Ttls
set_ttl key t ttls = (key, t) ∷ drop_ttl key ttls

pub record Engine : Type 0 where
  pub db : Pager
  pub path : Bytes
  pub ttls : Ttls
  pub put_count : ℕ
  pub get_count : ℕ
  pub delete_count : ℕ
  pub start_time : ℕ

-- A call of the tree or of the pager.
abbrev pub set_db : Engine → Pager → Engine
set_db e p = record e { db = p }

abbrev pub with_db : {A : Type 0} → Engine → Outcome Fault A × Pager → Outcome Fault A × Engine
with_db e (r, p) = (r, set_db e p)

abbrev pub on_db : {A : Type 0} → M Pager A → M Engine A
on_db m e = with_db e (m e.db)

abbrev forget_error : {S : Type 0} → Outcome Fault (Unit {0}) × S → Outcome Fault (Unit {0}) × S
forget_error (err x, s) = (ok tt, s)
forget_error (ok a, s) = (ok a, s)
forget_error (panic, s) = (panic, s)
forget_error (stuck, s) = (stuck, s)

-- A call whose error is not looked at.
abbrev pub ignoring : {S : Type 0} → M S (Unit {0}) → M S (Unit {0})
ignoring m s = forget_error (m s)

-- `now.Add(time.Duration(seconds) * time.Second)`: the product of nanoseconds has 64 bits and a sign.
unfoldable pub deadline : ℕ → ℕ → ℕ
deadline now seconds =
    let w = (seconds * 1000000000) % 2 ^ 64 in
    if ltb w (2 ^ 63) then now + w else now - (2 ^ 64 - w)

-- `now.After(expiry)`, for a key that has one
abbrev pub is_dead : ℕ → Option ℕ → Bool
is_dead now none = false
is_dead now (some expiry) = ltb expiry now

abbrev pub note_put : ℕ → Bytes → ℕ → Engine → Engine
note_put now key seconds e = record e {
  ttls = if ltb 0 seconds then set_ttl key (deadline now seconds) e.ttls else drop_ttl key e.ttls;
  put_count = (e.put_count + 1) % 2 ^ 64;
}

-- `seconds` is `ttlSeconds`, zero for one that is not positive.
unfoldable pub put : ℕ → Bytes → Bytes → ℕ → M Engine (Unit {0})
unfolding deadline drop_ttl
put now key value seconds = do
  on_db (Tree.put page_store key value)
  modify (note_put now key seconds)

abbrev pub note_delete : Bytes → Engine → Engine
note_delete key e = record e {
  ttls = drop_ttl key e.ttls;
  delete_count = (e.delete_count + 1) % 2 ^ 64;
}

abbrev pub drop_deadline : Bytes → Engine → Engine
drop_deadline key e = record e { ttls = drop_ttl key e.ttls }

abbrev pub count_delete : Engine → Engine
count_delete e = record e { delete_count = (e.delete_count + 1) % 2 ^ 64 }

abbrev pub count_get : Engine → Engine
count_get e = record e { get_count = (e.get_count + 1) % 2 ^ 64 }

-- What `Get` and `Has` do with a key that is dead.
unfoldable pub bury : Bytes → M Engine (Unit {0})
unfolding drop_ttl
bury key = do
  modify (drop_deadline key)
  ignoring (on_db (Tree.delete page_store key))
  modify count_delete

unfoldable pub get : ℕ → Bytes → M Engine Bytes
unfolding bury expiry_of
get now key = do
  expiry ← gets λ (e : Engine). expiry_of key e.ttls
  if is_dead now expiry
      then (do bury key; raise key_not_found)
      else (do modify count_get; on_db (Tree.get page_store key))

unfoldable pub delete : Bytes → M Engine (Unit {0})
unfolding drop_ttl
delete key = do modify (note_delete key); on_db (Tree.delete page_store key)

unfoldable pub has : ℕ → Bytes → M Engine Bool
unfolding bury expiry_of
has now key = do
  expiry ← gets λ (e : Engine). expiry_of key e.ttls
  if is_dead now expiry then (do bury key; pure false) else on_db (Tree.has page_store key)

-- The loop of `Keys`
abbrev pub valid_keys : ℕ → Ttls → List Bytes → List Bytes
valid_keys now ttls [] = []
valid_keys now ttls (k ∷ ks) =
    let rest = valid_keys now ttls ks in if is_dead now (expiry_of k ttls) then rest else k ∷ rest

unfoldable pub keys : ℕ → M Engine (List Bytes)
unfolding expiry_of
keys now = do
  all_keys ← on_db (Tree.keys page_store)
  ttls ← gets λ (e : Engine). e.ttls
  pure (valid_keys now ttls all_keys)

-- `OpenPager` and `NewBPlusTree` on a file that the operating system has opened.
unfoldable pub open_database : File → Outcome Fault (Unit {0}) × Pager
open_database f = and_then (Pager.open_pager f) (λ _. Tree.new_tree page_store)

abbrev pub engine_on : Bytes → ℕ → Pager → Engine
engine_on path now p = record {
  db = p;
  path = path;
  ttls = [];
  put_count = 0;
  get_count = 0;
  delete_count = 0;
  start_time = now;
}

abbrev opened : Bytes → ℕ → Outcome Fault (Unit {0}) × Pager → Outcome Fault Engine
opened path now (ok a, p) = ok (engine_on path now p)
opened path now (err x, p) = err x
opened path now (panic, p) = panic
opened path now (stuck, p) = stuck

-- `OpenEngine`; what a failed start leaves in the file is not modelled.
unfoldable pub open_engine : Bytes → ℕ → File → Outcome Fault Engine
unfolding open_database
open_engine path now f = opened path now (open_database f)

abbrev restarted : Engine → Outcome Fault (Unit {0}) × Pager → Outcome Fault (Unit {0}) × Engine
restarted e (ok a, p) = (ok tt, record e { db = p; ttls = [] })
restarted e (err x, p) = (err x, e)
restarted e (panic, p) = (panic, e)
restarted e (stuck, p) = (stuck, e)

-- `Nuke`. The operating system decides what closing the file returns (`closed`), what its removal
-- returns (`removed`, with `ok` also for a file that is not there), and which file the path then
-- names (`reopened`). After an error the engine's file is closed; what later calls do then is not
-- modelled.
unfoldable pub nuke :
    Outcome Fault (Unit {0}) → Outcome Fault (Unit {0}) → Outcome Fault File → M Engine (Unit {0})
unfolding open_database
nuke closed removed reopened = do
  ignoring (on_db (Pager.close closed))
  lift removed
  f ← lift reopened
  λ e. restarted e (open_database f)

-- `Close`
unfoldable pub close : Outcome Fault (Unit {0}) → M Engine (Unit {0})
close closed = on_db (Pager.close closed)

-- What goes on in spite of an error, with the value so far.
abbrev read_on : {S A B : Type 0} → B → (A → M S B) → Outcome Fault A × S → Outcome Fault B × S
read_on b f (ok a, s) = f a s
read_on b f (err x, s) = (ok b, s)
read_on b f (panic, s) = (panic, s)
read_on b f (stuck, s) = (stuck, s)

abbrev pub or_else : {S A B : Type 0} → B → M S A → (A → M S B) → M S B
or_else b m f s = read_on b f (m s)

-- `Count` with its error dropped: what was counted until then.
unfoldable pub count_until : ℕ → ℕ → ℕ → M Pager ℕ
count_until zero id acc = if id == 0 then pure acc else lift stuck
count_until (suc fuel) id acc =
    let rest = λ (next acc' : ℕ). count_until fuel next acc' in
    if id == 0
    then pure acc
    else or_else acc (page_store.read_node id) (λ n. do
      acc' ← lift (Tree.visit_entries (λ (c : ℕ) k v. ok (c + 1)) n.keys n.values acc)
      rest n.right_ptr acc')

unfoldable pub counted : M Pager ℕ
unfolding count_until
counted = do
  fuel ← gets page_store.page_count
  root ← page_store.root_page
  or_else 0 (Tree.find_leftmost_leaf page_store fuel root) (λ leaf. count_until fuel leaf 0)

pub record EngineStats : Type 0 where
  pub key_count : ℕ
  pub tree_depth : ℕ
  pub page_count : ℕ
  pub file_size : ℕ
  pub put_count : ℕ
  pub get_count : ℕ
  pub delete_count : ℕ
  pub uptime : Bytes
  pub file_path : Bytes

-- `Stats`; `uptime` is what package time writes for the time between two moments, in seconds.
unfoldable pub stats : (ℕ → ℕ → Bytes) → ℕ → M Engine EngineStats
unfolding counted
stats uptime now = do
  keys ← on_db counted
  levels ← on_db (or_else 0 (Tree.depth page_store) pure)
  gets λ (e : Engine). record {
    key_count = keys;
    tree_depth = levels;
    page_count = Pager.page_count e.db;
    file_size = Pager.file_size e.db;
    put_count = e.put_count;
    get_count = e.get_count;
    delete_count = e.delete_count;
    uptime = uptime e.start_time now;
    file_path = e.path;
  }
