-- ===== src/Storage/Engine/Runs.antt =====
-- internal/storage/engine.go: sequences of calls at rising times, against a map from times and keys
-- to values.
use mathlib.Core.Path.{subst}
use rawth.Base.{
  ℕ, ◌+◌, ◌≤◌, ◌<◌, ◌≡◌, sym, ap, ◌∙◌, List, Option, none, length, if◌then◌else◌, arith, Outcome,
  ok, err, panic, stuck,
}
use rawth.Bytes.{Bytes, equal_bytes}
use rawth.Storage.Fault.{Fault}
use rawth.Storage.Node.{max_key_size, max_value_size}
use rawth.Storage.Node.View.{Entry}
use rawth.Storage.Entries.{find, upsert}
use rawth.Storage.Tree.TwoPages.{IsOverflow}
use rawth.Storage.Tree.Search.{found_or_not}
use rawth.Storage.Engine.{Engine, put, get, has, delete, keys}
use rawth.Storage.Engine.Deadlines.{visible}
use rawth.Storage.Engine.Reads.{Contains, SameView, live_get, live_has, live_keys}
use rawth.Storage.Engine.Writes.{EnginePuts, kept, refused, lasting, put_until, delete_shown}

pub data Request : Type 0 where
  puts : Bytes → Bytes → ℕ → Request
  gets checks deletes : Bytes → Request
  lists : Request

-- What a call returns and the engine that it leaves, without the value.
abbrev done : {A : Type 0} → Outcome Fault A → Outcome Fault (Unit {0})
done (ok a) = ok tt
done (err x) = err x
done panic = panic
done stuck = stuck

abbrev outcome : {A : Type 0} → Outcome Fault A × Engine → Outcome Fault (Unit {0}) × Engine
outcome r = (done r.0, r.1)

abbrev pub call : ℕ → Request → Engine → Outcome Fault (Unit {0}) × Engine
call now (puts key value seconds) e = outcome (put now key value seconds e)
call now (gets key) e = outcome (get now key e)
call now (checks key) e = outcome (has now key e)
call now (deletes key) e = outcome (delete key e)
call now lists e = outcome (keys now e)

-- The value of each key at each time.
abbrev pub Timeline : Type 0
Timeline = ℕ → Bytes → Option Bytes

abbrev pub change : ℕ → Request → Timeline → Timeline
change now (puts key value seconds) w later j =
    if equal_bytes key j then lasting now seconds later value else w later j
change now (deletes key) w later j = if equal_bytes key j then none else w later j
change now (gets key) w later j = w later j
change now (checks key) w later j = w later j
change now lists w later j = w later j

-- A call within the limits, with page numbers left.
abbrev pub IsInLimits : Request → Engine → Type 0
IsInLimits (puts key value seconds) e =
    (0 < length key)
    × (length key ≤ max_key_size)
    × (length value ≤ max_value_size)
    × (e.db.header.page_count + e.db.header.page_count + 1 < 4294967296)
IsInLimits r e = Unit

-- No overflow was met.
abbrev NotOverflow : Outcome Fault (Unit {0}) → Type 0
NotOverflow (err x) = IsOverflow x → ⊥
NotOverflow o = Unit

abbrev pub IsRoomy : Request → Outcome Fault (Unit {0}) → Type 0
IsRoomy (puts key value seconds) o = NotOverflow o
IsRoomy r o = Unit

-- The engine shows, from a time on, what the map says.
pub record Shows (now : ℕ) (e : Engine) (w : Timeline) : Type 0 where
  pub held : List Entry
  pub contains : Contains e held
  pub agree :
      (later : ℕ) → now ≤ later → (j : Bytes) → find j (visible later e.ttls held) ≡ w later j

-- Calls at rising times, with the engine and the map before and after them.
pub data Run : ℕ → Engine → Timeline → ℕ → Engine → Timeline → Type 0 where
  nothing : (t : ℕ) (e : Engine) (w : Timeline) → Run t e w t e w
  step :
      (t t' last : ℕ) (e e' : Engine) (w w' : Timeline) (r : Request)
      → t ≤ t'
      → IsInLimits r e
      → IsRoomy r (call t' r e).0
      → Run t' (call t' r e).1 (change t' r w) last e' w'
      → Run t e w last e' w'

later-Shows : (t t' : ℕ) (e : Engine) (w : Timeline) → t ≤ t' → Shows t e w → Shows t' e w
later-Shows t t' e w h s = record {
  held = s.held;
  contains = s.contains;
  agree = λ later k j. s.agree later (omega (arith, h, k)) j;
}

view-Shows :
    (t : ℕ) (e u : Engine) (w : Timeline) (s : Shows t e w) → SameView t e s.held u → Shows t u w
view-Shows t e u w s v = record {
  held = v.left;
  contains = v.contains;
  agree = λ later k j. v.same later k j ∙ s.agree later k j;
}

-- What a call leaves, from an equation for the call.
left_by :
    {A : Type 0} (t : ℕ) (w : Timeline) (m : Outcome Fault A × Engine) (o : Outcome Fault A)
    (u : Engine)
    → m ≡ (o, u)
    → Shows t u w
    → Shows t (outcome m).1 w
left_by t w m o u q s = subst (λ x. Shows t (outcome x).1 w) (sym q) s

call-Shows :
    (t : ℕ) (r : Request) (e : Engine) (w : Timeline)
    → IsInLimits r e
    → IsRoomy r (call t r e).0
    → Shows t e w
    → Shows t (call t r e).1 (change t r w)
call-Shows t (puts key value seconds) e w (some_key, short_key, short_value, room) roomy s =
    go (put_until t key value seconds e s.held some_key short_key short_value s.contains room)
  where
    after_put :
        (u : Engine)
        → Contains u (upsert key value s.held)
        → ((later : ℕ) (j : Bytes)
            → find j (visible later u.ttls (upsert key value s.held)) ≡ (
                if equal_bytes key j
                then lasting t seconds later value
                else find j (visible later e.ttls s.held)))
        → Shows t u (change t (puts key value seconds) w)
    after_put u rep shows = record {
      held = upsert key value s.held;
      contains = rep;
      agree = λ later k j.
          shows later j
          ∙ ap (λ x. if equal_bytes key j then lasting t seconds later value else x)
              (s.agree later k j);
    }

    go :
        EnginePuts t key value seconds e s.held
        → Shows t (call t (puts key value seconds) e).1 (change t (puts key value seconds) w)
    go (kept u q rep shows) =
        left_by t _ (put t key value seconds e) (ok tt) u q (after_put u rep shows)
    go (refused u x q over same) = absurd (subst (λ m. NotOverflow (outcome m).0) q roomy over)
call-Shows t (gets key) e w limits roomy s =
    let (u, q, v) = live_get t e s.held s.contains key in
    left_by t w (get t key e) _ u q (view-Shows t e u w s v)
call-Shows t (checks key) e w limits roomy s =
    let (u, q, v) = live_has t e s.held s.contains key in
    left_by t w (has t key e) _ u q (view-Shows t e u w s v)
call-Shows t (deletes key) e w limits roomy s =
    let (u, left, q, rep, shows) = delete_shown key e s.held s.contains in
    left_by t _ (delete key e) _ u q (record {
      held = left;
      contains = rep;
      agree = λ later k j.
          shows later j ∙ ap (λ x. if equal_bytes key j then none else x) (s.agree later k j);
    })
call-Shows t lists e w limits roomy s =
    let (u, q, rep, same) = live_keys t e s.held s.contains in
    left_by t w (keys t e) _ u q (record {
      held = s.held;
      contains = rep;
      agree = λ later k j. ap (λ ttls. find j (visible later ttls s.held)) same ∙ s.agree later k j;
    })

pub Run-Shows :
    (t last : ℕ) (e u : Engine) (w w' : Timeline)
    → Run t e w last u w'
    → Shows t e w
    → Shows last u w'
Run-Shows t last e u w w' (nothing _ _ _) s = s
Run-Shows t last e u w w' (step _ t' _ _ _ _ _ r h limits roomy rest) s =
    Run-Shows t' last (call t' r e).1 u (change t' r w) w' rest
      (call-Shows t' r e w limits roomy (later-Shows t t' e w h s))

-- On an engine that shows what a map from times and keys to values says, after any run of `Put`
-- (within the limits, with page numbers left, and without an overflow), `Get`, `Has`, `Delete` and
-- `Keys` at rising times, `Get` returns what the map says after the changes of these calls, and
-- the engine shows that map.
pub get-Run :
    (t last : ℕ) (e u : Engine) (w w' : Timeline) (key : Bytes)
    → Shows t e w
    → Run t e w last u w'
    → (v : Engine) × (get last key u ≡ (found_or_not (w' last key), v)) × Shows last v w'
get-Run t last e u w w' key s run =
    let now : Shows last u w' = Run-Shows t last e u w w' run s in
    let (v, q, view) = live_get last u now.held now.contains key in
    (
      v,
      q ∙ ap (λ o. (found_or_not o, v)) (now.agree last (omega arith) key),
      view-Shows last u v w' now view,
    )
