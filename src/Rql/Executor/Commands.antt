-- ===== src/Rql/Executor/Commands.antt =====
-- internal/rql/executor.go: the commands against the entries that are not dead, and statements from
-- their text to the engine and back.
use rawth.Base.{
  ℕ, ◌+◌, ◌*◌, ◌^◌, ◌≤◌, ◌<◌, ◌≡◌, ◌⊎◌, refl, ap, ◌∙◌, inl, inr, false, List, ◌∷◌, ◌++◌, Option,
  none, some, length, if◌then◌else◌, arith, ok, err,
}
use rawth.Bytes.{Bytes, equal_bytes}
use rawth.Bytes.Text.{text}
use rawth.Rql.Parser.{Command, command, cmd_shove, cmd_yoink, parse}
use rawth.Rql.Parser.Statements.{shove_text, yoink_text, IsPlainText, parse-shove, parse-yoink}
use rawth.Rql.Executor.{
  Platform, Answers, Result, failure, success, settle, yoinked_value, not_yoinked, shoved,
  exec_shove, exec_yoink, execute_command, execute,
}
use rawth.Storage.Fault.{Fault, key_not_found}
use rawth.Storage.Node.{max_key_size, max_value_size}
use rawth.Storage.Node.View.{Entry}
use rawth.Storage.Entries.{find, upsert}
use rawth.Storage.Tree.TwoPages.{IsOverflow}
use rawth.Storage.Tree.Search.{found_or_not}
use rawth.Storage.Engine
use rawth.Storage.Engine.{Engine, Ttls, is_dead, deadline}
use rawth.Storage.Engine.Deadlines.{visible, equal_bytes_refl}
use rawth.Storage.Engine.Reads.{Contains, SameView, live_get}
use rawth.Storage.Engine.Writes.{EnginePuts, kept, refused, put_until, life_end, lasting}
use rawth.Storage.Engine.Lifetimes.{deadline_fits}

module _ (os : Platform) where
  -- What `YOINK` answers for the value of a key, or for none.
  abbrev pub yoinked : Bytes → Option Bytes → Result
  yoinked key none = not_yoinked os key key_not_found
  yoinked key (some v) = yoinked_value os key v

  yoink-settles :
      (now : ℕ) (cmd : Command) (e u : Engine) (o : Option Bytes)
      → Engine.get now cmd.key e ≡ (found_or_not o, u)
      → exec_yoink os now cmd e ≡ (ok (yoinked cmd.key o), u)
  unfolding exec_yoink
  yoink-settles now cmd e u none q = ap (settle _ _) q
  yoink-settles now cmd e u (some v) q = ap (settle _ _) q

  pub exec_yoink_lem :
      (now : ℕ) (cmd : Command) (e : Engine) (es : List Entry)
      → Contains e es
      → (u : Engine) × (exec_yoink os now cmd e
          ≡ (ok (yoinked cmd.key (find cmd.key (visible now e.ttls es))), u))
        × SameView now e es u
  exec_yoink_lem now cmd e es r =
      let (u, q, v) = live_get now e es r cmd.key in (u, yoink-settles now cmd e u _ q, v)

  -- A text that `strings.TrimSpace` leaves alone is parsed as it is.
  execute-parsed :
      (a : Answers) (c : ℕ) (cs : Bytes) (cmd : Command) (e : Engine)
      → os.trim_space (c ∷ cs) ≡ c ∷ cs
      → parse (c ∷ cs) ≡ ok cmd
      → execute os a (c ∷ cs) e ≡ execute_command os a cmd e
  unfolding execute
  execute-parsed a c cs cmd e t p = rw (t, p) refl

  dispatch-shove :
      (a : Answers) (key value : Bytes) (seconds : ℕ) (e : Engine)
      → execute_command os a
          (record { kind = cmd_shove; key = key; value = value; lifetime = seconds })
          e
        ≡ exec_shove os a.now
            (record { kind = cmd_shove; key = key; value = value; lifetime = seconds })
            e
  unfolding execute_command
  dispatch-shove a key value seconds e = refl

  dispatch-yoink :
      (a : Answers) (key : Bytes) (e : Engine)
      → execute_command os a (command cmd_yoink key) e
        ≡ exec_yoink os a.now (command cmd_yoink key) e
  unfolding execute_command
  dispatch-yoink a key e = refl

  shove-ok :
      (now : ℕ) (cmd : Command) (e u : Engine)
      → Engine.put now cmd.key cmd.value cmd.lifetime e ≡ (ok tt, u)
      → exec_shove os now cmd e ≡ (ok (success (shoved os cmd)), u)
  unfolding exec_shove
  shove-ok now cmd e u q = ap (settle _ _) q

  shove-err :
      (now : ℕ) (cmd : Command) (e u : Engine) (x : Fault)
      → Engine.put now cmd.key cmd.value cmd.lifetime e ≡ (err x, u)
      → exec_shove os now cmd e ≡ (ok (failure (text "SHOVE failed: " ++ os.fault_text x)), u)
  unfolding exec_shove
  shove-err now cmd e u x q = ap (settle _ _) q

  -- How a value that is stored comes back.
  pub data ShovesThenYoinks (a b : Answers) (key value : Bytes) (seconds : ℕ) (e : Engine)
      : Type 0 where
    comes_back :
        (u w : Engine)
        → execute os a (shove_text key value seconds) e ≡ (
          ok (
              success (
                shoved os
                  (record { kind = cmd_shove; key = key; value = value; lifetime = seconds }))),
          u,
        )
        → execute os b (yoink_text key) u ≡ (ok (yoinked key (some value)), w)
        → ShovesThenYoinks a b key value seconds e
    too_large :
        (u : Engine) (x : Fault)
        → execute os a (shove_text key value seconds) e
          ≡ (ok (failure (text "SHOVE failed: " ++ os.fault_text x)), u)
        → IsOverflow x
        → ShovesThenYoinks a b key value seconds e

  alive :
      (now later seconds : ℕ)
      → seconds * 1000000000 < 2 ^ 63
      → (seconds ≡ 0) ⊎ (later ≤ now + seconds * 1000000000)
      → is_dead later (life_end now seconds) ≡ false
  alive now later seconds short (inl z) = ground (arith, z)
  alive now later seconds short (inr h) = ground (arith, h, deadline_fits now seconds short)

  -- For a key and a value without a double quote, a backslash or a zero byte, within the limits on
  -- their lengths, a lifetime whose nanoseconds are below 2 ^ 63, statements that `TrimSpace`
  -- leaves alone, a database that holds a list of entries, and page numbers left: the text `SHOVE
  -- "key" "value" TTL seconds` is executed with success, and the text `YOINK "key"`, executed next
  -- and not after the deadline (or with lifetime zero), returns the value; or the first statement
  -- fails with an overflow error.
  pub execute-shove_yoink :
      (a b : Answers) (key value : Bytes) (seconds : ℕ) (e : Engine) (es : List Entry)
      → IsPlainText key
      → IsPlainText value
      → 0 < length key
      → length key ≤ max_key_size
      → length value ≤ max_value_size
      → seconds * 1000000000 < 2 ^ 63
      → (seconds ≡ 0) ⊎ (b.now ≤ a.now + seconds * 1000000000)
      → os.trim_space (shove_text key value seconds) ≡ shove_text key value seconds
      → os.trim_space (yoink_text key) ≡ yoink_text key
      → Contains e es
      → e.db.header.page_count + e.db.header.page_count + 1 < 4294967296
      → ShovesThenYoinks a b key value seconds e
  execute-shove_yoink a b key value seconds e es k v not_empty short_key short_value short time ts
        ty r room =
      go (put_until a.now key value seconds e es not_empty short_key short_value r room)
    where
      shove_cmd : Command
      shove_cmd = record { kind = cmd_shove; key = key; value = value; lifetime = seconds }

      shoving : execute os a (shove_text key value seconds) e ≡ exec_shove os a.now shove_cmd e
      shoving =
          execute-parsed a _ _ shove_cmd e ts
            (parse-shove key value seconds k v (omega (arith, short)))
          ∙ dispatch-shove a key value seconds e

      still_there :
          (o : Option Bytes)
          → (if equal_bytes key key then lasting a.now seconds b.now value else o) ≡ some value
      still_there o = rw (equal_bytes_refl key, alive a.now b.now seconds short time) refl

      go : EnginePuts a.now key value seconds e es → ShovesThenYoinks a b key value seconds e
      go (kept u q rep shows) =
          let (w, f, same) =
            exec_yoink_lem b.now (command cmd_yoink key) u (upsert key value es) rep in
          comes_back u w (shoving ∙ shove-ok a.now shove_cmd e u q) (
            execute-parsed b _ _ (command cmd_yoink key) u ty (parse-yoink key k)
            ∙ dispatch-yoink b key u
            ∙ f
            ∙ ap (λ o. (ok (yoinked key o), w)) (shows b.now key ∙ still_there _))
      go (refused u x q over same) =
          too_large u x (shoving ∙ shove-err a.now shove_cmd e u x q) over
