-- ===== src/Rql/Executor/Safe.antt =====
-- internal/rql/executor.go: `Execute` on any line of text.
use rawth.Base.{
  ℕ, ◌+◌, ◌<◌, ◌≡◌, ◌⊎◌, refl, ap, inl, inr, false, List, [], ◌∷◌, ◌++◌, Option, none, some, length,
  arith, Outcome, ok, err, panic, le-cases,
}
use rawth.Bytes.{Bytes}
use rawth.Bytes.Text.{text}
use rawth.Rql.Fault.{ParseError}
use rawth.Rql.Token.{Token}
use rawth.Rql.Lexer.{tokenize, new_lexer}
use rawth.Rql.Lexer.Scan.{Breaks}
use rawth.Rql.Lexer.Tokens.{Tokenizes, lexes, breaks_off, tokenize_lem}
use rawth.Rql.Parser.{
  Command, CommandType, cmd_shove, cmd_yoink, cmd_yeet, cmd_peek, cmd_keys, cmd_nuke, cmd_stats,
  cmd_help, parse, parse_command,
}
use rawth.Rql.Parser.Grammar.{start, Parses, accepts, rejects}
use rawth.Rql.Parser.Accepted.{parse_command_lem}
use rawth.Rql.Executor.{
  Platform, Answers, Result, settle, reply, failure, success, help_text, exec_shove, exec_yoink,
  exec_yeet, exec_peek, exec_keys, exec_nuke, exec_stats, exec_help, shoved, failed, yeeted,
  not_yeeted, peeked, key_listing, nuked, stats_shown, execute_command, execute, parse_error_text,
}
use rawth.Rql.Executor.Commands.{exec_yoink_lem, yoinked}
use rawth.Storage.Fault.{Fault, key_not_found}
use rawth.Storage.Monad.{M}
use rawth.Storage.Node.{max_key_size, max_value_size}
use rawth.Storage.Node.View.{Entry}
use rawth.Storage.Entries.{find, upsert}
use rawth.Storage.Pager.Fresh.{empty_file}
use rawth.Storage.PageStore.{page_store}
use rawth.Storage.Tree.Rejects.{put_rejects}
use rawth.Storage.Engine
use rawth.Storage.Engine.{Engine, set_db}
use rawth.Storage.Engine.Deadlines.{visible}
use rawth.Storage.Engine.Reads.{Contains, live_has, live_keys}
use rawth.Storage.Engine.Writes.{
  EnginePuts, kept, refused, put_until, put-err, deleted, delete_shown,
}
use rawth.Storage.Engine.Restart.{nuke_lem}
use rawth.Storage.Engine.Figures.{stats_lem}

-- What package os promises of a database file that may be removed.
pub record IsRemovable (a : Answers) : Type 0 where
  pub closes : (a.closed ≡ ok tt) ⊎ ((x : Fault) × (a.closed ≡ err x))
  pub removes : a.removed ≡ ok tt
  pub reopens : a.reopened ≡ ok empty_file

-- An answer, with a database that holds some entries, or the failure of a `SHOVE`.
abbrev pub Answered : M Engine Result → Engine → Type 0
Answered m e =
    (res : Result) × (u : Engine) × (m e ≡ (ok res, u))
    × (((left : List Entry) × Contains u left) ⊎ (res.is_ok ≡ false))

module _ {A : Type 0} (f : A → Result) (g : Fault → Result) (m : M Engine A) (e u : Engine) where
  by_value :
      (v : A) (left : List Entry) → m e ≡ (ok v, u) → Contains u left → Answered (reply f g m) e
  by_value v left q rep = (f v, u, ap (settle f g) q, inl (left, rep))

  by_error :
      (x : Fault) (left : List Entry)
      → m e ≡ (err x, u)
      → Contains u left
      → Answered (reply f g m) e
  by_error x left q rep = (g x, u, ap (settle f g) q, inl (left, rep))

  by_refusal : (x : Fault) → m e ≡ (err x, u) → (g x).is_ok ≡ false → Answered (reply f g m) e
  by_refusal x q h = (g x, u, ap (settle f g) q, inr h)

-- How the parser answers any text.
pub data ParserAnswers (input : Bytes) (r : Outcome ParseError Command) : Type 0 where
  command_read : (cmd : Command) → r ≡ ok cmd → ParserAnswers input r
  not_a_command : (x : ParseError) → r ≡ err x → ParserAnswers input r
  crash : r ≡ panic → Breaks input → ParserAnswers input r

parse_on :
    (input : Bytes) (ts : List Token) (r : Outcome ParseError Command)
    → tokenize (new_lexer input) ≡ ok ts
    → parse_command (start ts) ≡ r
    → parse input ≡ r
unfolding parse
parse_on input ts r q p = rw q p

parse_off : (input : Bytes) → tokenize (new_lexer input) ≡ panic → parse input ≡ panic
unfolding parse
parse_off input q = rw q refl

pub parse_lem : (input : Bytes) → ParserAnswers input (parse input)
parse_lem input = go (tokenize_lem input)
  where
    read :
        (ts : List Token)
        → tokenize (new_lexer input) ≡ ok ts
        → Parses ts (parse_command (start ts))
        → ParserAnswers input (parse input)
    read ts q (accepts cmd p g) = command_read cmd (parse_on input ts (ok cmd) q p)
    read ts q (rejects x p g) = not_a_command x (parse_on input ts (err x) q p)

    go : Tokenizes input (tokenize (new_lexer input)) → ParserAnswers input (parse input)
    go (lexes ts q k) = read ts q (parse_command_lem ts)
    go (breaks_off q b) = crash (parse_off input q) b

module _ (os : Platform) (a : Answers) (sane : IsRemovable a) (e : Engine) (es : List Entry)
    (r : Contains e es)
    (room : e.db.header.page_count + e.db.header.page_count + 1 < 4294967296) where
  shove-Answered : (cmd : Command) → Answered (exec_shove os a.now cmd) e
  unfolding exec_shove
  shove-Answered cmd = elim (le-cases (length cmd.key) 0) [
    | inl empty ↦ rejected (inl (omega (arith, empty)))
    | inr some_key ↦ elim (le-cases (length cmd.key) max_key_size) [
      | inr long ↦ rejected (inr (inl long))
      | inl short ↦ elim (le-cases (length cmd.value) max_value_size) [
        | inr long ↦ rejected (inr (inr long))
        | inl fits ↦
            stored (put_until a.now cmd.key cmd.value cmd.lifetime e es some_key short fits r room)
      ]
    ]
  ]
    where
      rejected :
          (length cmd.key ≡ 0)
            ⊎ ((max_key_size < length cmd.key) ⊎ (max_value_size < length cmd.value))
          → Answered (exec_shove os a.now cmd) e
      rejected bad =
          let (x, q, why) = put_rejects page_store cmd.key cmd.value e.db bad in
          by_error (λ _. success (shoved os cmd)) (failed os (text "SHOVE failed: "))
            (Engine.put a.now cmd.key cmd.value cmd.lifetime) e (set_db e e.db) x es
            (put-err a.now cmd.key cmd.value cmd.lifetime e e.db x q) r

      stored :
          EnginePuts a.now cmd.key cmd.value cmd.lifetime e es
          → Answered (exec_shove os a.now cmd) e
      stored (kept u q rep shows) =
          by_value (λ _. success (shoved os cmd)) (failed os (text "SHOVE failed: "))
            (Engine.put a.now cmd.key cmd.value cmd.lifetime) e u tt (upsert cmd.key cmd.value es) q
            rep
      stored (refused u x q over same) =
          by_refusal (λ _. success (shoved os cmd)) (failed os (text "SHOVE failed: "))
            (Engine.put a.now cmd.key cmd.value cmd.lifetime) e u x q refl

  yoink-Answered : (cmd : Command) → Answered (exec_yoink os a.now cmd) e
  yoink-Answered cmd =
      let (u, q, v) = exec_yoink_lem os a.now cmd e es r in
      (yoinked os cmd.key (find cmd.key (visible a.now e.ttls es)), u, q, inl (v.left, v.contains))

  yeet-Answered : (cmd : Command) → Answered (exec_yeet os cmd) e
  unfolding exec_yeet
  yeet-Answered cmd =
      let (u, left, q, rep, shows) = delete_shown cmd.key e es r in
      by_entry u left rep (find cmd.key es) q
    where
      by_entry :
          (u : Engine) (left : List Entry)
          → Contains u left
          → (o : Option Bytes) → Engine.delete cmd.key e ≡ (deleted o, u)
          → Answered (exec_yeet os cmd) e
      by_entry u left rep none q =
          by_error (yeeted os cmd.key) (not_yeeted os cmd.key) (Engine.delete cmd.key) e u
            key_not_found left q rep
      by_entry u left rep (some v) q =
          by_value (yeeted os cmd.key) (not_yeeted os cmd.key) (Engine.delete cmd.key) e u tt left q
            rep

  peek-Answered : (cmd : Command) → Answered (exec_peek os a.now cmd) e
  unfolding exec_peek
  peek-Answered cmd =
      let (u, q, v) = live_has a.now e es r cmd.key in
      by_value (peeked os cmd.key) (failed os (text "PEEK failed: ")) (Engine.has a.now cmd.key) e u
        _ v.left q v.contains

  keys-Answered : Answered (exec_keys os a.now) e
  unfolding exec_keys
  keys-Answered =
      let (u, q, rep, same) = live_keys a.now e es r in
      by_value (key_listing os) (failed os (text "KEYS failed: ")) (Engine.keys a.now) e u _ es q
        rep

  nuke-Answered : Answered (exec_nuke os a) e
  unfolding exec_nuke
  nuke-Answered =
      let (u, q, emptied) = nuke_lem a.closed e es sane.closes r in
      by_value (nuked os) (failed os (text "NUKE failed: "))
        (Engine.nuke a.closed a.removed a.reopened) e u tt [] (rw (sane.removes, sane.reopens) q)
        emptied.contains

  stats-Answered : Answered (exec_stats os a.now) e
  unfolding exec_stats
  stats-Answered =
      let (levels, p, q, rep) = stats_lem os.uptime a.now e es r in
      by_value (stats_shown os) (failed os []) (Engine.stats os.uptime a.now) e (set_db e p) _ es q
        rep

  help-Answered : Answered (exec_help os) e
  unfolding exec_help
  help-Answered = (success help_text, e, refl, inl (es, r))

  command-Answered :
      (k : CommandType) (key value : Bytes) (lifetime : ℕ)
      → Answered
          (execute_command os a
            (record { kind = k; key = key; value = value; lifetime = lifetime }))
          e
  unfolding execute_command
  command-Answered cmd_shove key value lifetime =
      shove-Answered (record { kind = cmd_shove; key = key; value = value; lifetime = lifetime })
  command-Answered cmd_yoink key value lifetime =
      yoink-Answered (record { kind = cmd_yoink; key = key; value = value; lifetime = lifetime })
  command-Answered cmd_yeet key value lifetime =
      yeet-Answered (record { kind = cmd_yeet; key = key; value = value; lifetime = lifetime })
  command-Answered cmd_peek key value lifetime =
      peek-Answered (record { kind = cmd_peek; key = key; value = value; lifetime = lifetime })
  command-Answered cmd_keys key value lifetime = keys-Answered
  command-Answered cmd_nuke key value lifetime = nuke-Answered
  command-Answered cmd_stats key value lifetime = stats-Answered
  command-Answered cmd_help key value lifetime = help-Answered

  -- How `Execute` ends.
  pub data Executes (input : Bytes) : Type 0 where
    answers : Answered (execute os a input) e → Executes input
    crashes : Breaks (os.trim_space input) → execute os a input e ≡ (panic, e) → Executes input

  -- On an engine whose database holds some entries, with page numbers left and a database file
  -- that can be removed and made anew, `Execute` of any text returns a result, and the database
  -- holds some entries afterwards or the result is a failure; or it panics, and then a quoted text
  -- of the statement ends in an unfinished escape.
  pub execute_lem : (input : Bytes) → Executes input
  unfolding execute
  execute_lem input = go (os.trim_space input) refl
    where
      parsed :
          (c : ℕ) (cs : Bytes)
          → os.trim_space input ≡ c ∷ cs
          → ParserAnswers (c ∷ cs) (parse (c ∷ cs))
          → Executes input
      parsed c cs t (command_read cmd q) =
          let (res, u, f, left) = command-Answered cmd.kind cmd.key cmd.value cmd.lifetime in
          answers (res, u, rw (t, q) f, left)
      parsed c cs t (not_a_command x q) =
          answers
            (failure (text "parse error: " ++ parse_error_text os x), e, rw (t, q) refl, inr refl)
      parsed c cs t (crash q b) = crashes (rw t b) (rw (t, q) refl)

      go : (xs : Bytes) → os.trim_space input ≡ xs → Executes input
      go [] t = answers (failure (text "empty command — try HELP"), e, rw t refl, inr refl)
      go (c ∷ cs) t = parsed c cs t (parse_lem (c ∷ cs))
