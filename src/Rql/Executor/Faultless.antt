-- ===== src/Rql/Executor/Faultless.antt =====
-- internal/rql/executor.go: `Execute` makes a result of every error, so that none comes out of it.
use rawth.Base.{ℕ, [], ◌∷◌, Outcome, ok, err, panic, stuck}
use rawth.Bytes.{Bytes}
use rawth.Bytes.Text.{text}
use rawth.Rql.Fault.{ParseError}
use rawth.Rql.Parser.{
  Command, CommandType, cmd_shove, cmd_yoink, cmd_yeet, cmd_peek, cmd_keys, cmd_nuke, cmd_stats,
  cmd_help, parse,
}
use rawth.Rql.Executor.{
  Platform, Answers, Result, settle, success, shoved, failed, yoinked_value, not_yoinked, yeeted,
  not_yeeted, peeked, key_listing, nuked, stats_shown, exec_shove, exec_yoink, exec_yeet, exec_peek,
  exec_keys, exec_nuke, exec_stats, exec_help, execute_command, on_command, on_trimmed, execute,
}
use rawth.Storage.Fault.{Fault}
use rawth.Storage.Engine
use rawth.Storage.Engine.{Engine}

abbrev pub NoFault : Outcome Fault Result × Engine → Type 0
NoFault (ok res, u) = Unit
NoFault (err x, u) = ⊥
NoFault (panic, u) = Unit
NoFault (stuck, u) = Unit

settle-NoFault :
    {A : Type 0} (f : A → Result) (g : Fault → Result) (r : Outcome Fault A × Engine)
    → NoFault (settle f g r)
settle-NoFault f g (ok a, u) = tt
settle-NoFault f g (err x, u) = tt
settle-NoFault f g (panic, u) = tt
settle-NoFault f g (stuck, u) = tt

module _ (os : Platform) (a : Answers) where
  command-NoFault :
      (k : CommandType) (key value : Bytes) (lifetime : ℕ) (e : Engine)
      → NoFault (
          execute_command os a
            (record { kind = k; key = key; value = value; lifetime = lifetime })
            e)
  unfolding execute_command exec_shove exec_yoink exec_yeet exec_peek exec_keys exec_nuke exec_stats
      exec_help
  command-NoFault cmd_shove key value lifetime e =
      settle-NoFault
        (λ _.
          success (
            shoved os (record { kind = cmd_shove; key = key; value = value; lifetime = lifetime })))
        (failed os (text "SHOVE failed: ")) (Engine.put a.now key value lifetime e)
  command-NoFault cmd_yoink key value lifetime e =
      settle-NoFault (yoinked_value os key) (not_yoinked os key) (Engine.get a.now key e)
  command-NoFault cmd_yeet key value lifetime e =
      settle-NoFault (yeeted os key) (not_yeeted os key) (Engine.delete key e)
  command-NoFault cmd_peek key value lifetime e =
      settle-NoFault (peeked os key) (failed os (text "PEEK failed: ")) (Engine.has a.now key e)
  command-NoFault cmd_keys key value lifetime e =
      settle-NoFault (key_listing os) (failed os (text "KEYS failed: ")) (Engine.keys a.now e)
  command-NoFault cmd_nuke key value lifetime e =
      settle-NoFault (nuked os) (failed os (text "NUKE failed: "))
        (Engine.nuke a.closed a.removed a.reopened e)
  command-NoFault cmd_stats key value lifetime e =
      settle-NoFault (stats_shown os) (failed os []) (Engine.stats os.uptime a.now e)
  command-NoFault cmd_help key value lifetime e = tt

  on_command-NoFault : (r : Outcome ParseError Command) (e : Engine) → NoFault (on_command os a r e)
  on_command-NoFault (ok cmd) e = command-NoFault cmd.kind cmd.key cmd.value cmd.lifetime e
  on_command-NoFault (err x) e = tt
  on_command-NoFault panic e = tt
  on_command-NoFault stuck e = tt

  pub execute-NoFault : (input : Bytes) (e : Engine) → NoFault (execute os a input e)
  unfolding execute
  execute-NoFault input e = go (os.trim_space input)
    where
      go : (xs : Bytes) → NoFault (on_trimmed os a xs e)
      go [] = tt
      go (c ∷ cs) = on_command-NoFault (parse (c ∷ cs)) e
