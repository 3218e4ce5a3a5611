-- ===== src/Rql/Executor.antt =====
-- internal/rql/executor.go: the executor, from a line of text to a result and to the text of the result.
pub mod Format
pub mod Safe
pub mod Faultless
pub mod Commands
use rawth.Base.{
  ℕ, ◌+◌, Bool, true, false, List, [], ◌∷◌, ◌++◌, length, ltb, ◌==◌, if◌then◌else◌, Outcome, ok,
  err, panic, stuck,
}
use rawth.Bytes.{Bytes}
use rawth.Bytes.Text.{text}
use rawth.Bytes.Decimal.{decimal}
use rawth.Rql.Token.{Token, TokenType, type_name, string, ident, number, ttl}
use rawth.Rql.Fault.{
  ParseError, Verb, shove_verb, yoink_verb, yeet_verb, peek_verb, empty_command, unknown_command,
  expected_key, expected_value, ttl_requires_number, invalid_ttl,
}
use rawth.Rql.Parser.{
  Command, CommandType, cmd_shove, cmd_yoink, cmd_yeet, cmd_peek, cmd_keys, cmd_nuke, cmd_stats,
  cmd_help, parse,
}
use rawth.Storage.Fault.{Fault, key_not_found}
use rawth.Storage.Monad.{M, pure}
use rawth.Storage.Disk.{File}
use rawth.Storage.Engine
use rawth.Storage.Engine.{Engine, EngineStats}

-- What Go's packages write and cut: `%q`, the error of `strconv.ParseInt` on digits that are out of
-- range, the text of an error of internal/storage (with the operating system's in it),
-- `strings.TrimSpace`, and the time since the start in seconds.
pub record Platform : Type 0 where
  pub quote : Bytes → Bytes
  pub range_error : Bytes → Bytes
  pub fault_text : Fault → Bytes
  pub trim_space : Bytes → Bytes
  pub uptime : ℕ → ℕ → Bytes

-- What the clock and the operating system answer while a command runs.
pub record Answers : Type 0 where
  pub now : ℕ
  pub closed : Outcome Fault (Unit {0})
  pub removed : Outcome Fault (Unit {0})
  pub reopened : Outcome Fault File

-- The field `Data`: `nil`, a `[]string`, or an `EngineStats`
pub data Payload : Type 0 where
  no_data : Payload
  key_list : List Bytes → Payload
  statistics : EngineStats → Payload

-- `is_ok` is the field `Ok`, `payload` is `Data`.
pub record Result : Type 0 where
  pub is_ok : Bool
  pub message : Bytes
  pub value : Bytes
  pub payload : Payload

abbrev pub failure : Bytes → Result
failure message = record { is_ok = false; message = message; value = []; payload = no_data }

abbrev pub success : Bytes → Result
success message = record { is_ok = true; message = message; value = []; payload = no_data }

abbrev verb_name : Verb → Bytes
verb_name shove_verb = text "SHOVE"
verb_name yoink_verb = text "YOINK"
verb_name yeet_verb = text "YEET"
verb_name peek_verb = text "PEEK"

unfoldable pub help_text : Bytes
help_text =
    text "rawth Query Language (RQL) — Reference\n\n"
    ++ text "  SHOVE key \"value\"          Store a key-value pair\n"
    ++ text "  SHOVE key \"value\" TTL 60   Store with expiration (seconds)\n"
    ++ text "  YOINK key                  Retrieve a value by key\n"
    ++ text "  YEET key                   Delete a key\n"
    ++ text "  PEEK key                   Check if a key exists\n"
    ++ text "  KEYS                       List all keys\n"
    ++ text "  NUKE                       Delete everything (careful!)\n"
    ++ text "  STATS                      Show database statistics\n"
    ++ text "  HELP                       Show this help message\n\n"
    ++ text "Examples:\n"
    ++ text "  SHOVE greeting \"hello world\"\n"
    ++ text "  SHOVE session_token \"abc123\" TTL 3600\n"
    ++ text "  YOINK greeting\n"
    ++ text "  YEET greeting\n"
    ++ text "  PEEK greeting"

-- What a method makes of an engine's call: its value or its error becomes a result.
abbrev pub settle :
    {A : Type 0}
    → (A → Result)
    → (Fault → Result)
    → Outcome Fault A × Engine
    → Outcome Fault Result × Engine
settle f g (ok a, e) = (ok (f a), e)
settle f g (err x, e) = (ok (g x), e)
settle f g (panic, e) = (panic, e)
settle f g (stuck, e) = (stuck, e)

abbrev pub reply : {A : Type 0} → (A → Result) → (Fault → Result) → M Engine A → M Engine Result
reply f g m e = settle f g (m e)

module _ (os : Platform) where
  open os use {quote, range_error, fault_text, trim_space, uptime}

  -- `, got %s (%q)`
  abbrev got : Token → Bytes
  got tok = text ", got " ++ (type_name tok.kind ++ (text " (" ++ (quote tok.literal ++ text ")")))

  -- `Error` of the errors of parser.go; `expect` is called for a number only.
  unfoldable pub parse_error_text : ParseError → Bytes
  unfolding type_name
  parse_error_text empty_command = text "empty command"
  parse_error_text (unknown_command literal) =
      text "unknown command: " ++ (quote literal ++ text " (try HELP)")
  parse_error_text (expected_key verb tok) = verb_name verb ++ (text ": expected key" ++ got tok)
  parse_error_text (expected_value tok) = text "SHOVE: expected value" ++ got tok
  parse_error_text (ttl_requires_number tok) =
      text "SHOVE: TTL requires a number: expected " ++ (type_name number ++ got tok)
  parse_error_text (invalid_ttl literal) = text "SHOVE: invalid TTL value: " ++ range_error literal

  -- `not found` on a test for `ErrKeyNotFound`, `otherwise` in front of any other error
  abbrev pub lookup_failure : Bytes → Bytes → Fault → Result
  lookup_failure not_found otherwise key_not_found = failure not_found
  lookup_failure not_found otherwise x = failure (otherwise ++ fault_text x)

  abbrev pub shoved : Command → Bytes
  shoved cmd =
      text "OK — shoved "
      ++ quote cmd.key
      ++ (if ltb 0 cmd.lifetime
          then text " (expires in " ++ (decimal cmd.lifetime ++ text "s)")
          else [])

  -- `<prefix><err>`
  abbrev pub failed : Bytes → Fault → Result
  failed prefix x = failure (prefix ++ fault_text x)

  unfoldable pub exec_shove : ℕ → Command → M Engine Result
  exec_shove now cmd =
      reply (λ _. success (shoved cmd)) (failed (text "SHOVE failed: "))
        (Engine.put now cmd.key cmd.value cmd.lifetime)

  abbrev pub yoinked_value : Bytes → Bytes → Result
  yoinked_value key v = record {
    is_ok = true;
    message = text "yoinked " ++ quote key;
    value = v;
    payload = no_data;
  }

  abbrev pub not_yoinked : Bytes → Fault → Result
  not_yoinked key =
      lookup_failure (text "key " ++ (quote key ++ text " not found — nothing to yoink"))
        (text "YOINK failed: ")

  unfoldable pub exec_yoink : ℕ → Command → M Engine Result
  exec_yoink now cmd = reply (yoinked_value cmd.key) (not_yoinked cmd.key) (Engine.get now cmd.key)

  abbrev pub yeeted : Bytes → Unit {0} → Result
  yeeted key _ = success (text "yeeted " ++ (quote key ++ text " into the void"))

  abbrev pub not_yeeted : Bytes → Fault → Result
  not_yeeted key =
      lookup_failure
        (text "key " ++ (quote key ++ text " not found — can't yeet what doesn't exist"))
        (text "YEET failed: ")

  unfoldable pub exec_yeet : Command → M Engine Result
  exec_yeet cmd = reply (yeeted cmd.key) (not_yeeted cmd.key) (Engine.delete cmd.key)

  abbrev pub peeked : Bytes → Bool → Result
  peeked key exists = success (
      text "key "
      ++ (quote key
          ++ (if exists
              then text " exists — it's in there"
              else text " does not exist — the void stares back")))

  unfoldable pub exec_peek : ℕ → Command → M Engine Result
  exec_peek now cmd =
      reply (peeked cmd.key) (failed (text "PEEK failed: ")) (Engine.has now cmd.key)

  abbrev pub key_listing : List Bytes → Result
  key_listing [] = record {
    is_ok = true;
    message = text "no keys — the database is empty, like my soul";
    value = [];
    payload = key_list [];
  }
  key_listing (k ∷ ks) = record {
    is_ok = true;
    message = decimal (length (k ∷ ks)) ++ text " key(s) found";
    value = [];
    payload = key_list (k ∷ ks);
  }

  unfoldable pub exec_keys : ℕ → M Engine Result
  exec_keys now = reply key_listing (failed (text "KEYS failed: ")) (Engine.keys now)

  abbrev pub nuked : Unit {0} → Result
  nuked _ = success (text "💥 NUKED — everything is gone. hope you meant that.")

  unfoldable pub exec_nuke : Answers → M Engine Result
  exec_nuke a =
      reply nuked (failed (text "NUKE failed: ")) (Engine.nuke a.closed a.removed a.reopened)

  abbrev pub stats_shown : EngineStats → Result
  stats_shown s = record {
    is_ok = true;
    message = text "database statistics";
    value = [];
    payload = statistics s;
  }

  -- `Stats` returns no error.
  unfoldable pub exec_stats : ℕ → M Engine Result
  exec_stats now = reply stats_shown (failed []) (Engine.stats uptime now)

  unfoldable pub exec_help : M Engine Result
  unfolding help_text
  exec_help = pure (success help_text)

  unfoldable pub execute_command : Answers → Command → M Engine Result
  unfolding exec_shove exec_yoink exec_yeet exec_peek exec_keys exec_nuke exec_stats exec_help
  execute_command a cmd = elim cmd.kind [
    | cmd_shove ↦ exec_shove a.now cmd
    | cmd_yoink ↦ exec_yoink a.now cmd
    | cmd_yeet ↦ exec_yeet cmd
    | cmd_peek ↦ exec_peek a.now cmd
    | cmd_keys ↦ exec_keys a.now
    | cmd_nuke ↦ exec_nuke a
    | cmd_stats ↦ exec_stats a.now
    | cmd_help ↦ exec_help
  ]

  abbrev pub on_command : Answers → Outcome ParseError Command → M Engine Result
  on_command a (ok cmd) e = execute_command a cmd e
  on_command a (err x) e = (ok (failure (text "parse error: " ++ parse_error_text x)), e)
  on_command a panic e = (panic, e)
  on_command a stuck e = (stuck, e)

  abbrev pub on_trimmed : Answers → Bytes → M Engine Result
  on_trimmed a [] = pure (failure (text "empty command — try HELP"))
  on_trimmed a (c ∷ cs) = on_command a (parse (c ∷ cs))

  unfoldable pub execute : Answers → Bytes → M Engine Result
  unfolding parse execute_command parse_error_text
  execute a input = on_trimmed a (trim_space input)
