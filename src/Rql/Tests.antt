-- ===== src/Rql/Tests.antt =====
-- The query language's theorems on short statements, over the database of the storage's tests.
use rawth.Base.{ℕ, ◌<◌, ◌≡◌, refl, inl, inr, [], ◌∷◌, ◌++◌, arith, ok, panic}
use rawth.Bytes.Text.{text}
use rawth.Bytes.Decimal.{decimal}
use rawth.Rql.Token.{token, yoink, ident, eof}
use rawth.Rql.Lexer.{new_lexer, tokenize}
use rawth.Rql.Lexer.Tokens.{Tokenizes, tokenize_lem}
use rawth.Rql.Lexer.Determined.{IsPlain}
use rawth.Rql.Parser.{cmd_shove, parse_command, parse}
use rawth.Rql.Parser.Grammar.{start, Parses}
use rawth.Rql.Parser.Accepted.{parse_command_lem}
use rawth.Rql.Parser.Statements.{shove_text, IsPlainText, parse-shove, parse-cut}
use rawth.Rql.Executor.{Platform, Answers}
use rawth.Rql.Executor.Commands.{ShovesThenYoinks, execute-shove_yoink}
use rawth.Rql.Executor.Safe.{IsRemovable, Executes, execute_lem}
use rawth.Storage.Pager.Fresh.{empty_file}
use rawth.Storage.Tests.{loaded, items, key_a, key_b}
use rawth.Storage.Engine.Tests.{engine}

IsPlain-byte : (c : ℕ) → 92 < c → IsPlain 34 c
IsPlain-byte c h =
    ((λ e. omega (arith, h, e)), (λ e. omega (arith, h, e)), λ e. omega (arith, h, e))

IsPlain-low : (c : ℕ) → 34 < c → c < 92 → IsPlain 34 c
IsPlain-low c h k =
    ((λ e. omega (arith, h, e)), (λ e. omega (arith, h, e)), λ e. omega (arith, k, e))

plain_a : IsPlainText key_a
plain_a = (IsPlain-byte 97 (omega arith), tt)

plain_b : IsPlainText key_b
plain_b = (IsPlain-byte 98 (omega arith), tt)

plain_three : IsPlainText (51 ∷ [])
plain_three = (IsPlain-low 51 (omega arith) (omega arith), tt)

plain_value : IsPlainText (51 ∷ 44 ∷ 52 ∷ [])
plain_value = (
  IsPlain-low 51 (omega arith) (omega arith),
  (IsPlain-low 44 (omega arith) (omega arith), (IsPlain-low 52 (omega arith) (omega arith), tt)),
)

tokenize_lem_example : Tokenizes (text "YOINK 'a' 12") (tokenize (new_lexer (text "YOINK 'a' 12")))
tokenize_lem_example = tokenize_lem (text "YOINK 'a' 12")

parse_command_lem_example :
    Parses
      (token yoink (text "YOINK") ∷ token ident key_a ∷ token eof [] ∷ [])
      (parse_command (start (token yoink (text "YOINK") ∷ token ident key_a ∷ token eof [] ∷ [])))
parse_command_lem_example =
    parse_command_lem (token yoink (text "YOINK") ∷ token ident key_a ∷ token eof [] ∷ [])

parse-shove_example :
    parse (shove_text key_a (51 ∷ 44 ∷ 52 ∷ []) 60)
    ≡ ok (record { kind = cmd_shove; key = key_a; value = 51 ∷ 44 ∷ 52 ∷ []; lifetime = 60 })
parse-shove_example = parse-shove key_a (51 ∷ 44 ∷ 52 ∷ []) 60 plain_a plain_value (omega arith)

parse-cut_example : parse (text "YOINK " ++ (34 ∷ 97 ∷ 92 ∷ [])) ≡ panic
parse-cut_example = parse-cut 34 key_a (inl refl) plain_a

-- A system on which texts come out as they are.
abbrev pub platform : Platform
platform = record {
  quote = λ xs. xs;
  range_error = λ xs. xs;
  fault_text = λ x. [];
  trim_space = λ xs. xs;
  uptime = λ a b. decimal b;
}

abbrev pub system_at : ℕ → Answers
system_at now = record { now = now; closed = ok tt; removed = ok tt; reopened = ok empty_file }

pub system-IsRemovable : (now : ℕ) → IsRemovable (system_at now)
system-IsRemovable now = record { closes = inl refl; removes = refl; reopens = refl }

execute-shove_yoink_example :
    ShovesThenYoinks platform (system_at 9) (system_at 2000000009) key_b (51 ∷ []) 60 engine
execute-shove_yoink_example =
    execute-shove_yoink platform (system_at 9) (system_at 2000000009) key_b (51 ∷ []) 60 engine
      items plain_b plain_three (omega arith) (omega arith) (omega arith) (omega arith)
      (inr (omega arith)) refl refl loaded.1 (omega (arith, loaded.2))

execute_lem_example :
    Executes platform
      (system_at 9)
      (system-IsRemovable 9)
      engine
      items
      loaded.1
      (omega (arith, loaded.2))
      (text "PEEK a")
execute_lem_example =
    execute_lem platform (system_at 9) (system-IsRemovable 9) engine items loaded.1
      (omega (arith, loaded.2)) (text "PEEK a")
