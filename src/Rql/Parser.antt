-- ===== src/Rql/Parser.antt =====
-- internal/rql/parser.go: the parser. What a method leaves in the parser is returned with its result;
-- `Parse` drops it.
pub mod Grammar
pub mod Accepted
pub mod Statements
use rawth.Base.{
  ℕ, zero, suc, ◌+◌, ◌^◌, Bool, true, false, not, ◌&&◌, ◌||◌, List, [], ◌∷◌, Option, none, some,
  length, get_or, leb, ltb, if◌then◌else◌, Outcome, ok, err, panic, stuck, ◌>>=◌,
}
use rawth.Bytes.{Bytes}
use rawth.Bytes.Decimal.{value_from}
use rawth.Rql.Fault.{
  ParseError, Verb, shove_verb, yoink_verb, yeet_verb, peek_verb, empty_command, unknown_command,
  expected_key, expected_value, ttl_requires_number, invalid_ttl,
}
use rawth.Rql.Token.{
  Token, TokenType, token, shove, yoink, yeet, peek, keys, nuke, stats, help, ttl, string, ident,
  number, eof, illegal, same_type,
}
use rawth.Rql.Lexer.{new_lexer, tokenize, is_digit}

pub data CommandType : Type 0 where
  cmd_shove cmd_yoink cmd_yeet cmd_peek cmd_keys cmd_nuke cmd_stats cmd_help : CommandType

-- `kind` is the field `Type`; `lifetime` is `TTL`, which the parser never makes negative.
pub record Command : Type 0 where
  pub kind : CommandType
  pub key : Bytes
  pub value : Bytes
  pub lifetime : ℕ

abbrev pub command : CommandType → Bytes → Command
command t key = record { kind = t; key = key; value = []; lifetime = 0 }

pub record Parser : Type 0 where
  pub tokens : List Token
  pub pos : ℕ

unfoldable pub current : Parser → Token
current p =
    if leb (length p.tokens) p.pos then token eof [] else get_or p.tokens p.pos (token eof [])

unfoldable pub advance : Parser → Token × Parser
unfolding current
advance p = (current p, record p { pos = p.pos + 1 })

-- The error is the token that stands there.
unfoldable pub expect : TokenType → Parser → Outcome Token (Token × Parser)
unfolding advance
expect t p = if same_type (current p).kind t then ok (advance p) else err (current p)

-- `strconv.ParseInt(literal, 10, 64)` of the digits that the lexer calls a number
unfoldable pub parse_int : Bytes → Option ℕ
parse_int [] = none
parse_int (c ∷ cs) = let n = value_from 0 (c ∷ cs) in if ltb n (2 ^ 63) then some n else none

abbrev pub is_key : TokenType → Bool
is_key t = same_type t ident || same_type t string

abbrev pub is_value : TokenType → Bool
is_value t = same_type t string || (same_type t ident || same_type t number)

-- The number of seconds, when it is in range
abbrev pub timed : Command → Bytes → Option ℕ → Outcome ParseError Command
timed cmd literal none = err (invalid_ttl literal)
timed cmd literal (some seconds) = ok (record cmd { lifetime = seconds })

-- The seconds behind `TTL`.
unfoldable pub parse_lifetime :
    Command → Outcome Token (Token × Parser) → Outcome ParseError Command
unfolding parse_int
parse_lifetime cmd (ok (tok, p)) = timed cmd tok.literal (parse_int tok.literal)
parse_lifetime cmd (err tok) = err (ttl_requires_number tok)
parse_lifetime cmd panic = panic
parse_lifetime cmd stuck = stuck

unfoldable pub parse_shove : Parser → Outcome ParseError Command
unfolding advance expect parse_lifetime
parse_shove p0 =
    let (verb, p1) = advance p0 in
    let (key_tok, p2) = advance p1 in
    let (val_tok, p3) = advance p2 in
    if not (is_key key_tok.kind)
    then err (expected_key shove_verb key_tok)
    else if not (is_value val_tok.kind)
    then err (expected_value val_tok)
    else let cmd : Command = record {
      kind = cmd_shove;
      key = key_tok.literal;
      value = val_tok.literal;
      lifetime = 0;
    } in
      if same_type (current p3).kind ttl
      then parse_lifetime cmd (expect number (advance p3).1)
      else ok cmd

-- `parseYoink`, `parseYeet` and `parsePeek` differ in their verb.
unfoldable pub parse_key : Verb → CommandType → Parser → Outcome ParseError Command
unfolding advance
parse_key verb kind p0 =
    let (first, p1) = advance p0 in
    let (key_tok, p2) = advance p1 in
    if not (is_key key_tok.kind)
    then err (expected_key verb key_tok)
    else ok (command kind key_tok.literal)

-- `parseKeys`, `parseNuke`, `parseStats` and `parseHelp` differ in their command.
unfoldable pub parse_word : CommandType → Parser → Outcome ParseError Command
parse_word kind p = ok (command kind [])

unfoldable pub parse_command : Parser → Outcome ParseError Command
unfolding parse_shove parse_key parse_word
parse_command p = elim (current p).kind [
  | shove ↦ parse_shove p
  | yoink ↦ parse_key yoink_verb cmd_yoink p
  | yeet ↦ parse_key yeet_verb cmd_yeet p
  | peek ↦ parse_key peek_verb cmd_peek p
  | keys ↦ parse_word cmd_keys p
  | nuke ↦ parse_word cmd_nuke p
  | stats ↦ parse_word cmd_stats p
  | help ↦ parse_word cmd_help p
  | eof ↦ err empty_command
  | _ ↦ err (unknown_command (current p).literal)
]

unfoldable pub parse : Bytes → Outcome ParseError Command
unfolding tokenize parse_command
parse input = do
  tokens ← tokenize (new_lexer input)
  parse_command (record { tokens = tokens; pos = 0 })
