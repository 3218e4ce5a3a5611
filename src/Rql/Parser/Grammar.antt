-- ===== src/Rql/Parser/Grammar.antt =====
-- internal/rql/parser.go: the statements of the query language, and the parser against them.
use rawth.Base.{
  ℕ, zero, suc, ◌≡◌, ◌≢◌, refl, sym, ap, ◌∙◌, inl, inr, true, false, List, [], ◌∷◌, some, length,
  get_or, leb, ◌==◌, if◌then◌else◌, arith, Outcome, ok, err, Bool-cases,
}
use rawth.Bytes.{Bytes}
use rawth.Rql.Fault.{
  ParseError, Verb, shove_verb, yoink_verb, yeet_verb, peek_verb, expected_key, expected_value,
}
use rawth.Rql.Token.{
  Token, TokenType, token, shove, yoink, yeet, peek, keys, nuke, stats, help, ttl, string, ident,
  number, eof, illegal, type_code, same_type,
}
use rawth.Rql.Parser.{
  Command, CommandType, command, cmd_shove, cmd_yoink, cmd_yeet, cmd_peek, cmd_keys, cmd_nuke,
  cmd_stats, cmd_help, Parser, current, advance, expect, parse_int, is_key, is_value,
  parse_lifetime, parse_shove, parse_key,
}

-- The tokens of a statement; behind the last one there is only `eof`.
abbrev pub token_at : List Token → ℕ → Token
token_at ts n = get_or ts n (token eof [])

abbrev pub kind_at : List Token → ℕ → TokenType
kind_at ts n = (token_at ts n).kind

abbrev pub literal_at : List Token → ℕ → Bytes
literal_at ts n = (token_at ts n).literal

-- The keyword of a statement that takes a key, with its verb and its command.
pub data KeyStatement : TokenType → Verb → CommandType → Type 0 where
  yoinks : KeyStatement yoink yoink_verb cmd_yoink
  yeets : KeyStatement yeet yeet_verb cmd_yeet
  peeks : KeyStatement peek peek_verb cmd_peek

-- The keyword of a statement that stands alone.
pub data WordStatement : TokenType → CommandType → Type 0 where
  lists_keys : WordStatement keys cmd_keys
  nukes : WordStatement nuke cmd_nuke
  shows_stats : WordStatement stats cmd_stats
  shows_help : WordStatement help cmd_help

-- The command that tokens spell. What stands behind a statement is not looked at.
pub data Grammar (ts : List Token) : Command → Type 0 where
  shoves :
      kind_at ts 0 ≡ shove
      → is_key (kind_at ts 1) ≡ true
      → is_value (kind_at ts 2) ≡ true
      → kind_at ts 3 ≢ ttl
      → Grammar ts (record {
        kind = cmd_shove;
        key = literal_at ts 1;
        value = literal_at ts 2;
        lifetime = 0;
      })
  expires :
      (seconds : ℕ)
      → kind_at ts 0 ≡ shove
      → is_key (kind_at ts 1) ≡ true
      → is_value (kind_at ts 2) ≡ true
      → kind_at ts 3 ≡ ttl
      → kind_at ts 4 ≡ number
      → parse_int (literal_at ts 4) ≡ some seconds
      → Grammar ts (record {
        kind = cmd_shove;
        key = literal_at ts 1;
        value = literal_at ts 2;
        lifetime = seconds;
      })
  asks :
      (k : TokenType) (verb : Verb) (kind : CommandType)
      → KeyStatement k verb kind
      → kind_at ts 0 ≡ k
      → is_key (kind_at ts 1) ≡ true
      → Grammar ts (command kind (literal_at ts 1))
  says :
      (k : TokenType) (kind : CommandType)
      → WordStatement k kind
      → kind_at ts 0 ≡ k
      → Grammar ts (command kind [])

abbrev pub start : List Token → Parser
start ts = record { tokens = ts; pos = 0 }

-- The ways in which the parser answers.
pub data Parses (ts : List Token) (r : Outcome ParseError Command) : Type 0 where
  accepts : (cmd : Command) → r ≡ ok cmd → Grammar ts cmd → Parses ts r
  rejects : (e : ParseError) → r ≡ err e → ((cmd : Command) → ¬ Grammar ts cmd) → Parses ts r

from_code : ℕ → TokenType
from_code n =
    if n == 0
    then shove
    else if n == 1
    then yoink
    else if n == 2
    then yeet
    else if n == 3
    then peek
    else if n == 4
    then keys
    else if n == 5
    then nuke
    else if n == 6
    then stats
    else if n == 7
    then help
    else if n == 8
    then ttl
    else if n == 9
    then string
    else if n == 10
    then ident
    else if n == 11
    then number
    else if n == 12
    then eof
    else illegal

from_code-type_code : (t : TokenType) → from_code (type_code t) ≡ t
unfolding from_code
from_code-type_code shove = refl
from_code-type_code yoink = refl
from_code-type_code yeet = refl
from_code-type_code peek = refl
from_code-type_code keys = refl
from_code-type_code nuke = refl
from_code-type_code stats = refl
from_code-type_code help = refl
from_code-type_code ttl = refl
from_code-type_code string = refl
from_code-type_code ident = refl
from_code-type_code number = refl
from_code-type_code eof = refl
from_code-type_code illegal = refl

pub same_type-true : (s t : TokenType) → same_type s t ≡ true → s ≡ t
same_type-true s t e =
    sym (from_code-type_code s) ∙ ap from_code (ground (arith, e)) ∙ from_code-type_code t

pub same_type_refl : (t : TokenType) → same_type t t ≡ true
same_type_refl t = ground arith

pub same_type-false : (s t : TokenType) → s ≢ t → same_type s t ≡ false
same_type-false s t ne = elim (Bool-cases (same_type s t)) [
  | inl e ↦ absurd (ne (same_type-true s t e))
  | inr e ↦ e
]

get_or-past : (ts : List Token) (n : ℕ) (d : Token) → leb (length ts) n ≡ true → get_or ts n d ≡ d
get_or-past [] n d e = refl
get_or-past (t ∷ ts) zero d e = absurd (ground (arith, e))
get_or-past (t ∷ ts) (suc n) d e = get_or-past ts n d (ground (arith, e))

pub current-at :
    (ts : List Token) (n : ℕ) → current (record { tokens = ts; pos = n }) ≡ token_at ts n
unfolding current
current-at ts n = elim (Bool-cases (leb (length ts) n)) [
  | inl e ↦ rw e (sym (get_or-past ts n (token eof []) e))
  | inr e ↦ rw e refl
]

-- The parser on the first five tokens.
module _ (ts : List Token) where
  pub shoves-accepted :
      is_key (kind_at ts 1) ≡ true
      → is_value (kind_at ts 2) ≡ true
      → same_type (kind_at ts 3) ttl ≡ false
      → parse_shove (start ts)
        ≡ ok (record {
          kind = cmd_shove;
          key = literal_at ts 1;
          value = literal_at ts 2;
          lifetime = 0;
        })
  unfolding parse_shove advance
  shoves-accepted k v n = rw (current-at ts 1, current-at ts 2, current-at ts 3, k, v, n)

  pub no_key :
      is_key (kind_at ts 1) ≡ false
      → parse_shove (start ts) ≡ err (expected_key shove_verb (token_at ts 1))
  unfolding parse_shove advance
  no_key k = rw (current-at ts 1, k)

  pub no_value :
      is_key (kind_at ts 1) ≡ true
      → is_value (kind_at ts 2) ≡ false
      → parse_shove (start ts) ≡ err (expected_value (token_at ts 2))
  unfolding parse_shove advance
  no_value k v = rw (current-at ts 1, current-at ts 2, k, v)

  pub with_ttl :
      is_key (kind_at ts 1) ≡ true
      → is_value (kind_at ts 2) ≡ true
      → same_type (kind_at ts 3) ttl ≡ true
      → parse_shove (start ts)
        ≡ parse_lifetime
            (record {
              kind = cmd_shove;
              key = literal_at ts 1;
              value = literal_at ts 2;
              lifetime = 0;
            })
            (if same_type (kind_at ts 4) number
              then ok (token_at ts 4, record { tokens = ts; pos = 5 })
              else err (token_at ts 4))
  unfolding parse_shove advance expect
  with_ttl k v n = rw (current-at ts 1, current-at ts 2, current-at ts 3, current-at ts 4, k, v, n)

  pub key-accepted :
      (verb : Verb) (kind : CommandType)
      → is_key (kind_at ts 1) ≡ true
      → parse_key verb kind (start ts) ≡ ok (command kind (literal_at ts 1))
  unfolding parse_key advance
  key-accepted verb kind k = rw (current-at ts 1, k)

  pub key-rejected :
      (verb : Verb) (kind : CommandType)
      → is_key (kind_at ts 1) ≡ false
      → parse_key verb kind (start ts) ≡ err (expected_key verb (token_at ts 1))
  unfolding parse_key advance
  key-rejected verb kind k = rw (current-at ts 1, k)
