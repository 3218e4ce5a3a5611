-- ===== src/Rql/Token.antt =====
-- internal/rql/token.go: token types, tokens, and the table of keywords.
use rawth.Base.{ℕ, List, [], ◌∷◌, Option, none, some, if◌then◌else◌, ◌==◌, Bool}
use rawth.Bytes.{Bytes, equal_bytes}
use rawth.Bytes.Text.{text}

pub data TokenType : Type 0 where
  shove yoink yeet peek keys nuke stats help : TokenType
  ttl : TokenType
  string ident number : TokenType
  eof illegal : TokenType

-- The values that `iota` gives.
abbrev pub type_code : TokenType → ℕ
type_code shove = 0
type_code yoink = 1
type_code yeet = 2
type_code peek = 3
type_code keys = 4
type_code nuke = 5
type_code stats = 6
type_code help = 7
type_code ttl = 8
type_code string = 9
type_code ident = 10
type_code number = 11
type_code eof = 12
type_code illegal = 13

-- `==` on token types
abbrev pub same_type : TokenType → TokenType → Bool
same_type s t = type_code s == type_code t

-- `literal` is the field `Literal`, `kind` the field `Type`
pub record Token : Type 0 where
  pub kind : TokenType
  pub literal : Bytes

abbrev pub token : TokenType → Bytes → Token
token t literal = record { kind = t; literal = literal }

-- `String`
unfoldable pub type_name : TokenType → Bytes
type_name shove = text "SHOVE"
type_name yoink = text "YOINK"
type_name yeet = text "YEET"
type_name peek = text "PEEK"
type_name keys = text "KEYS"
type_name nuke = text "NUKE"
type_name stats = text "STATS"
type_name help = text "HELP"
type_name ttl = text "TTL"
type_name string = text "STRING"
type_name ident = text "IDENT"
type_name number = text "NUMBER"
type_name eof = text "EOF"
type_name illegal = text "ILLEGAL"

abbrev pub keywords : List (Bytes × TokenType)
keywords =
    (text "SHOVE", shove)
    ∷ (text "shove", shove)
    ∷ (text "YOINK", yoink)
    ∷ (text "yoink", yoink)
    ∷ (text "YEET", yeet)
    ∷ (text "yeet", yeet)
    ∷ (text "PEEK", peek)
    ∷ (text "peek", peek)
    ∷ (text "KEYS", keys)
    ∷ (text "keys", keys)
    ∷ (text "NUKE", nuke)
    ∷ (text "nuke", nuke)
    ∷ (text "STATS", stats)
    ∷ (text "stats", stats)
    ∷ (text "HELP", help)
    ∷ (text "help", help)
    ∷ (text "TTL", ttl)
    ∷ (text "ttl", ttl)
    ∷ []

-- A lookup in the table; each of its keys stands there once.
unfoldable pub lookup : Bytes → List (Bytes × TokenType) → Option TokenType
lookup word [] = none
lookup word ((k, t) ∷ table) = if equal_bytes k word then some t else lookup word table

unfoldable pub lookup_ident : Bytes → TokenType
unfolding lookup
lookup_ident word = elim (lookup word keywords) [ some t ↦ t | none ↦ ident ]
