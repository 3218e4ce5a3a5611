-- ===== src/Rql/Lexer.antt =====
-- internal/rql/lexer.go: the lexer, byte by byte. Each loop of the source takes fuel here, one more
-- than the input has bytes; a slice out of range panics.
pub mod Place
pub mod Scan
pub mod Reads
pub mod Tokens
pub mod Determined
use rawth.Base.{
  ℕ, zero, suc, ◌+◌, ◌-◌, Bool, true, false, ◌&&◌, ◌||◌, List, [], ◌∷◌, length, take, drop, get_or,
  leb, ◌==◌, if◌then◌else◌, Outcome, ok, err, panic, stuck, ◌>>=◌,
}
use rawth.Bytes.{Bytes}
use rawth.Bytes.Text.{rune_bytes}
use rawth.Rql.Fault.{ParseError}
use rawth.Rql.Token.{Token, token, string, ident, number, eof, illegal, same_type, lookup_ident}

pub record Lexer : Type 0 where
  pub input : Bytes
  pub pos : ℕ
  pub read_pos : ℕ
  pub ch : ℕ

unfoldable pub read_char : Lexer → Lexer
read_char l = record l {
  ch = if leb (length l.input) l.read_pos then 0 else get_or l.input l.read_pos 0;
  pos = l.read_pos;
  read_pos = l.read_pos + 1;
}

unfoldable pub new_lexer : Bytes → Lexer
unfolding read_char
new_lexer input = read_char (record { input = input; pos = 0; read_pos = 0; ch = 0 })

unfoldable pub peek_char : Lexer → ℕ
peek_char l = if leb (length l.input) l.read_pos then 0 else get_or l.input l.read_pos 0

abbrev pub is_letter : ℕ → Bool
is_letter ch = (leb b'a' ch && leb ch b'z') || (leb b'A' ch && leb ch b'Z')

abbrev pub is_digit : ℕ → Bool
is_digit ch = leb b'0' ch && leb ch b'9'

abbrev pub is_blank : ℕ → Bool
is_blank ch = ch == b' ' || (ch == 9 || (ch == 13 || ch == 10))

abbrev pub is_word : ℕ → Bool
is_word ch =
    is_letter ch || (is_digit ch || (ch == b'_' || (ch == b'-' || (ch == b'.' || ch == b':'))))

abbrev pub loop_fuel : Lexer → ℕ
loop_fuel l = suc (length l.input)

-- `for test(l.ch) { l.readChar() }`
unfoldable pub skip_while : (ℕ → Bool) → ℕ → Lexer → Outcome ParseError Lexer
skip_while test zero l = stuck
skip_while test (suc fuel) l = elim (test l.ch) [
  | true ↦ skip_while test fuel (read_char l)
  | false ↦ ok l
]

unfoldable pub skip_whitespace : Lexer → Outcome ParseError Lexer
unfolding skip_while
skip_whitespace l = skip_while is_blank (loop_fuel l) l

-- `input[start:stop]`
unfoldable pub slice : Bytes → ℕ → ℕ → Outcome ParseError Bytes
slice input start stop =
    if leb start stop && leb stop (length input)
    then ok (take (stop - start) (drop start input))
    else panic

-- The loop of `readString` and of `readSingleQuotedString`: a backslash takes the next byte along.
unfoldable pub read_body : ℕ → ℕ → Lexer → Outcome ParseError Lexer
read_body quote zero l = stuck
read_body quote (suc fuel) l = elim (l.ch == quote || l.ch == 0) [
  | true ↦ ok l
  | false ↦ read_body quote fuel (read_char (if l.ch == b'\\' then read_char l else l))
]

-- `readString` and `readSingleQuotedString` differ in the quote.
unfoldable pub read_quoted : ℕ → Lexer → Outcome ParseError (Token × Lexer)
unfolding read_body slice
read_quoted quote l0 =
    let l : Lexer = read_char l0 in
    do
      m ← read_body quote (loop_fuel l) l
      literal ← slice l.input l.pos m.pos
      ok (token string literal, if m.ch == quote then read_char m else m)

unfoldable pub read_number : Lexer → Outcome ParseError (Token × Lexer)
unfolding skip_while slice
read_number l = do
  m ← skip_while is_digit (loop_fuel l) l
  literal ← slice l.input l.pos m.pos
  ok (token number literal, m)

unfoldable pub read_ident_or_keyword : Lexer → Outcome ParseError (Token × Lexer)
unfolding skip_while slice lookup_ident
read_ident_or_keyword l = do
  m ← skip_while is_word (loop_fuel l) l
  literal ← slice l.input l.pos m.pos
  ok (token (lookup_ident literal) literal, m)

-- The switch of `NextToken`.
unfoldable pub read_token : Lexer → Outcome ParseError (Token × Lexer)
unfolding read_quoted read_number read_ident_or_keyword
read_token l =
    if l.ch == 0
    then ok (token eof [], l)
    else if l.ch == b'"'
    then read_quoted b'"' l
    else if l.ch == b'\''
    then read_quoted b'\'' l
    else if is_digit l.ch
    then read_number l
    else if is_letter l.ch || l.ch == b'_'
    then read_ident_or_keyword l
    else ok (token illegal (rune_bytes l.ch), read_char l)

unfoldable pub next_token : Lexer → Outcome ParseError (Token × Lexer)
unfolding skip_whitespace read_token
next_token l = do m ← skip_whitespace l; read_token m

-- The loop of `Tokenize`
unfoldable pub token_loop : ℕ → Lexer → Outcome ParseError (List Token)
unfolding next_token
token_loop zero l = stuck
token_loop (suc fuel) l =
    let rest = λ (m : Lexer). token_loop fuel m in
    do
      (tok, m) ← next_token l
      if same_type tok.kind eof then ok (tok ∷ []) else (do toks ← rest m; ok (tok ∷ toks))

unfoldable pub tokenize : Lexer → Outcome ParseError (List Token)
unfolding token_loop
tokenize l = token_loop (loop_fuel l) l
