-- ===== src/Rql/Lexer/Scan.antt =====
-- The tokens of a text, read off it without positions: a description of what
-- internal/rql/lexer.go computes.
use rawth.Base.{
  ℕ, ◌≡◌, ◌≢◌, Bool, ◌||◌, List, [], ◌∷◌, ◌++◌, Option, none, some, ◌==◌, if◌then◌else◌,
}
use rawth.Bytes.{Bytes}
use rawth.Bytes.Text.{rune_bytes}
use rawth.Rql.Token.{Token, token, string, number, eof, illegal, lookup_ident}
use rawth.Rql.Lexer.{is_blank, is_digit, is_letter, is_word}
use rawth.Rql.Lexer.Place.{take_while, drop_while}

abbrev pub ends_body : ℕ → ℕ → Bool
ends_body quote c = c == quote || c == 0

abbrev pub prepend : Bytes → Option (Bytes × Bytes) → Option (Bytes × Bytes)
prepend front none = none
prepend front (some (part, rest)) = some (front ++ part, rest)

-- The body of a quoted text and what stands behind it; there is none when the text ends in a
-- backslash that takes nothing along.
abbrev pub scan_body : ℕ → Bytes → Option (Bytes × Bytes)
scan_body quote [] = some ([], [])
scan_body quote (c ∷ []) =
    if ends_body quote c then some ([], c ∷ []) else if c == b'\\' then none else some (c ∷ [], [])
scan_body quote (c ∷ (d ∷ xs)) =
    let escaped = prepend (c ∷ d ∷ []) (scan_body quote xs) in
    let plain = prepend (c ∷ []) (scan_body quote (d ∷ xs)) in
    if ends_body quote c then some ([], c ∷ d ∷ xs) else if c == b'\\' then escaped else plain

abbrev pub drop_quote : ℕ → Bytes → Bytes
drop_quote quote [] = []
drop_quote quote (c ∷ xs) = if c == quote then xs else c ∷ xs

abbrev pub quoted : ℕ → Option (Bytes × Bytes) → Option (Token × Bytes)
quoted quote none = none
quoted quote (some (part, rest)) = some (token string part, drop_quote quote rest)

abbrev pub scan_quoted : ℕ → Bytes → Option (Token × Bytes)
scan_quoted quote xs = quoted quote (scan_body quote xs)

-- The first token of a text that does not begin with white space.
unfoldable pub scan_token : Bytes → Option (Token × Bytes)
scan_token [] = some (token eof [], [])
scan_token (c ∷ xs) =
    if c == 0
    then some (token eof [], c ∷ xs)
    else if c == b'"'
    then scan_quoted b'"' xs
    else if c == b'\''
    then scan_quoted b'\'' xs
    else if is_digit c
    then some (token number (take_while is_digit (c ∷ xs)), drop_while is_digit (c ∷ xs))
    else if is_letter c || c == b'_'
    then some (
      token (lookup_ident (take_while is_word (c ∷ xs))) (take_while is_word (c ∷ xs)),
      drop_while is_word (c ∷ xs),
    )
    else some (token illegal (rune_bytes c), xs)

unfoldable pub scan : Bytes → Option (Token × Bytes)
unfolding scan_token
scan xs = scan_token (drop_while is_blank xs)

-- A text and its tokens, the last one of kind `eof`.
pub data Lexes : Bytes → List Token → Type 0 where
  last : (xs ys : Bytes) (t : Token) → scan xs ≡ some (t, ys) → t.kind ≡ eof → Lexes xs (t ∷ [])
  more :
      (xs ys : Bytes) (t : Token) (ts : List Token)
      → scan xs ≡ some (t, ys)
      → t.kind ≢ eof
      → Lexes ys ts
      → Lexes xs (t ∷ ts)

-- A text with a quoted text in it that ends in an unfinished escape.
pub data Breaks : Bytes → Type 0 where
  here : (xs : Bytes) → scan xs ≡ none → Breaks xs
  later :
      (xs ys : Bytes) (t : Token) → scan xs ≡ some (t, ys) → t.kind ≢ eof → Breaks ys → Breaks xs
