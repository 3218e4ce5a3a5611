-- ===== src/Rql/Lexer/Tokens.antt =====
-- internal/rql/lexer.go: `NextToken` and `Tokenize` against the description of tokens.
use mathlib.Core.Path.{subst}
use rawth.Base.{
  ℕ, zero, suc, ◌≤◌, ◌<◌, ◌≡◌, ◌≢◌, ◌⊎◌, refl, sym, ap, ◌∙◌, inl, inr, Bool, true, false, ◌||◌,
  List, [], ◌∷◌, Option, none, some, length, ◌==◌, if◌then◌else◌, arith, Outcome, ok, panic, ◌>>=◌,
}
use rawth.Bytes.{Bytes}
use rawth.Bytes.Text.{rune_bytes}
use rawth.Rql.Fault.{ParseError}
use rawth.Rql.Token.{Token, TokenType, token, eof, illegal, same_type}
use rawth.Rql.Lexer.{
  Lexer, read_char, read_quoted, read_number, read_ident_or_keyword, read_token, next_token,
  skip_whitespace, token_loop, tokenize, new_lexer, loop_fuel, is_blank, is_digit, is_letter,
  is_word,
}
use rawth.Rql.Lexer.Place.{
  IsAt, Moved, drop_while, length-drop_while, read_char-IsAt, read_char-input, skip_while_lem,
  new_lexer-IsAt,
}
use rawth.Rql.Lexer.Scan.{
  scan_body, prepend, scan_quoted, quoted, drop_quote, scan_token, scan, Lexes, last, more, Breaks,
  here, later,
}
use rawth.Rql.Lexer.Reads.{
  Reads, reads, breaks, enough, read_quoted_lem, read_number_lem, read_ident_or_keyword_lem,
}

if_Reads :
    (l : Lexer) (b : Bool) (d e : Option (Token × Bytes)) (r s : Outcome ParseError (Token × Lexer))
    → Reads l d r
    → Reads l e s
    → Reads l (if b then d else e) (if b then r else s)
if_Reads l true d e r s h k = h
if_Reads l false d e r s h k = k

-- The switch, over a byte.
abbrev switch : Lexer → ℕ → Outcome ParseError (Token × Lexer)
switch l ch =
    if ch == 0
    then ok (token eof [], l)
    else if ch == b'"'
    then read_quoted b'"' l
    else if ch == b'\''
    then read_quoted b'\'' l
    else if is_digit ch
    then read_number l
    else if is_letter ch || ch == b'_'
    then read_ident_or_keyword l
    else ok (token illegal (rune_bytes ch), read_char l)

read_token-switch : (l : Lexer) → read_token l ≡ switch l l.ch
unfolding read_token
read_token-switch l = refl

read_token_lem : (l : Lexer) (xs : Bytes) → IsAt l xs → Reads l (scan_token xs) (read_token l)
unfolding scan_token
read_token_lem l [] a =
    subst (Reads l (some (token eof [], []))) (sym (read_token-switch l ∙ ap (switch l) a.byte))
      (reads (token eof []) l [] refl refl (a, refl))
read_token_lem l (c ∷ xs) a =
    subst (Reads l (scan_token (c ∷ xs))) (sym (read_token-switch l ∙ ap (switch l) a.byte)) (
      if_Reads l (c == 0) _ _ _ _ (reads (token eof []) l (c ∷ xs) refl refl (a, refl)) (
        if_Reads l (c == b'"') _ _ _ _ (read_quoted_lem l b'"' c xs (omega arith) a) (
          if_Reads l (c == b'\'') _ _ _ _ (read_quoted_lem l b'\'' c xs (omega arith) a) (
            if_Reads l (is_digit c) _ _ _ _ (read_number_lem l (c ∷ xs) a) (
              if_Reads l (is_letter c || c == b'_') _ _ _ _ (read_ident_or_keyword_lem l (c ∷ xs) a)
                (reads (token illegal (rune_bytes c)) (read_char l) xs refl refl
                  (read_char-IsAt l c xs a, read_char-input l)))))))

next_token_lem : (l : Lexer) (xs : Bytes) → IsAt l xs → Reads l (scan xs) (next_token l)
unfolding next_token skip_whitespace scan
next_token_lem l xs a =
    let (m, e, moved) = skip_while_lem is_blank (loop_fuel l) l xs refl (enough l xs a) a in
    rw e (go m moved (read_token_lem m (drop_while is_blank xs) moved.0))
  where
    go :
        (m : Lexer)
        → Moved l (drop_while is_blank xs) m
        → Reads m (scan_token (drop_while is_blank xs)) (read_token m)
        → Reads l (scan_token (drop_while is_blank xs)) (read_token m)
    go m moved (reads t n rest d e at) = reads t n rest d e (at.0, at.1 ∙ moved.1)
    go m moved (breaks d e) = breaks d e

length-drop_quote : (quote : ℕ) (xs : Bytes) → length (drop_quote quote xs) ≤ length xs
length-drop_quote quote [] = omega arith
length-drop_quote quote (c ∷ xs) = ground arith

-- How much stands behind a quoted body.
abbrev behind : Option (Bytes × Bytes) → ℕ
behind none = 0
behind (some (part, rest)) = length rest

behind-prepend : (front : Bytes) (o : Option (Bytes × Bytes)) → behind (prepend front o) ≡ behind o
behind-prepend front none = refl
behind-prepend front (some (part, rest)) = refl

behind-scan_body : (quote : ℕ) (xs : Bytes) → behind (scan_body quote xs) ≤ length xs
behind-scan_body quote [] = omega arith
behind-scan_body quote (c ∷ []) = ground arith
behind-scan_body quote (c ∷ (d ∷ xs)) = ground (
  arith,
  behind-scan_body quote xs,
  behind-scan_body quote (d ∷ xs),
  behind-prepend (c ∷ d ∷ []) (scan_body quote xs),
  behind-prepend (c ∷ []) (scan_body quote (d ∷ xs)),
)

scan_body-le :
    (quote : ℕ) (xs part rest : Bytes)
    → scan_body quote xs ≡ some (part, rest)
    → length rest ≤ length xs
scan_body-le quote xs part rest e = omega (arith, behind-scan_body quote xs, ap behind e)

scan_quoted-le :
    (quote : ℕ) (xs : Bytes) (t : Token) (rest : Bytes)
    → scan_quoted quote xs ≡ some (t, rest)
    → length rest ≤ length xs
scan_quoted-le quote xs t rest e = go (scan_body quote xs) refl e
  where
    go :
        (o : Option (Bytes × Bytes))
        → scan_body quote xs ≡ o
        → quoted quote o ≡ some (t, rest)
        → length rest ≤ length xs
    go none f e' = cc
    go (some (part, r)) f e' =
        ground (arith, scan_body-le quote xs part r f, length-drop_quote quote r, e')

-- A token that is not the last one takes at least one byte.
scan_token-lt :
    (xs : Bytes) (t : Token) (rest : Bytes)
    → scan_token xs ≡ some (t, rest)
    → t.kind ≢ eof
    → length rest < length xs
unfolding scan_token
scan_token-lt [] t rest e ne = absurd (ne (ground (arith, e)))
scan_token-lt (c ∷ xs) t rest e ne = ground (
  arith,
  e,
  ne,
  scan_quoted-le b'"' xs t rest,
  scan_quoted-le b'\'' xs t rest,
  length-drop_while is_digit xs,
  length-drop_while is_word xs,
)

scan-lt :
    (xs : Bytes) (t : Token) (rest : Bytes)
    → scan xs ≡ some (t, rest)
    → t.kind ≢ eof
    → length rest < length xs
unfolding scan
scan-lt xs t rest e ne =
    omega (arith, scan_token-lt (drop_while is_blank xs) t rest e ne, length-drop_while is_blank xs)

eof_test :
    (k : TokenType)
    → ((same_type k eof ≡ true) × (k ≡ eof)) ⊎ ((same_type k eof ≡ false) × (k ≢ eof))
eof_test eof = inl (refl, refl)
eof_test k = inr (refl, λ e. cc)

-- The ways in which `Tokenize` ends.
pub data Tokenizes (xs : Bytes) (r : Outcome ParseError (List Token)) : Type 0 where
  lexes : (ts : List Token) → r ≡ ok ts → Lexes xs ts → Tokenizes xs r
  breaks_off : r ≡ panic → Breaks xs → Tokenizes xs r

module _ (fuel : ℕ) (l : Lexer) where
  loop-panic : next_token l ≡ panic → token_loop (suc fuel) l ≡ panic
  unfolding token_loop
  loop-panic e = rw e

  loop-last :
      (t : Token) (m : Lexer)
      → next_token l ≡ ok (t, m)
      → same_type t.kind eof ≡ true
      → token_loop (suc fuel) l ≡ ok (t ∷ [])
  unfolding token_loop
  loop-last t m e k = rw (e, k)

  loop-more :
      (t : Token) (m : Lexer) (r : Outcome ParseError (List Token))
      → next_token l ≡ ok (t, m)
      → same_type t.kind eof ≡ false
      → token_loop fuel m ≡ r
      → token_loop (suc fuel) l ≡ (r >>= λ ts. ok (t ∷ ts))
  unfolding token_loop
  loop-more t m r e k f = rw (e, k, f)

token_loop_lem :
    (fuel : ℕ) (l : Lexer) (xs : Bytes)
    → length xs < fuel
    → IsAt l xs
    → Tokenizes xs (token_loop fuel l)
token_loop_lem zero l xs f a = absurd (omega arith)
token_loop_lem (suc fuel) l xs f a = go (token_loop_lem fuel) (next_token_lem l xs a)
  where
    after :
        (t : Token) (m : Lexer) (rest : Bytes)
        → scan xs ≡ some (t, rest)
        → next_token l ≡ ok (t, m)
        → same_type t.kind eof ≡ false
        → t.kind ≢ eof
        → Tokenizes rest (token_loop fuel m)
        → Tokenizes xs (token_loop (suc fuel) l)
    after t m rest d e k ne (lexes ts q s) =
        lexes (t ∷ ts) (loop-more fuel l t m (ok ts) e k q) (more xs rest t ts d ne s)
    after t m rest d e k ne (breaks_off q s) =
        breaks_off (loop-more fuel l t m panic e k q) (later xs rest t d ne s)

    go :
        ((m : Lexer) (rest : Bytes)
          → length rest < fuel
          → IsAt m rest
          → Tokenizes rest (token_loop fuel m))
        → Reads l (scan xs) (next_token l)
        → Tokenizes xs (token_loop (suc fuel) l)
    go ih (breaks d e) = breaks_off (loop-panic fuel l e) (here xs d)
    go ih (reads t m rest d e moved) = elim (eof_test t.kind) [
      | inl (k, q) ↦ lexes (t ∷ []) (loop-last fuel l t m e k) (last xs rest t d q)
      | inr (k, ne) ↦
          after t m rest d e k ne (ih m rest (omega (arith, scan-lt xs t rest d ne)) moved.0)
    ]

-- On any input `Tokenize` ends: it returns the tokens that the description in Lexer/Scan gives,
-- the last one of kind `eof`, or it panics, and then a quoted text of the input ends in an
-- unfinished escape.
pub tokenize_lem : (input : Bytes) → Tokenizes input (tokenize (new_lexer input))
unfolding tokenize
tokenize_lem input =
    token_loop_lem (loop_fuel (new_lexer input)) (new_lexer input) input
      (enough (new_lexer input) input (new_lexer-IsAt input)) (new_lexer-IsAt input)
