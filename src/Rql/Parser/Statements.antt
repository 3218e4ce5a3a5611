-- ===== src/Rql/Parser/Statements.antt =====
-- internal/rql/parser.go with internal/rql/lexer.go: statements in quotes, from their text to the command.
use rawth.Base.{
  ℕ, ◌^◌, ◌<◌, ◌≡◌, ◌≢◌, refl, ap, ◌∙◌, inl, inr, ◌⊎◌, List, [], ◌∷◌, ◌++◌, some, arith, ok, panic,
  All, lt→ltb,
}
use rawth.Bytes.{Bytes, compare_bytes}
use rawth.Bytes.Text.{text}
use rawth.Bytes.Decimal.{decimal, value_from, value-decimal, decimal-not_empty}
use rawth.Rql.Token.{Token, token, shove, yoink, ttl, string, number, eof, lookup, lookup_ident}
use rawth.Rql.Lexer.Scan.{
  scan, scan_token, scan_body, quoted, Lexes, last, more, Breaks, here, later,
}
use rawth.Rql.Lexer.Determined.{
  IsPlain, scan_body-closed, scan_body-cut, scan-decimal, tokenize-Lexes, tokenize-Breaks,
}
use rawth.Rql.Parser.{
  command, cmd_shove, cmd_yoink, parse_int, parse_command, parse, parse_shove, parse_key, advance,
  expect, current, parse_lifetime,
}

-- `SHOVE "key" "value" TTL seconds`
abbrev pub shove_text : Bytes → Bytes → ℕ → Bytes
shove_text key value seconds =
    text "SHOVE \"" ++ (key ++ (text "\" \"" ++ (value ++ (text "\" TTL " ++ decimal seconds))))

abbrev pub IsPlainText : Bytes → Type 0
IsPlainText = All (IsPlain b'"')

scan-open :
    (quote : ℕ) (xs : Bytes)
    → (quote ≡ b'"') ⊎ (quote ≡ b'\'')
    → scan (b' ' ∷ quote ∷ xs) ≡ quoted quote (scan_body quote xs)
unfolding scan scan_token
scan-open quote xs (inl e) = rw e refl
scan-open quote xs (inr e) = rw e refl

scan-quote :
    (body rest : Bytes)
    → IsPlainText body
    → scan (b' ' ∷ b'"' ∷ (body ++ (b'"' ∷ rest))) ≡ some (token string body, rest)
scan-quote body rest h =
    scan-open b'"' (body ++ (b'"' ∷ rest)) (inl refl)
    ∙ ap (quoted b'"') (scan_body-closed b'"' body rest h)

scan-shove :
    (xs : Bytes) → scan (text "SHOVE " ++ xs) ≡ some (token shove (text "SHOVE"), b' ' ∷ xs)
unfolding scan scan_token lookup_ident lookup compare_bytes
scan-shove xs = refl

scan-yoink :
    (xs : Bytes) → scan (text "YOINK " ++ xs) ≡ some (token yoink (text "YOINK"), b' ' ∷ xs)
unfolding scan scan_token lookup_ident lookup compare_bytes
scan-yoink xs = refl

scan-ttl : (xs : Bytes) → scan (text " TTL " ++ xs) ≡ some (token ttl (text "TTL"), b' ' ∷ xs)
unfolding scan scan_token lookup_ident lookup compare_bytes
scan-ttl xs = refl

scan-nothing : scan [] ≡ some (token eof [], [])
unfolding scan scan_token
scan-nothing = refl

-- The tokens of the statement.
abbrev shove_tokens : Bytes → Bytes → ℕ → List Token
shove_tokens key value seconds =
    token shove (text "SHOVE")
    ∷ token string key
    ∷ token string value
    ∷ token ttl (text "TTL")
    ∷ token number (decimal seconds)
    ∷ token eof []
    ∷ []

Lexes-shove :
    (key value : Bytes) (seconds : ℕ)
    → IsPlainText key
    → IsPlainText value
    → Lexes (shove_text key value seconds) (shove_tokens key value seconds)
Lexes-shove key value seconds k v =
    more _ _ _ _ (scan-shove _) (λ e. cc)
      (more _ _ _ _ (scan-quote key _ k) (λ e. cc)
        (more _ _ _ _ (scan-quote value _ v) (λ e. cc)
          (more _ _ _ _ (scan-ttl _) (λ e. cc)
            (more _ _ _ _ (scan-decimal seconds) (λ e. cc) (last _ _ _ scan-nothing refl)))))

parse_int-decimal : (n : ℕ) → n < 2 ^ 63 → parse_int (decimal n) ≡ some n
unfolding parse_int
parse_int-decimal n h = go (decimal n) (decimal-not_empty n) (value-decimal n)
  where
    go : (ds : Bytes) → ds ≢ [] → value_from 0 ds ≡ n → parse_int ds ≡ some n
    go [] ne e = absurd (ne refl)
    go (d ∷ ds) ne e = rw (e, lt→ltb n (2 ^ 63) h) refl

-- For a key and a value without a double quote, a backslash or a zero byte and a number of seconds
-- below 2 ^ 63, `Parse` of `SHOVE "key" "value" TTL seconds` returns the command with this key,
-- value and lifetime.
pub parse-shove :
    (key value : Bytes) (seconds : ℕ)
    → IsPlainText key
    → IsPlainText value
    → seconds < 2 ^ 63
    → parse (shove_text key value seconds)
      ≡ ok (record { kind = cmd_shove; key = key; value = value; lifetime = seconds })
unfolding parse parse_command parse_shove current advance expect parse_lifetime
parse-shove key value seconds k v n =
    rw
      (
        tokenize-Lexes (shove_text key value seconds) (shove_tokens key value seconds)
            (Lexes-shove key value seconds k v),
        parse_int-decimal seconds n,
      )
      refl

-- `YOINK "key"`
abbrev pub yoink_text : Bytes → Bytes
yoink_text key = text "YOINK \"" ++ (key ++ text "\"")

Lexes-yoink :
    (key : Bytes)
    → IsPlainText key
    → Lexes (yoink_text key) (token yoink (text "YOINK") ∷ token string key ∷ token eof [] ∷ [])
Lexes-yoink key k =
    more _ _ _ _ (scan-yoink _) (λ e. cc)
      (more _ _ _ _ (scan-quote key [] k) (λ e. cc) (last _ _ _ scan-nothing refl))

pub parse-yoink :
    (key : Bytes) → IsPlainText key → parse (yoink_text key) ≡ ok (command cmd_yoink key)
unfolding parse parse_command parse_key current advance
parse-yoink key k = rw (tokenize-Lexes (yoink_text key) _ (Lexes-yoink key k)) refl

-- `Parse` of `YOINK`, a space, a single or double quote, a text without that quote, a backslash or
-- a zero byte, and a backslash at the end panics.
pub parse-cut :
    (quote : ℕ) (body : Bytes)
    → (quote ≡ b'"') ⊎ (quote ≡ b'\'')
    → All (IsPlain quote) body
    → parse (text "YOINK " ++ (quote ∷ (body ++ (b'\\' ∷ [])))) ≡ panic
unfolding parse
parse-cut quote body q h = rw (tokenize-Breaks _ cut) refl
  where
    cut : Breaks (text "YOINK " ++ (quote ∷ (body ++ (b'\\' ∷ []))))
    cut =
        later _ _ _ (scan-yoink _) (λ e. cc)
          (here _ (
            scan-open quote _ q
            ∙ ap (quoted quote) (scan_body-cut quote body (λ e. ground (arith, q, e)) h)))
