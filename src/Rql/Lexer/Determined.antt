-- ===== src/Rql/Lexer/Determined.antt =====
-- internal/rql/lexer.go: the description of tokens determines what `Tokenize` returns, and the
-- tokens of quoted texts without escapes and of numerals.
use mathlib.Core.Path.{subst}
use rawth.Base.{
  ℕ, ◌≡◌, ◌≢◌, refl, sym, ap, ap₂, ◌∙◌, List, [], ◌∷◌, ◌++◌, Option, none, some, arith, ok, panic,
  All,
}
use rawth.Bytes.{Bytes}
use rawth.Bytes.Decimal.{decimal, IsDigit, All-decimal, decimal-not_empty}
use rawth.Rql.Token.{Token, token, number}
use rawth.Rql.Lexer.{tokenize, new_lexer, is_digit}
use rawth.Rql.Lexer.Place.{take_while, drop_while}
use rawth.Rql.Lexer.Scan.{
  scan_body, prepend, scan_token, scan, Lexes, last, more, Breaks, here, later,
}
use rawth.Rql.Lexer.Tokens.{Tokenizes, lexes, breaks_off, tokenize_lem}

fst_of : Option (Token × Bytes) → Token → Token
fst_of none t = t
fst_of (some p) t = p.0

snd_of : Option (Token × Bytes) → Bytes → Bytes
snd_of none xs = xs
snd_of (some p) xs = p.1

one_step :
    (xs : Bytes) (t u : Token) (ys zs : Bytes)
    → scan xs ≡ some (t, ys)
    → scan xs ≡ some (u, zs)
    → (t ≡ u) × (ys ≡ zs)
unfolding fst_of snd_of
one_step xs t u ys zs d e = (ap (λ o. fst_of o t) (sym d ∙ e), ap (λ o. snd_of o ys) (sym d ∙ e))

Lexes-determined : (xs : Bytes) (ts us : List Token) → Lexes xs ts → Lexes xs us → ts ≡ us
Lexes-determined xs _ _ (last _ ys t d q) (last _ zs u e r) =
    ap (λ x. x ∷ []) (one_step xs t u ys zs d e).0
Lexes-determined xs _ _ (last _ ys t d q) (more _ zs u us e ne k) =
    absurd (ne (ap (λ (x : Token). x.kind) (sym (one_step xs t u ys zs d e).0) ∙ q))
Lexes-determined xs _ _ (more _ ys t ts d ne h) (last _ zs u e r) =
    absurd (ne (ap (λ (x : Token). x.kind) (one_step xs t u ys zs d e).0 ∙ r))
Lexes-determined xs _ _ (more _ ys t ts d ne h) (more _ zs u us e nf k) =
    let (same, rest) = one_step xs t u ys zs d e in
    ap₂ (λ x y. x ∷ y) same (Lexes-determined ys ts us h (subst (λ v. Lexes v us) (sym rest) k))

Breaks-not_Lexes : (xs : Bytes) (ts : List Token) → Breaks xs → Lexes xs ts → ⊥
Breaks-not_Lexes xs _ (here _ b) (last _ ys t d q) = cc
Breaks-not_Lexes xs _ (here _ b) (more _ ys t ts d ne h) = cc
Breaks-not_Lexes xs _ (later _ zs u e nf b) (last _ ys t d q) =
    absurd (nf (ap (λ (x : Token). x.kind) (one_step xs u t zs ys e d).0 ∙ q))
Breaks-not_Lexes xs _ (later _ zs u e nf b) (more _ ys t ts d ne h) =
    Breaks-not_Lexes zs ts b (subst (λ v. Lexes v ts) (sym (one_step xs u t zs ys e d).1) h)

pub tokenize-Lexes : (xs : Bytes) (ts : List Token) → Lexes xs ts → tokenize (new_lexer xs) ≡ ok ts
tokenize-Lexes xs ts h = go (tokenize_lem xs)
  where
    go : Tokenizes xs (tokenize (new_lexer xs)) → tokenize (new_lexer xs) ≡ ok ts
    go (lexes us q k) = q ∙ ap ok (Lexes-determined xs us ts k h)
    go (breaks_off q b) = absurd (Breaks-not_Lexes xs ts b h)

pub tokenize-Breaks : (xs : Bytes) → Breaks xs → tokenize (new_lexer xs) ≡ panic
tokenize-Breaks xs b = go (tokenize_lem xs)
  where
    go : Tokenizes xs (tokenize (new_lexer xs)) → tokenize (new_lexer xs) ≡ panic
    go (lexes us q k) = absurd (Breaks-not_Lexes xs us b k)
    go (breaks_off q c) = q

-- A byte that stands for itself between quotes.
abbrev pub IsPlain : ℕ → ℕ → Type 0
IsPlain quote c = (c ≢ quote) × (c ≢ 0) × (c ≢ b'\\')

scan_body-stop : (quote : ℕ) (xs : Bytes) → scan_body quote (quote ∷ xs) ≡ some ([], quote ∷ xs)
scan_body-stop quote [] = ground arith
scan_body-stop quote (x ∷ xs) = ground arith

scan_body-step :
    (quote c : ℕ) (xs : Bytes)
    → IsPlain quote c
    → scan_body quote (c ∷ xs) ≡ prepend (c ∷ []) (scan_body quote xs)
scan_body-step quote c [] (h, i, j) = ground arith
scan_body-step quote c (x ∷ xs) (h, i, j) = ground arith

pub scan_body-closed :
    (quote : ℕ) (body rest : Bytes)
    → All (IsPlain quote) body
    → scan_body quote (body ++ (quote ∷ rest)) ≡ some (body, quote ∷ rest)
scan_body-closed quote [] rest h = scan_body-stop quote rest
scan_body-closed quote (c ∷ body) rest (p, h) =
    scan_body-step quote c (body ++ (quote ∷ rest)) p
    ∙ ap (prepend (c ∷ [])) (scan_body-closed quote body rest h)

pub scan_body-cut :
    (quote : ℕ) (body : Bytes)
    → quote ≢ b'\\'
    → All (IsPlain quote) body
    → scan_body quote (body ++ (b'\\' ∷ [])) ≡ none
scan_body-cut quote [] ne h = ground arith
scan_body-cut quote (c ∷ body) ne (p, h) =
    scan_body-step quote c (body ++ (b'\\' ∷ [])) p
    ∙ ap (prepend (c ∷ [])) (scan_body-cut quote body ne h)

take_while-digits : (ds : Bytes) → All IsDigit ds → take_while is_digit ds ≡ ds
take_while-digits [] h = refl
take_while-digits (d ∷ ds) ((lo, hi), h) = ground (arith, take_while-digits ds h)

drop_while-digits : (ds : Bytes) → All IsDigit ds → drop_while is_digit ds ≡ []
drop_while-digits [] h = refl
drop_while-digits (d ∷ ds) ((lo, hi), h) = ground (arith, drop_while-digits ds h)

scan-digits :
    (ds : Bytes) → ds ≢ [] → All IsDigit ds → scan (b' ' ∷ ds) ≡ some (token number ds, [])
unfolding scan scan_token
scan-digits [] ne h = absurd (ne refl)
scan-digits (d ∷ ds) ne ((lo, hi), h) =
    ground (arith, take_while-digits ds h, drop_while-digits ds h)

pub scan-decimal : (n : ℕ) → scan (b' ' ∷ decimal n) ≡ some (token number (decimal n), [])
scan-decimal n = scan-digits (decimal n) (decimal-not_empty n) (All-decimal n)
