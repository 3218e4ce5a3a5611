-- ===== src/Rql/Lexer/Reads.antt =====
-- internal/rql/lexer.go: `NextToken` against the description of tokens.
use mathlib.Core.Path.{subst}
use rawth.Base.{
  ℕ, zero, suc, ◌<◌, ◌≡◌, ◌≢◌, refl, sym, ap, ◌∙◌, inl, inr, Bool, true, false, [], ◌∷◌, ◌++◌,
  Option, none, some, length, ◌==◌, if◌then◌else◌, arith, Outcome, ok, panic, Bool-cases,
}
use rawth.Bytes.{Bytes}
use rawth.Rql.Fault.{ParseError}
use rawth.Rql.Token.{Token, token, string, number, lookup_ident}
use rawth.Rql.Lexer.{
  Lexer, read_char, read_body, read_quoted, read_number, read_ident_or_keyword, skip_while, slice,
  loop_fuel, is_digit, is_word,
}
use rawth.Rql.Lexer.Place.{
  IsAt, Moved, take_while, drop_while, take_while-append-drop_while, read_char-IsAt,
  read_char-input, skip_while_lem, slice-Moved, length-IsAt,
}
use rawth.Rql.Lexer.Scan.{ends_body, scan_body, prepend, drop_quote, quoted, scan_quoted}

-- How the loop over a quoted text ends.
data BodyEnds (quote : ℕ) (l : Lexer) (xs : Bytes) (r : Outcome ParseError Lexer) : Type 0 where
  closes :
      (m : Lexer) (part rest : Bytes)
      → scan_body quote xs ≡ some (part, rest)
      → part ++ rest ≡ xs
      → r ≡ ok m
      → Moved l rest m
      → BodyEnds quote l xs r
  runs_over :
      (m : Lexer)
      → scan_body quote xs ≡ none
      → r ≡ ok m
      → length l.input < m.pos
      → BodyEnds quote l xs r

module _ (quote fuel : ℕ) (l : Lexer) where
  read_body-stop : ends_body quote l.ch ≡ true → read_body quote (suc fuel) l ≡ ok l
  unfolding read_body
  read_body-stop e = ground (arith, e)

  read_body-plain :
      ends_body quote l.ch ≡ false
      → (l.ch == b'\\') ≡ false
      → read_body quote (suc fuel) l ≡ read_body quote fuel (read_char l)
  unfolding read_body
  read_body-plain e p = ground (arith, e, p)

  read_body-escape :
      ends_body quote l.ch ≡ false
      → (l.ch == b'\\') ≡ true
      → read_body quote (suc fuel) l ≡ read_body quote fuel (read_char (read_char l))
  unfolding read_body
  read_body-escape e p = ground (arith, e, p)

-- Past the end there is nothing, and the position is out of range.
past_end : (l : Lexer) → IsAt l [] → ((read_char l).ch ≡ 0) × (length l.input < (read_char l).pos)
unfolding read_char
past_end l a = ground (arith, a, length-IsAt l [] a)

read_body-stop_at :
    (quote fuel : ℕ) (l : Lexer)
    → 0 < fuel
    → ends_body quote l.ch ≡ true
    → read_body quote fuel l ≡ ok l
read_body-stop_at quote zero l h e = absurd (omega arith)
read_body-stop_at quote (suc fuel) l h e = read_body-stop quote fuel l e

-- One round of the loop.
module _ (quote fuel : ℕ) (l : Lexer) (c : ℕ) (go : ends_body quote c ≡ false) where
  body_plain :
      (xs : Bytes)
      → IsAt l (c ∷ xs)
      → (c == b'\\') ≡ false
      → scan_body quote (c ∷ xs) ≡ prepend (c ∷ []) (scan_body quote xs)
      → BodyEnds quote (read_char l) xs (read_body quote fuel (read_char l))
      → BodyEnds quote l (c ∷ xs) (read_body quote (suc fuel) l)
  body_plain xs a plain e (closes m part rest f cut q moved) =
      closes m (c ∷ part) rest (e ∙ ap (prepend (c ∷ [])) f) (ap (λ x. c ∷ x) cut)
        (read_body-plain quote fuel l (ap (ends_body quote) a.byte ∙ go)
            (ap (λ x. x == b'\\') a.byte ∙ plain)
          ∙ q)
        (moved.0, moved.1 ∙ read_char-input l)
  body_plain xs a plain e (runs_over m f q past) =
      runs_over m (e ∙ ap (prepend (c ∷ [])) f)
        (read_body-plain quote fuel l (ap (ends_body quote) a.byte ∙ go)
            (ap (λ x. x == b'\\') a.byte ∙ plain)
          ∙ q)
        (rw⁻¹ (read_char-input l) past)

  body_escape :
      (d : ℕ) (xs : Bytes)
      → IsAt l (c ∷ d ∷ xs)
      → (c == b'\\') ≡ true
      → BodyEnds quote (read_char (read_char l)) xs (read_body quote fuel (read_char (read_char l)))
      → BodyEnds quote l (c ∷ d ∷ xs) (read_body quote (suc fuel) l)
  body_escape d xs a escape (closes m part rest f cut q moved) =
      closes m (c ∷ d ∷ part) rest (ground (arith, go, escape, f)) (ap (λ x. c ∷ d ∷ x) cut)
        (read_body-escape quote fuel l (ap (ends_body quote) a.byte ∙ go)
            (ap (λ x. x == b'\\') a.byte ∙ escape)
          ∙ q)
        (moved.0, moved.1 ∙ read_char-input (read_char l) ∙ read_char-input l)
  body_escape d xs a escape (runs_over m f q past) =
      runs_over m (ground (arith, go, escape, f))
        (read_body-escape quote fuel l (ap (ends_body quote) a.byte ∙ go)
            (ap (λ x. x == b'\\') a.byte ∙ escape)
          ∙ q)
        (rw⁻¹ (read_char-input l, read_char-input (read_char l)) past)

  -- The backslash is the last byte.
  body_cut :
      0 < fuel
      → IsAt l (c ∷ [])
      → (c == b'\\') ≡ true
      → BodyEnds quote l (c ∷ []) (read_body quote (suc fuel) l)
  body_cut more a escape =
      let (nothing, past) = past_end (read_char l) (read_char-IsAt l c [] a) in
      runs_over (read_char (read_char l)) (ground (arith, go, escape))
        (read_body-escape quote fuel l (ap (ends_body quote) a.byte ∙ go)
            (ap (λ x. x == b'\\') a.byte ∙ escape)
          ∙ read_body-stop_at quote fuel (read_char (read_char l)) more (ground (arith, nothing)))
        (omega (arith, past, ap (length {A = ℕ}) (read_char-input l)))

read_body_lem :
    (quote fuel : ℕ) (l : Lexer) (xs : Bytes)
    → length xs < fuel
    → IsAt l xs
    → BodyEnds quote l xs (read_body quote fuel l)
read_body_lem quote zero l xs f a = absurd (omega arith)
read_body_lem quote (suc fuel) l [] f a =
    closes l [] [] refl refl (read_body-stop quote fuel l (ground (arith, a.byte))) (a, refl)
read_body_lem quote (suc fuel) l (c ∷ []) f a = elim (Bool-cases (ends_body quote c)) [
  | inl stop ↦
      closes l [] (c ∷ []) (ground (arith, stop)) refl
        (read_body-stop quote fuel l (ap (ends_body quote) a.byte ∙ stop)) (a, refl)
  | inr go ↦ elim (Bool-cases (c == b'\\')) [
    | inl escape ↦ body_cut quote fuel l c go (omega arith) a escape
    | inr plain ↦
        body_plain quote fuel l c go [] a plain (ground (arith, go, plain))
          (read_body_lem quote fuel (read_char l) [] (omega arith) (read_char-IsAt l c [] a))
  ]
]
read_body_lem quote (suc fuel) l (c ∷ (d ∷ xs)) f a = elim (Bool-cases (ends_body quote c)) [
  | inl stop ↦
      closes l [] (c ∷ d ∷ xs) (ground (arith, stop)) refl
        (read_body-stop quote fuel l (ap (ends_body quote) a.byte ∙ stop)) (a, refl)
  | inr go ↦ elim (Bool-cases (c == b'\\')) [
    | inl escape ↦ body_escape quote fuel l c go d xs a escape (
        read_body_lem quote fuel (read_char (read_char l)) xs (omega arith)
          (read_char-IsAt (read_char l) d xs (read_char-IsAt l c (d ∷ xs) a)))
    | inr plain ↦ body_plain quote fuel l c go (d ∷ xs) a plain (ground (arith, go, plain)) (
        read_body_lem quote fuel (read_char l) (d ∷ xs) (omega arith)
          (read_char-IsAt l c (d ∷ xs) a))
  ]
]

-- How a call of the lexer ends, beside the description.
pub data Reads (l : Lexer) (described : Option (Token × Bytes))
    (r : Outcome ParseError (Token × Lexer)) : Type 0 where
  reads :
      (t : Token) (m : Lexer) (rest : Bytes)
      → described ≡ some (t, rest)
      → r ≡ ok (t, m)
      → Moved l rest m
      → Reads l described r
  breaks : described ≡ none → r ≡ panic → Reads l described r

slice-past : (input : Bytes) (start stop : ℕ) → length input < stop → slice input start stop ≡ panic
unfolding slice
slice-past input start stop h = ground (arith, h)

if_cases :
    (P : Lexer → Type 0) (b : Bool) (x y : Lexer)
    → (b ≡ true → P x)
    → (b ≡ false → P y)
    → P (if b then x else y)
if_cases P true x y f g = f refl
if_cases P false x y f g = g refl

module _ (l : Lexer) where
  -- The fuel of a loop covers what is left.
  pub enough : (xs : Bytes) → IsAt l xs → length xs < loop_fuel l
  enough xs a = omega (arith, length-IsAt l xs a)

  drop_quote-IsAt :
      (quote : ℕ) (m : Lexer) (rest : Bytes)
      → quote ≢ 0
      → Moved l rest m
      → Moved l (drop_quote quote rest) (if m.ch == quote then read_char m else m)
  drop_quote-IsAt quote m [] pos (a, same) =
      if_cases (Moved l []) (m.ch == quote) (read_char m) m
        (λ e. absurd (ground (arith, e, a.byte, pos))) (λ e. (a, same))
  drop_quote-IsAt quote m (c ∷ xs) pos (a, same) = elim (Bool-cases (c == quote)) [
    | inl e ↦ rw e (
        if_cases (Moved l xs) (m.ch == quote) (read_char m) m
          (λ d. (read_char-IsAt m c xs a, read_char-input m ∙ same))
          (λ d. cc (sym d ∙ ap (λ x. x == quote) a.byte ∙ e)))
    | inr e ↦ rw e (
        if_cases (Moved l (c ∷ xs)) (m.ch == quote) (read_char m) m
          (λ d. cc (sym d ∙ ap (λ x. x == quote) a.byte ∙ e)) (λ d. (a, same)))
  ]

  read_quoted-ok :
      (quote : ℕ) (m : Lexer) (part : Bytes)
      → read_body quote (loop_fuel (read_char l)) (read_char l) ≡ ok m
      → slice (read_char l).input (read_char l).pos m.pos ≡ ok part
      → read_quoted quote l ≡ ok (token string part, if m.ch == quote then read_char m else m)
  unfolding read_quoted
  read_quoted-ok quote m part e f = rw (e, f)

  read_quoted-panic :
      (quote : ℕ) (m : Lexer)
      → read_body quote (loop_fuel (read_char l)) (read_char l) ≡ ok m
      → slice (read_char l).input (read_char l).pos m.pos ≡ panic
      → read_quoted quote l ≡ panic
  unfolding read_quoted
  read_quoted-panic quote m e f = rw (e, f)

  pub read_quoted_lem :
      (quote c : ℕ) (xs : Bytes)
      → quote ≢ 0
      → IsAt l (c ∷ xs)
      → Reads l (scan_quoted quote xs) (read_quoted quote l)
  read_quoted_lem quote c xs pos a = go (
      read_body_lem quote (loop_fuel (read_char l)) (read_char l) xs
        (omega (arith, length-IsAt (read_char l) xs b)) b)
    where
      b : IsAt (read_char l) xs
      b = read_char-IsAt l c xs a

      go :
          BodyEnds quote (read_char l) xs (read_body quote (loop_fuel (read_char l)) (read_char l))
          → Reads l (scan_quoted quote xs) (read_quoted quote l)
      go (closes m part rest f cut q moved) =
          reads (token string part) (if m.ch == quote then read_char m else m)
            (drop_quote quote rest) (ap (quoted quote) f)
            (read_quoted-ok quote m part q (
              slice-Moved (read_char l) m part rest (subst (IsAt (read_char l)) (sym cut) b) moved))
            (drop_quote-IsAt quote m rest pos (moved.0, moved.1 ∙ read_char-input l))
      go (runs_over m f q past) = breaks (ap (quoted quote) f) (
          read_quoted-panic quote m q (slice-past (read_char l).input (read_char l).pos m.pos past))

  read_while-ok :
      (test : ℕ → Bool) (xs : Bytes)
      → test 0 ≡ false
      → IsAt l xs
      → (m : Lexer) × (skip_while test (loop_fuel l) l ≡ ok m)
        × (slice l.input l.pos m.pos ≡ ok (take_while test xs))
        × Moved l (drop_while test xs) m
  read_while-ok test xs z a =
      let (m, e, moved) = skip_while_lem test (loop_fuel l) l xs z (enough xs a) a in
      (
        m,
        e,
        slice-Moved l m (take_while test xs) (drop_while test xs)
            (subst (IsAt l) (sym (take_while-append-drop_while test xs)) a) moved,
        moved,
      )

  pub read_number_lem :
      (xs : Bytes)
      → IsAt l xs
      → Reads l
          (some (token number (take_while is_digit xs), drop_while is_digit xs))
          (read_number l)
  unfolding read_number
  read_number_lem xs a =
      let (m, e, f, moved) = read_while-ok is_digit xs refl a in
      reads (token number (take_while is_digit xs)) m (drop_while is_digit xs) refl (rw (e, f))
        moved

  pub read_ident_or_keyword_lem :
      (xs : Bytes)
      → IsAt l xs
      → Reads l
          (some (
            token (lookup_ident (take_while is_word xs)) (take_while is_word xs),
            drop_while is_word xs,
          ))
          (read_ident_or_keyword l)
  unfolding read_ident_or_keyword
  read_ident_or_keyword_lem xs a =
      let (m, e, f, moved) = read_while-ok is_word xs refl a in
      reads (token (lookup_ident (take_while is_word xs)) (take_while is_word xs)) m
        (drop_while is_word xs) refl (rw (e, f)) moved
