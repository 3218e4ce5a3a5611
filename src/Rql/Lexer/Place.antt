-- ===== src/Rql/Lexer/Place.antt =====
-- internal/rql/lexer.go: the lexer's position as what is left of the input, and its loops on that.
use rawth.Base.{
  ℕ, zero, suc, ◌+◌, ◌-◌, ◌≤◌, ◌<◌, ◌≡◌, refl, ap, ◌∙◌, inl, inr, Bool, true, false, [], ◌∷◌, ◌++◌,
  length, take, drop, get_or, leb, if◌then◌else◌, arith, ok, Bool-cases, length-append, length-drop,
  take-append_length,
}
use rawth.Bytes.{Bytes}
use rawth.Rql.Lexer.{Lexer, read_char, skip_while, slice, new_lexer}

-- The byte in front, zero at the end.
abbrev pub head_or_zero : Bytes → ℕ
head_or_zero [] = 0
head_or_zero (c ∷ xs) = c

-- The lexer stands before `rest`.
pub record IsAt (l : Lexer) (rest : Bytes) : Type 0 where
  pub inside : l.pos ≤ length l.input
  pub left : drop l.pos l.input ≡ rest
  pub next : l.read_pos ≡ l.pos + 1
  pub byte : l.ch ≡ head_or_zero rest

drop_one :
    (n : ℕ) (xs : Bytes) (c : ℕ) (rest : Bytes) → drop n xs ≡ c ∷ rest → drop (suc n) xs ≡ rest
drop_one zero [] c rest e = cc
drop_one zero (x ∷ xs) c rest e = ground (arith, e)
drop_one (suc n) [] c rest e = cc
drop_one (suc n) (x ∷ xs) c rest e = drop_one n xs c rest e

get-drop : (n : ℕ) (xs : Bytes) → get_or xs n 0 ≡ head_or_zero (drop n xs)
get-drop zero [] = refl
get-drop zero (x ∷ xs) = refl
get-drop (suc n) [] = refl
get-drop (suc n) (x ∷ xs) = get-drop n xs

pub length-IsAt : (l : Lexer) (rest : Bytes) → IsAt l rest → l.pos + length rest ≡ length l.input
length-IsAt l rest a =
    omega (arith, a.inside, length-drop l.pos l.input, ap (length {A = ℕ}) a.left)

pub new_lexer-IsAt : (input : Bytes) → IsAt (new_lexer input) input
unfolding new_lexer read_char
new_lexer-IsAt [] = record { inside = omega arith; left = refl; next = refl; byte = refl }
new_lexer-IsAt (c ∷ xs) = record {
  inside = omega arith;
  left = refl;
  next = refl;
  byte = ground arith;
}

pub read_char-IsAt :
    (l : Lexer) (c : ℕ) (rest : Bytes) → IsAt l (c ∷ rest) → IsAt (read_char l) rest
unfolding read_char
read_char-IsAt l c rest a = record {
  inside = omega (arith, length-IsAt l (c ∷ rest) a, a.next);
  left = ap (λ n. drop n l.input) after ∙ drop_one l.pos l.input c rest a.left;
  next = refl;
  byte = elim (Bool-cases (leb (length l.input) l.read_pos)) [
    | inl e ↦ rw e (at_end rest (omega (arith, length-IsAt l (c ∷ rest) a, a.next, leb-le e)))
    | inr e ↦ rw e (
        get-drop l.read_pos l.input
        ∙ ap (λ n. head_or_zero (drop n l.input)) after
        ∙ ap head_or_zero (drop_one l.pos l.input c rest a.left))
  ];
}
  where
    after : l.read_pos ≡ suc l.pos
    after = omega (arith, a.next)

    leb-le : leb (length l.input) l.read_pos ≡ true → length l.input ≤ l.read_pos
    leb-le e = ground arith

    at_end : (xs : Bytes) → length xs ≡ 0 → 0 ≡ head_or_zero xs
    at_end [] h = refl
    at_end (x ∷ xs) h = absurd (omega arith)

-- What a loop takes, and what it leaves.
abbrev pub take_while : (ℕ → Bool) → Bytes → Bytes
take_while test [] = []
take_while test (c ∷ xs) = if test c then c ∷ take_while test xs else []

abbrev pub drop_while : (ℕ → Bool) → Bytes → Bytes
drop_while test [] = []
drop_while test (c ∷ xs) = if test c then drop_while test xs else c ∷ xs

pub take_while-append-drop_while :
    (test : ℕ → Bool) (xs : Bytes) → take_while test xs ++ drop_while test xs ≡ xs
take_while-append-drop_while test [] = refl
take_while-append-drop_while test (c ∷ xs) = ground (arith, take_while-append-drop_while test xs)

pub length-drop_while : (test : ℕ → Bool) (xs : Bytes) → length (drop_while test xs) ≤ length xs
length-drop_while test [] = omega arith
length-drop_while test (c ∷ xs) = ground (arith, length-drop_while test xs)

-- A lexer that has moved on over the same input.
abbrev pub Moved : Lexer → Bytes → Lexer → Type 0
Moved l rest m = IsAt m rest × (m.input ≡ l.input)

module _ (test : ℕ → Bool) (fuel : ℕ) (l : Lexer) where
  skip_while-stop : test l.ch ≡ false → skip_while test (suc fuel) l ≡ ok l
  unfolding skip_while
  skip_while-stop e = ground (arith, e)

  skip_while-go :
      test l.ch ≡ true → skip_while test (suc fuel) l ≡ skip_while test fuel (read_char l)
  unfolding skip_while
  skip_while-go e = ground (arith, e)

pub read_char-input : (l : Lexer) → (read_char l).input ≡ l.input
unfolding read_char
read_char-input l = refl

pub skip_while_lem :
    (test : ℕ → Bool) (fuel : ℕ) (l : Lexer) (xs : Bytes)
    → test 0 ≡ false
    → length xs < fuel
    → IsAt l xs
    → (m : Lexer) × (skip_while test fuel l ≡ ok m) × Moved l (drop_while test xs) m
skip_while_lem test zero l xs z f a = absurd (omega arith)
skip_while_lem test (suc fuel) l [] z f a =
    (l, skip_while-stop test fuel l (ap test a.byte ∙ z), (a, refl))
skip_while_lem test (suc fuel) l (c ∷ xs) z f a = elim (Bool-cases (test c)) [
  | inl go ↦
      let (m, e, moved) =
        skip_while_lem test fuel (read_char l) xs z (omega arith) (read_char-IsAt l c xs a) in
      (
        m,
        skip_while-go test fuel l (ap test a.byte ∙ go) ∙ e,
        (rw go moved.0, moved.1 ∙ read_char-input l),
      )
  | inr stop ↦ (l, skip_while-stop test fuel l (ap test a.byte ∙ stop), (rw stop a, refl))
]

-- What lies between two places is the slice between their positions.
pub slice-Moved :
    (l m : Lexer) (part rest : Bytes)
    → IsAt l (part ++ rest)
    → Moved l rest m
    → slice l.input l.pos m.pos ≡ ok part
unfolding slice
slice-Moved l m part rest a (b, same) = ground (arith, in_order, in_input, cut)
  where
    ends : l.pos + length part ≡ m.pos
    ends = omega (
      arith,
      length-IsAt l (part ++ rest) a,
      length-IsAt m rest b,
      length-append part rest,
      ap (length {A = ℕ}) same,
    )

    in_order : leb l.pos m.pos ≡ true
    in_order = ground (arith, ends)

    in_input : leb m.pos (length l.input) ≡ true
    in_input = ground (arith, b.inside, ap (length {A = ℕ}) same)

    cut : take (m.pos - l.pos) (drop l.pos l.input) ≡ part
    cut =
        ap (λ n. take n (drop l.pos l.input)) (omega (arith, ends))
        ∙ ap (take (length part)) a.left
        ∙ take-append_length part rest
