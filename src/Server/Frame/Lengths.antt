-- ===== src/Server/Frame/Lengths.antt =====
-- internal/server/http.go: the length of a frame in its three forms.
use rawth.Base.{
  ℕ, zero, suc, ◌+◌, ◌*◌, ◌/◌, ◌%◌, ◌^◌, ◌<◌, ◌≡◌, refl, sym, ap, ◌∙◌, inl, inr, [], ◌∷◌, ◌++◌,
  length, take, drop, ltb, arith, Outcome, ok, Bool-cases, length-append, take-append_length,
  drop-append_length, ltb→lt, ◌>>=◌,
}
use rawth.Bytes.{Bytes}
use rawth.Server.Frame.{
  FrameError, read_full, big_endian_from, put_big_endian, as_length, read_length, put_length,
}

pub read_full-append :
    (xs ys : Bytes) (n : ℕ) → length xs ≡ n → read_full n (xs ++ ys) ≡ ok (xs, ys)
unfolding read_full
read_full-append xs ys n e = ground (
  arith,
  e,
  length-append xs ys,
  ap (λ m. take m (xs ++ ys)) (sym e) ∙ take-append_length xs ys,
  ap (λ m. drop m (xs ++ ys)) (sym e) ∙ drop-append_length xs ys,
)

big_endian_from-snoc :
    (acc : ℕ) (bs : Bytes) (b : ℕ)
    → big_endian_from acc (bs ++ (b ∷ [])) ≡ big_endian_from acc bs * 256 + b
big_endian_from-snoc acc [] b = refl
big_endian_from-snoc acc (c ∷ bs) b = big_endian_from-snoc (acc * 256 + c) bs b

-- A number of `k` bytes
abbrev pub HasBytes : ℕ → ℕ → Type 0
HasBytes zero n = n ≡ 0
HasBytes (suc k) n = HasBytes k (n / 256)

big_endian-put : (k n : ℕ) → HasBytes k n → big_endian_from 0 (put_big_endian k n) ≡ n
unfolding put_big_endian
big_endian-put zero n h = sym h
big_endian-put (suc k) n h =
    big_endian_from-snoc 0 (put_big_endian k (n / 256)) (n % 256)
    ∙ ap (λ m. m * 256 + n % 256) (big_endian-put k (n / 256) h)
    ∙ omega arith

length-put_big_endian : (k n : ℕ) → length (put_big_endian k n) ≡ k
unfolding put_big_endian
length-put_big_endian zero n = refl
length-put_big_endian (suc k) n =
    length-append (put_big_endian k (n / 256)) ((n % 256) ∷ [])
    ∙ omega (arith, length-put_big_endian k (n / 256))

HasBytes-two : (n : ℕ) → n < 65536 → HasBytes 2 n
HasBytes-two n h = omega (arith, h)

pub HasBytes-eight : (n : ℕ) → n < 2 ^ 64 → HasBytes 8 n
HasBytes-eight n h = omega (arith, h)

-- The first byte of a length that was put, and what stands behind it.
pub record PutLength (bit n : ℕ) : Type 0 where
  pub short : ℕ
  pub extension : Bytes
  pub small : short < 128
  pub put : put_length bit n ≡ (bit + short) ∷ extension
  pub read : (rest : Bytes) → read_length short (extension ++ rest) ≡ ok (n, rest)

pub extended :
    (k n : ℕ) (rest : Bytes)
    → HasBytes k n
    → (read_full k (put_big_endian k n ++ rest) >>= as_length) ≡ ok (n, rest)
extended k n rest h =
    ap (λ (r : Outcome FrameError (Bytes × Bytes)). r >>= as_length)
      (read_full-append (put_big_endian k n) rest k (length-put_big_endian k n))
    ∙ ap (λ (m : ℕ). ok (m, rest)) (big_endian-put k n h)

pub put_length_lem : (bit n : ℕ) → n < 2 ^ 63 → PutLength bit n
unfolding put_length read_length
put_length_lem bit n h = elim (Bool-cases (ltb n 126)) [
  | inl tiny ↦ record {
    short = n;
    extension = [];
    small = omega (arith, ltb→lt n 126 tiny);
    put = rw tiny refl;
    read = λ rest. ground (arith, ltb→lt n 126 tiny);
  }
  | inr more ↦ elim (Bool-cases (ltb n 65536)) [
    | inl medium ↦ record {
      short = 126;
      extension = put_big_endian 2 n;
      small = omega arith;
      put = rw (more, medium) refl;
      read = λ rest. extended 2 n rest (HasBytes-two n (ltb→lt n 65536 medium));
    }
    | inr large ↦ record {
      short = 127;
      extension = put_big_endian 8 n;
      small = omega arith;
      put = rw (more, large) refl;
      read = λ rest. extended 8 n rest (HasBytes-eight n (omega (arith, h)));
    }
  ]
]
