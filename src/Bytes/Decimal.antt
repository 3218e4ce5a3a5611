-- ===== src/Bytes/Decimal.antt =====
-- Decimal numerals: Go's `%d` of a number that is not negative, and the value of a text of digits.
use rawth.Base.{
  ℕ, zero, suc, ◌+◌, ◌-◌, ◌*◌, ◌/◌, ◌%◌, ◌≤◌, ◌<◌, ◌≡◌, ◌≢◌, refl, ◌∙◌, inl, inr, [], ◌∷◌, ◌++◌,
  ltb, ltb→lt, ltb→ge, if◌then◌else◌, arith, All, Bool-cases,
}
use rawth.Bytes.{Bytes}

-- A step for each digit; the number itself is fuel enough.
unfoldable pub digits : ℕ → ℕ → Bytes
digits zero n = []
digits (suc fuel) n =
    let front = digits fuel (n / 10) in
    if ltb n 10 then (48 + n) ∷ [] else front ++ ((48 + n % 10) ∷ [])

unfoldable pub decimal : ℕ → Bytes
unfolding digits
decimal n = digits (suc n) n

abbrev pub value_from : ℕ → Bytes → ℕ
value_from acc [] = acc
value_from acc (c ∷ cs) = value_from (acc * 10 + (c - 48)) cs

abbrev pub IsDigit : ℕ → Type 0
IsDigit c = (48 ≤ c) × (c ≤ 57)

value_from-snoc :
    (acc : ℕ) (cs : Bytes) (c : ℕ)
    → value_from acc (cs ++ (c ∷ [])) ≡ value_from acc cs * 10 + (c - 48)
value_from-snoc acc [] c = refl
value_from-snoc acc (d ∷ cs) c = value_from-snoc (acc * 10 + (d - 48)) cs c

value-digits : (fuel n : ℕ) → n < fuel → value_from 0 (digits fuel n) ≡ n
unfolding digits
value-digits zero n h = absurd (omega arith)
value-digits (suc fuel) n h = elim (Bool-cases (ltb n 10)) [
  | inl small ↦ rw small (omega arith)
  | inr large ↦ rw large (
      value_from-snoc 0 (digits fuel (n / 10)) (48 + n % 10)
      ∙ omega (arith, value-digits fuel (n / 10) (omega (arith, ltb→ge n 10 large))))
]

pub value-decimal : (n : ℕ) → value_from 0 (decimal n) ≡ n
unfolding decimal
value-decimal n = value-digits (suc n) n (omega arith)

All-snoc : (cs : Bytes) (c : ℕ) → All IsDigit cs → IsDigit c → All IsDigit (cs ++ (c ∷ []))
All-snoc [] c h k = (k, tt)
All-snoc (d ∷ cs) c (a, h) k = (a, All-snoc cs c h k)

All-digits : (fuel n : ℕ) → All IsDigit (digits fuel n)
unfolding digits
All-digits zero n = tt
All-digits (suc fuel) n = elim (Bool-cases (ltb n 10)) [
  | inl small ↦ rw small ((omega arith, omega (arith, ltb→lt n 10 small)), tt)
  | inr large ↦ rw large (
      All-snoc (digits fuel (n / 10)) (48 + n % 10) (All-digits fuel (n / 10))
        (omega arith, omega arith))
]

pub All-decimal : (n : ℕ) → All IsDigit (decimal n)
unfolding decimal
All-decimal n = All-digits (suc n) n

snoc-not_empty : (cs : Bytes) (c : ℕ) → cs ++ (c ∷ []) ≢ []
snoc-not_empty [] c e = cc
snoc-not_empty (d ∷ cs) c e = cc

digits-not_empty : (fuel n : ℕ) → digits (suc fuel) n ≢ []
unfolding digits
digits-not_empty fuel n = elim (Bool-cases (ltb n 10)) [
  | inl small ↦ rw small (λ e. cc)
  | inr large ↦ rw large (snoc-not_empty (digits fuel (n / 10)) (48 + n % 10))
]

-- A numeral has a first digit.
pub decimal-not_empty : (n : ℕ) → decimal n ≢ []
unfolding decimal
decimal-not_empty n = digits-not_empty n n
