-- ===== src/Server/Frame/Masks.antt =====
-- internal/server/http.go: `^` on bytes is the exclusive or of numbers, and taking a mask off twice
-- gives back the bytes.
use Prim.Native.Nat.{bit_xor, digits, differ, bit_xor-bitwise}
use rawth.Base.{
  ℕ, zero, suc, ◌+◌, ◌*◌, ◌/◌, ◌%◌, ◌≤◌, ◌<◌, ◌≡◌, refl, sym, ap, ap₂, ◌∙◌, [], ◌∷◌, length, get_or,
  arith, All,
}
use rawth.Bytes.{Bytes, IsByte}
use rawth.Server.Frame.{xor, apply_mask}

-- A number of `n` bits
abbrev HasBits : ℕ → ℕ → Type 0
HasBits zero a = a ≡ 0
HasBits (suc n) a = HasBits n (a / 2)

HasBits-byte : (a : ℕ) → IsByte a → HasBits 8 a
HasBits-byte a h = omega (arith, h)

-- Exclusive or of two digits.
differ-mod : (x y : ℕ) → x < 2 → y < 2 → differ x y ≡ (x + y) % 2
differ-mod zero zero h k = refl
differ-mod zero (suc zero) h k = refl
differ-mod (suc zero) zero h k = refl
differ-mod (suc zero) (suc zero) h k = refl
differ-mod (suc (suc x)) y h k = absurd (omega (arith, h))
differ-mod zero (suc (suc y)) h k = absurd (omega (arith, k))
differ-mod (suc zero) (suc (suc y)) h k = absurd (omega (arith, k))

xor_zero : (n b : ℕ) → HasBits n b → xor n 0 b ≡ b
unfolding xor
xor_zero zero b h = sym h
xor_zero (suc n) b h = omega (arith, xor_zero n (b / 2) h)

digits-xor :
    (n fuel a b : ℕ)
    → HasBits n a
    → HasBits n b
    → a ≤ fuel
    → digits (λ z. z) differ fuel a b ≡ xor n a b
unfolding xor
digits-xor n zero zero b ha hb h = sym (xor_zero n b hb)
digits-xor n zero (suc a) b ha hb h = absurd (omega (arith, h))
digits-xor n (suc fuel) zero b ha hb h = sym (xor_zero n b hb)
digits-xor zero (suc fuel) (suc a) b ha hb h = absurd (omega (arith, ha))
digits-xor (suc n) (suc fuel) (suc a) b ha hb h = omega (
  arith,
  digits-xor n fuel (suc a / 2) (b / 2) ha hb (omega (arith, h)),
  differ-mod (suc a % 2) (b % 2) (omega arith) (omega arith),
)

pub xor-bit_xor : (a b : ℕ) → IsByte a → IsByte b → xor 8 a b ≡ bit_xor a b
xor-bit_xor a b ha hb =
    sym (
      bit_xor-bitwise a b
      ∙ digits-xor 8 a a b (HasBits-byte a ha) (HasBits-byte b hb) (omega arith))

low_bit : (r x : ℕ) → r < 2 → ((r + 2 * x) % 2 ≡ r) × ((r + 2 * x) / 2 ≡ x)
low_bit r x h = (omega (arith, h), omega (arith, h))

twice_bit : (a b : ℕ) → ((a % 2 + b % 2) % 2 + b % 2) % 2 ≡ a % 2
twice_bit a b = omega arith

xor-xor : (n a b : ℕ) → HasBits n a → xor n (xor n a b) b ≡ a
unfolding xor
xor-xor zero a b h = sym h
xor-xor (suc n) a b h =
    let r = (a % 2 + b % 2) % 2 in
    let x = xor n (a / 2) (b / 2) in
    ap₂ (λ u v. (u + b % 2) % 2 + 2 * xor n v (b / 2)) (low_bit r x (omega arith)).0
      (low_bit r x (omega arith)).1
    ∙ ap₂ (λ u v. u + 2 * v) (twice_bit a b) (xor-xor n (a / 2) (b / 2) h)
    ∙ omega arith

pub apply_mask_twice :
    (mask : Bytes) (i : ℕ) (bs : Bytes)
    → All IsByte bs
    → apply_mask mask i (apply_mask mask i bs) ≡ bs
unfolding apply_mask
apply_mask_twice mask i [] h = refl
apply_mask_twice mask i (b ∷ bs) (byte, h) =
    ap₂ (λ u v. u ∷ v) (xor-xor 8 b (get_or mask (i % 4) 0) (HasBits-byte b byte))
      (apply_mask_twice mask (i + 1) bs h)

pub length-apply_mask :
    (mask : Bytes) (i : ℕ) (bs : Bytes) → length (apply_mask mask i bs) ≡ length bs
unfolding apply_mask
length-apply_mask mask i [] = refl
length-apply_mask mask i (b ∷ bs) = ap suc (length-apply_mask mask (i + 1) bs)
