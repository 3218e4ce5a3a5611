-- ===== src/Bytes.antt =====
-- Byte slices as lists of numbers, and what the source uses of Go's `encoding/binary` and `bytes`.
pub mod Words
pub mod Order
pub mod Text
pub mod Decimal
use rawth.Base.{
  ℕ, ◌+◌, ◌*◌, ◌/◌, ◌%◌, ◌<◌, List, [], ◌∷◌, get_or, compare, Ordering, Bool, true, false,
}
use Prim.Native.Nat.Ordering.{lt, eq, gt}

abbrev pub Bytes : Type 0
Bytes = List ℕ

abbrev pub IsByte : ℕ → Type 0
IsByte b = b < 256

abbrev pub IsU16 : ℕ → Type 0
IsU16 n = n < 65536

abbrev pub IsU32 : ℕ → Type 0
IsU32 n = n < 4294967296

-- `binary.LittleEndian.PutUint16`, with the conversion `uint16(n)` in the second remainder
unfoldable pub put_uint16 : ℕ → Bytes
put_uint16 n = (n % 256) ∷ (n / 256 % 256) ∷ []

-- `binary.LittleEndian.Uint16`; each use in the source stands behind a test that two bytes are left
unfoldable pub uint16 : Bytes → ℕ
uint16 b = get_or b 0 0 + get_or b 1 0 * 256

unfoldable pub put_uint32 : ℕ → Bytes
put_uint32 n = (n % 256) ∷ (n / 256 % 256) ∷ (n / 65536 % 256) ∷ (n / 16777216 % 256) ∷ []

unfoldable pub uint32 : Bytes → ℕ
uint32 b = get_or b 0 0 + get_or b 1 0 * 256 + get_or b 2 0 * 65536 + get_or b 3 0 * 16777216

-- `bytes.Compare`: lexicographic
unfoldable pub compare_bytes : Bytes → Bytes → Ordering
compare_bytes [] [] = eq
compare_bytes [] (b ∷ bs) = lt
compare_bytes (a ∷ as') [] = gt
compare_bytes (a ∷ as') (b ∷ bs) = elim (compare a b) [
  | lt ↦ lt
  | eq ↦ compare_bytes as' bs
  | gt ↦ gt
]

-- `bytes.Equal`
abbrev pub equal_bytes : Bytes → Bytes → Bool
equal_bytes a b = elim (compare_bytes a b) [ eq ↦ true | _ ↦ false ]
