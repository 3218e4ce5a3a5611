-- ===== src/Storage/Entries.antt =====
-- The abstract view of a database: a list of entries in ascending order of keys, each key once.
-- Lookup, insertion and removal by key, and how they pass over a concatenation.
pub mod Concat
pub mod Sorted
use rawth.Base.{
  ℕ, ◌≡◌, refl, sym, ◌∙◌, ap, Bool, true, false, List, [], ◌∷◌, ◌++◌, Option, none, some,
  if◌then◌else◌, arith,
}
use Prim.Native.Nat.Ordering.{lt, eq, gt}
use rawth.Bytes.{Bytes, compare_bytes, equal_bytes}
use rawth.Bytes.Order.{compare_bytes_refl, eq_of_compare, lt_of_gt, gt_of_lt, compare_trans}
use rawth.Storage.Node.View.{Entry}

unfoldable pub find : Bytes → List Entry → Option Bytes
find key [] = none
find key ((k, v) ∷ es) = if equal_bytes k key then some v else find key es

unfoldable pub upsert : Bytes → Bytes → List Entry → List Entry
upsert key value [] = (key, value) ∷ []
upsert key value ((k, v) ∷ es) = elim (compare_bytes key k) [
  | eq ↦ (k, value) ∷ es
  | lt ↦ (key, value) ∷ ((k, v) ∷ es)
  | gt ↦ (k, v) ∷ upsert key value es
]

unfoldable pub remove : Bytes → List Entry → List Entry
remove key [] = []
remove key ((k, v) ∷ es) = if equal_bytes k key then es else (k, v) ∷ remove key es

abbrev pub less : Bytes → Bytes → Bool
less a b = elim (compare_bytes a b) [ lt ↦ true | _ ↦ false ]

-- Bounds on keys: the lower one included, the upper one not; `none` is no bound.
abbrev pub Bound : Type 0
Bound = Option Bytes

abbrev pub Above : Bound → Bytes → Type 0
Above none k = Unit
Above (some lo) k = less k lo ≡ false

abbrev pub Below : Bytes → Bound → Type 0
Below k none = Unit
Below k (some hi) = less k hi ≡ true

-- A separator may reach the upper bound.
abbrev pub AtMost : Bytes → Bound → Type 0
AtMost k none = Unit
AtMost k (some hi) = less hi k ≡ false

abbrev pub InBounds : Bound → Bound → List Entry → Type 0
InBounds lo hi [] = Unit
InBounds lo hi ((k, v) ∷ es) = Above lo k × Below k hi × InBounds lo hi es

abbrev pub HeadAbove : Bytes → List Entry → Type 0
HeadAbove k [] = Unit
HeadAbove k ((j, v) ∷ es) = less k j ≡ true

-- Strictly ascending keys.
abbrev pub IsSorted : List Entry → Type 0
IsSorted [] = Unit
IsSorted ((k, v) ∷ es) = HeadAbove k es × IsSorted es

pub find-upsert :
    (j k v : Bytes) (es : List Entry)
    → find j (upsert k v es) ≡ (if equal_bytes k j then some v else find j es)
unfolding find upsert
find-upsert j k v [] = refl
find-upsert j k v ((i, w) ∷ es) = ground (
  arith,
  find-upsert j k v es,
  eq_of_compare k i,
  eq_of_compare k j,
  eq_of_compare i j,
  compare_bytes_refl j,
  compare_bytes_refl k,
)

pub less_trans : (a b c : Bytes) → less a b ≡ true → less b c ≡ true → less a c ≡ true
less_trans a b c h k = ground (arith, compare_trans a b c)

pub less_of_less_le : (a b c : Bytes) → less a b ≡ true → less c b ≡ false → less a c ≡ true
less_of_less_le a b c h k = ground (arith, compare_trans a b c, lt_of_gt c b, eq_of_compare c b)

pub less_of_le_less : (a b c : Bytes) → less b a ≡ false → less b c ≡ true → less a c ≡ true
less_of_le_less a b c h k = ground (arith, compare_trans a b c, lt_of_gt b a, eq_of_compare b a)

pub le_trans : (a b c : Bytes) → less b a ≡ false → less c b ≡ false → less c a ≡ false
le_trans a b c h k = ground (arith, compare_trans c a b, lt_of_gt b a, eq_of_compare b a)

pub le_of_less : (a b : Bytes) → less a b ≡ true → less b a ≡ false
le_of_less a b h = ground (arith, gt_of_lt a b)

pub compare_gt : (a b : Bytes) → less b a ≡ true → compare_bytes a b ≡ gt
compare_gt a b h = ground (arith, gt_of_lt b a)

pub equal_of_less : (a b : Bytes) → less a b ≡ true → equal_bytes a b ≡ false
equal_of_less a b h = ground arith

pub equal_of_more : (a b : Bytes) → less b a ≡ true → equal_bytes a b ≡ false
equal_of_more a b h = ground (arith, gt_of_lt b a)

pub AtMost-of_below : (k : Bytes) (hi : Bound) → Below k hi → AtMost k hi
AtMost-of_below k none b = tt
AtMost-of_below k (some hi) b = le_of_less k hi b
