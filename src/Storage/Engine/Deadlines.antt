-- ===== src/Storage/Engine/Deadlines.antt =====
-- internal/storage/engine.go: what a client can see of a database when some keys are dead.
use rawth.Base.{
  ℕ, ◌≤◌, ◌≡◌, refl, ap, inl, inr, true, List, [], ◌∷◌, Option, none, some, if◌then◌else◌, arith,
  Bool-cases,
}
use rawth.Bytes.{Bytes, equal_bytes}
use rawth.Bytes.Order.{compare_bytes_refl, eq_of_compare}
use rawth.Storage.Node.View.{Entry, leaf_keys}
use rawth.Storage.Entries.{find, remove, IsSorted}
use rawth.Storage.Entries.Sorted.{find-remove}
use rawth.Storage.Engine.{Ttls, expiry_of, drop_ttl, set_ttl, is_dead, valid_keys}

-- The entries that are not dead.
abbrev pub visible : ℕ → Ttls → List Entry → List Entry
visible now ttls [] = []
visible now ttls ((k, v) ∷ es) =
    let rest = visible now ttls es in if is_dead now (expiry_of k ttls) then rest else (k, v) ∷ rest

pub equal_bytes-eq : (a b : Bytes) → equal_bytes a b ≡ true → a ≡ b
equal_bytes-eq a b e = ground (arith, e, eq_of_compare a b)

pub equal_bytes_refl : (a : Bytes) → equal_bytes a a ≡ true
equal_bytes_refl a = ground (arith, compare_bytes_refl a)

pub expiry_of-drop_ttl :
    (j k : Bytes) (ttls : Ttls)
    → expiry_of j (drop_ttl k ttls) ≡ (if equal_bytes k j then none else expiry_of j ttls)
unfolding expiry_of drop_ttl
expiry_of-drop_ttl j k [] = ground arith
expiry_of-drop_ttl j k ((i, t) ∷ ttls) = ground (
  arith,
  expiry_of-drop_ttl j k ttls,
  eq_of_compare i k,
  eq_of_compare i j,
  eq_of_compare k j,
  compare_bytes_refl j,
  compare_bytes_refl k,
)

pub expiry_of-set_ttl :
    (j k : Bytes) (t : ℕ) (ttls : Ttls)
    → expiry_of j (set_ttl k t ttls) ≡ (if equal_bytes k j then some t else expiry_of j ttls)
unfolding expiry_of
expiry_of-set_ttl j k t ttls = ground (arith, expiry_of-drop_ttl j k ttls)

pub find-visible :
    (j : Bytes) (now : ℕ) (ttls : Ttls) (es : List Entry)
    → find j (visible now ttls es) ≡ (if is_dead now (expiry_of j ttls) then none else find j es)
unfolding find
find-visible j now ttls [] = ground arith
find-visible j now ttls ((k, v) ∷ es) = elim (Bool-cases (equal_bytes k j)) [
  | inl same ↦ ground (
    arith,
    same,
    find-visible j now ttls es,
    ap (λ x. expiry_of x ttls) (equal_bytes-eq k j same),
  )
  | inr other ↦ ground (arith, other, find-visible j now ttls es)
]

pub valid_keys-visible :
    (now : ℕ) (ttls : Ttls) (es : List Entry)
    → valid_keys now ttls (leaf_keys es) ≡ leaf_keys (visible now ttls es)
valid_keys-visible now ttls [] = refl
valid_keys-visible now ttls ((k, v) ∷ es) = ground (arith, valid_keys-visible now ttls es)

-- What is dead stays dead.
pub is_dead-later :
    (now later : ℕ) (o : Option ℕ) → now ≤ later → is_dead now o ≡ true → is_dead later o ≡ true
is_dead-later now later none h d = cc
is_dead-later now later (some t) h d = ground (arith, h, d)

-- Two databases that look the same from a time on.
abbrev pub SameFrom : ℕ → Ttls → List Entry → Ttls → List Entry → Type 0
SameFrom now ttls es ttls' es' =
    (later : ℕ)
    → now ≤ later
    → (j : Bytes) → find j (visible later ttls' es') ≡ find j (visible later ttls es)

-- Burying a dead key cannot be seen.
pub buried-SameFrom :
    (now : ℕ) (key : Bytes) (ttls : Ttls) (es : List Entry)
    → IsSorted es
    → is_dead now (expiry_of key ttls) ≡ true
    → SameFrom now ttls es (drop_ttl key ttls) (remove key es)
buried-SameFrom now key ttls es sorted dead later h j = elim (Bool-cases (equal_bytes key j)) [
  | inl same ↦ ground (
    arith,
    find-visible j later (drop_ttl key ttls) (remove key es),
    find-visible j later ttls es,
    find-remove j key es sorted,
    same,
    is_dead-later now later (expiry_of key ttls) h dead,
    ap (λ x. expiry_of x ttls) (equal_bytes-eq key j same),
    expiry_of-drop_ttl j key ttls,
  )
  | inr other ↦ ground (
    arith,
    find-visible j later (drop_ttl key ttls) (remove key es),
    find-visible j later ttls es,
    find-remove j key es sorted,
    other,
    expiry_of-drop_ttl j key ttls,
  )
]
