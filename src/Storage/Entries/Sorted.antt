-- ===== src/Storage/Entries/Sorted.antt =====
-- Bounds and order of lists of entries under insertion and removal.
use rawth.Base.{◌≡◌, refl, true, false, List, [], ◌∷◌, ◌++◌, none, some, if◌then◌else◌, arith}
use rawth.Bytes.{Bytes, equal_bytes}
use rawth.Bytes.Order.{eq_of_compare, compare_bytes_refl, lt_of_gt}
use rawth.Storage.Node.View.{Entry}
use rawth.Storage.Entries.{
  find, upsert, remove, less, Bound, Above, Below, InBounds, HeadAbove, IsSorted, less_trans,
  less_of_less_le, le_of_less, equal_of_more,
}

pub InBounds-append :
    (lo hi : Bound) (xs ys : List Entry)
    → InBounds lo hi xs
    → InBounds lo hi ys
    → InBounds lo hi (xs ++ ys)
InBounds-append lo hi [] ys h k = k
InBounds-append lo hi ((i, v) ∷ xs) ys (a, b, h) k = (a, b, InBounds-append lo hi xs ys h k)

pub InBounds-upsert :
    (lo hi : Bound) (key value : Bytes) (es : List Entry)
    → Above lo key
    → Below key hi
    → InBounds lo hi es
    → InBounds lo hi (upsert key value es)
unfolding upsert
InBounds-upsert lo hi key value [] a b h = (a, b, tt)
InBounds-upsert lo hi key value ((k, v) ∷ es) a b h =
    ground (arith, InBounds-upsert lo hi key value es)

HeadAbove-upsert :
    (k key value : Bytes) (es : List Entry)
    → less k key ≡ true
    → HeadAbove k es
    → HeadAbove k (upsert key value es)
unfolding upsert
HeadAbove-upsert k key value [] a h = a
HeadAbove-upsert k key value ((i, v) ∷ es) a h = ground arith

pub IsSorted-upsert :
    (key value : Bytes) (es : List Entry) → IsSorted es → IsSorted (upsert key value es)
unfolding upsert
IsSorted-upsert key value [] h = (tt, tt)
IsSorted-upsert key value ((k, v) ∷ es) (a, h) = ground (
  arith,
  IsSorted-upsert key value es h,
  HeadAbove-upsert k key value es,
  lt_of_gt key k,
  eq_of_compare key k,
)

pub InBounds-remove :
    (lo hi : Bound) (key : Bytes) (es : List Entry)
    → InBounds lo hi es
    → InBounds lo hi (remove key es)
unfolding remove
InBounds-remove lo hi key [] h = tt
InBounds-remove lo hi key ((k, v) ∷ es) (a, b, h) = ground (arith, InBounds-remove lo hi key es h)

HeadAbove-trans :
    (j k : Bytes) (es : List Entry) → less j k ≡ true → HeadAbove k es → HeadAbove j es
HeadAbove-trans j k [] a h = tt
HeadAbove-trans j k ((i, v) ∷ es) a h = less_trans j k i a h

HeadAbove-remove :
    (j key : Bytes) (es : List Entry) → HeadAbove j es → IsSorted es → HeadAbove j (remove key es)
unfolding remove
HeadAbove-remove j key [] h s = tt
HeadAbove-remove j key ((k, v) ∷ es) h (a, s) = ground (arith, HeadAbove-trans j k es h a)

pub IsSorted-remove : (key : Bytes) (es : List Entry) → IsSorted es → IsSorted (remove key es)
unfolding remove
IsSorted-remove key [] h = tt
IsSorted-remove key ((k, v) ∷ es) (a, h) =
    ground (arith, IsSorted-remove key es h, HeadAbove-remove k key es a h)

-- A sorted list behind a key does not hold that key.
find-HeadAbove :
    (key : Bytes) (es : List Entry) → HeadAbove key es → IsSorted es → find key es ≡ none
unfolding find
find-HeadAbove key [] a h = refl
find-HeadAbove key ((k, v) ∷ es) a (b, h) =
    ground (arith, find-HeadAbove key es (HeadAbove-trans key k es a b) h, equal_of_more k key a)

pub find-remove :
    (j key : Bytes) (es : List Entry)
    → IsSorted es
    → find j (remove key es) ≡ (if equal_bytes key j then none else find j es)
unfolding find remove
find-remove j key [] h = ground arith
find-remove j key ((k, v) ∷ es) (a, h) = ground (
  arith,
  find-remove j key es h,
  find-HeadAbove k es a h,
  eq_of_compare k key,
  eq_of_compare k j,
  eq_of_compare key j,
  compare_bytes_refl j,
  compare_bytes_refl k,
)

HeadAbove-sep :
    (k sep : Bytes) (hi : Bound) (ys : List Entry)
    → less k sep ≡ true
    → InBounds (some sep) hi ys
    → HeadAbove k ys
HeadAbove-sep k sep hi [] a h = tt
HeadAbove-sep k sep hi ((i, v) ∷ ys) a (b, c, h) = less_of_less_le k sep i a b

HeadAbove-append :
    (k : Bytes) (xs ys : List Entry) → HeadAbove k xs → HeadAbove k ys → HeadAbove k (xs ++ ys)
HeadAbove-append k [] ys a b = b
HeadAbove-append k ((i, v) ∷ xs) ys a b = a

-- Two sorted lists with a separator between them.
pub IsSorted-append :
    (lo hi : Bound) (sep : Bytes) (xs ys : List Entry)
    → InBounds lo (some sep) xs
    → InBounds (some sep) hi ys
    → IsSorted xs
    → IsSorted ys
    → IsSorted (xs ++ ys)
IsSorted-append lo hi sep [] ys h k s t = t
IsSorted-append lo hi sep ((i, v) ∷ xs) ys (a, b, h) k (c, s) t = (
  HeadAbove-append i xs ys c (HeadAbove-sep i sep hi ys b k),
  IsSorted-append lo hi sep xs ys h k s t,
)

-- In a sorted list every later key is above an earlier one.
InBounds-behind :
    (k : Bytes) (lo hi : Bound) (ys : List Entry)
    → HeadAbove k ys
    → IsSorted ys
    → InBounds lo hi ys
    → InBounds (some k) hi ys
InBounds-behind k lo hi [] a s h = tt
InBounds-behind k lo hi ((i, v) ∷ ys) a (b, s) (c, d, h) =
    (le_of_less k i a, d, InBounds-behind k lo hi ys (HeadAbove-trans k i ys a b) s h)

before_later :
    (i k v : Bytes) (xs ys : List Entry)
    → HeadAbove i (xs ++ ((k, v) ∷ ys))
    → IsSorted (xs ++ ((k, v) ∷ ys))
    → less i k ≡ true
before_later i k v [] ys a s = a
before_later i k v ((j, w) ∷ xs) ys a (b, s) = less_trans i j k a (before_later j k v xs ys b s)

less_irrefl : (k : Bytes) → less k k ≡ false
less_irrefl k = ground (arith, compare_bytes_refl k)

-- A cut of a sorted list, before the entry of `k`.
pub record Cut (lo hi : Bound) (k : Bytes) (front back : List Entry) : Type 0 where
  pub above : Above lo k
  pub below : Below k hi
  pub front_bounds : InBounds lo (some k) front
  pub back_bounds : InBounds (some k) hi back
  pub front_sorted : IsSorted front
  pub back_sorted : IsSorted back

pub Cut-IsSorted :
    (lo hi : Bound) (k v : Bytes) (xs ys : List Entry)
    → InBounds lo hi (xs ++ ((k, v) ∷ ys))
    → IsSorted (xs ++ ((k, v) ∷ ys))
    → Cut lo hi k xs ((k, v) ∷ ys)
Cut-IsSorted lo hi k v [] ys (a, b, h) (c, s) = record {
  above = a;
  below = b;
  front_bounds = tt;
  back_bounds = (less_irrefl k, b, InBounds-behind k lo hi ys c s h);
  front_sorted = tt;
  back_sorted = (c, s);
}
Cut-IsSorted lo hi k v ((i, w) ∷ xs) ys (a, b, h) (c, s) =
    let rest = Cut-IsSorted lo hi k v xs ys h s in
    record {
      above = rest.above;
      below = rest.below;
      front_bounds = (a, before_later i k v xs ys c s, rest.front_bounds);
      back_bounds = rest.back_bounds;
      front_sorted = (front_head xs c, rest.front_sorted);
      back_sorted = rest.back_sorted;
    }
  where
    front_head : (zs : List Entry) → HeadAbove i (zs ++ ((k, v) ∷ ys)) → HeadAbove i zs
    front_head [] x = tt
    front_head ((j, u) ∷ zs) x = x
