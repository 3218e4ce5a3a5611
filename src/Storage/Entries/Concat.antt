-- ===== src/Storage/Entries/Concat.antt =====
-- Operations by key on a concatenation that a separator key cuts in two.
use rawth.Base.{◌≡◌, refl, ap, true, false, List, [], ◌∷◌, ◌++◌, Option, none, some, arith}
use rawth.Bytes.{Bytes}
use rawth.Storage.Node.View.{Entry}
use rawth.Storage.Entries.{
  find, upsert, remove, less, Bound, Above, Below, InBounds, less_of_less_le, compare_gt,
  equal_of_less, equal_of_more,
}

-- The key belongs behind the separator: the first part is passed over.
module _ (key sep : Bytes) (behind : less key sep ≡ false) where
  before_key : (lo : Bound) (k : Bytes) → Below k (some sep) → less k key ≡ true
  before_key lo k h = less_of_less_le k sep key h behind

  pub upsert-append_right :
      (lo : Bound) (value : Bytes) (front back : List Entry)
      → InBounds lo (some sep) front
      → upsert key value (front ++ back) ≡ front ++ upsert key value back
  unfolding upsert
  upsert-append_right lo value [] back h = refl
  upsert-append_right lo value ((k, v) ∷ front) back (a, b, h) =
      rw (compare_gt key k (before_key lo k b), upsert)
        (ap (λ t. (k, v) ∷ t) (upsert-append_right lo value front back h))

  pub find-append_right :
      (lo : Bound) (front back : List Entry)
      → InBounds lo (some sep) front
      → find key (front ++ back) ≡ find key back
  unfolding find
  find-append_right lo [] back h = refl
  find-append_right lo ((k, v) ∷ front) back (a, b, h) =
      ground (arith, equal_of_less k key (before_key lo k b), find-append_right lo front back h)

  pub remove-append_right :
      (lo : Bound) (front back : List Entry)
      → InBounds lo (some sep) front
      → remove key (front ++ back) ≡ front ++ remove key back
  unfolding remove
  remove-append_right lo [] back h = refl
  remove-append_right lo ((k, v) ∷ front) back (a, b, h) =
      ground (arith, equal_of_less k key (before_key lo k b), remove-append_right lo front back h)

-- The key belongs before the separator: the second part is untouched.
module _ (key sep : Bytes) (before : less key sep ≡ true) where
  behind_key : (k : Bytes) → Above (some sep) k → less key k ≡ true
  behind_key k h = less_of_less_le key sep k before h

  upsert-in_front :
      (hi : Bound) (value : Bytes) (back : List Entry)
      → InBounds (some sep) hi back
      → upsert key value back ≡ (key, value) ∷ back
  unfolding upsert
  upsert-in_front hi value [] h = refl
  upsert-in_front hi value ((k, v) ∷ back) (a, b, h) = ground (arith, behind_key k a)

  pub upsert-append_left :
      (hi : Bound) (value : Bytes) (front back : List Entry)
      → InBounds (some sep) hi back
      → upsert key value (front ++ back) ≡ upsert key value front ++ back
  unfolding upsert
  upsert-append_left hi value [] back h = upsert-in_front hi value back h
  upsert-append_left hi value ((k, v) ∷ front) back h =
      ground (arith, upsert-append_left hi value front back h)

  find_behind :
      (hi : Bound) (back : List Entry) → InBounds (some sep) hi back → find key back ≡ none
  unfolding find
  find_behind hi [] h = refl
  find_behind hi ((k, v) ∷ back) (a, b, h) =
      ground (arith, equal_of_more k key (behind_key k a), find_behind hi back h)

  pub find-append_left :
      (hi : Bound) (front back : List Entry)
      → InBounds (some sep) hi back
      → find key (front ++ back) ≡ find key front
  unfolding find
  find-append_left hi [] back h = find_behind hi back h
  find-append_left hi ((k, v) ∷ front) back h = ground (arith, find-append_left hi front back h)

  remove_behind :
      (hi : Bound) (back : List Entry) → InBounds (some sep) hi back → remove key back ≡ back
  unfolding remove
  remove_behind hi [] h = refl
  remove_behind hi ((k, v) ∷ back) (a, b, h) =
      ground (arith, equal_of_more k key (behind_key k a), remove_behind hi back h)

  pub remove-append_left :
      (hi : Bound) (front back : List Entry)
      → InBounds (some sep) hi back
      → remove key (front ++ back) ≡ remove key front ++ back
  unfolding remove
  remove-append_left hi [] back h = remove_behind hi back h
  remove-append_left hi ((k, v) ∷ front) back h = ground (arith, remove-append_left hi front back h)

-- What becomes of the entries when a key gets a value, or loses it.
abbrev pub change : Bytes → Option Bytes → List Entry → List Entry
change key (some value) es = upsert key value es
change key none es = remove key es

pub change-append_right :
    (key sep : Bytes)
    → less key sep ≡ false
    → (lo : Bound) (value : Option Bytes) (front back : List Entry) → InBounds lo (some sep) front
    → change key value (front ++ back) ≡ front ++ change key value back
change-append_right key sep e lo (some v) front back h =
    upsert-append_right key sep e lo v front back h
change-append_right key sep e lo none front back h = remove-append_right key sep e lo front back h

pub change-append_left :
    (key sep : Bytes)
    → less key sep ≡ true
    → (hi : Bound) (value : Option Bytes) (front back : List Entry) → InBounds (some sep) hi back
    → change key value (front ++ back) ≡ change key value front ++ back
change-append_left key sep e hi (some v) front back h =
    upsert-append_left key sep e hi v front back h
change-append_left key sep e hi none front back h = remove-append_left key sep e hi front back h
