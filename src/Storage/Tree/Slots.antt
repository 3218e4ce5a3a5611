-- ===== src/Storage/Tree/Slots.antt =====
-- The loops of the leaf operations, by index, and the entries that they leave.
use rawth.Base.{
  ℕ, zero, suc, ◌≤◌, ◌≡◌, refl, ap, true, false, List, [], ◌∷◌, none, some, length, take, drop,
  arith, ok,
}
use rawth.Bytes.{Bytes}
use rawth.Storage.Node.View.{Entry, leaf_keys, leaf_values}
use rawth.Storage.Entries.{upsert, remove, find}
use rawth.Storage.Tree.{insert_at, set_at, remove_at, leaf_slot, leaf_find}

module _ (key value : Bytes) where
  pub slot_values :
      (es : List Entry)
      → (leaf_slot key (leaf_keys es)).1 ≡ true
      → set_at (leaf_values es) (leaf_slot key (leaf_keys es)).0 value
        ≡ ok (leaf_values (upsert key value es))
  unfolding leaf_slot set_at upsert
  slot_values [] h = cc
  slot_values ((k, v) ∷ es) h = ground (arith, slot_values es)

  pub slot_keys :
      (es : List Entry)
      → (leaf_slot key (leaf_keys es)).1 ≡ true
      → leaf_keys es ≡ leaf_keys (upsert key value es)
  unfolding leaf_slot upsert
  slot_keys [] h = cc
  slot_keys ((k, v) ∷ es) h = ground (arith, slot_keys es)

  pub slot_insert_keys :
      (es : List Entry)
      → (leaf_slot key (leaf_keys es)).1 ≡ false
      → insert_at (leaf_keys es) (leaf_slot key (leaf_keys es)).0 key
        ≡ ok (leaf_keys (upsert key value es))
  unfolding leaf_slot insert_at upsert
  slot_insert_keys [] h = refl
  slot_insert_keys ((k, v) ∷ es) h = ground (arith, slot_insert_keys es)

  pub slot_insert_values :
      (es : List Entry)
      → (leaf_slot key (leaf_keys es)).1 ≡ false
      → insert_at (leaf_values es) (leaf_slot key (leaf_keys es)).0 value
        ≡ ok (leaf_values (upsert key value es))
  unfolding leaf_slot insert_at upsert
  slot_insert_values [] h = refl
  slot_insert_values ((k, v) ∷ es) h = ground (arith, slot_insert_values es)

pub leaf_keys-take : (n : ℕ) (es : List Entry) → take n (leaf_keys es) ≡ leaf_keys (take n es)
leaf_keys-take zero es = refl
leaf_keys-take (suc n) [] = refl
leaf_keys-take (suc n) ((k, v) ∷ es) = ap (λ t. k ∷ t) (leaf_keys-take n es)

pub leaf_values-take : (n : ℕ) (es : List Entry) → take n (leaf_values es) ≡ leaf_values (take n es)
leaf_values-take zero es = refl
leaf_values-take (suc n) [] = refl
leaf_values-take (suc n) ((k, v) ∷ es) = ap (λ t. v ∷ t) (leaf_values-take n es)

pub leaf_keys-drop : (n : ℕ) (es : List Entry) → drop n (leaf_keys es) ≡ leaf_keys (drop n es)
leaf_keys-drop zero es = refl
leaf_keys-drop (suc n) [] = refl
leaf_keys-drop (suc n) ((k, v) ∷ es) = leaf_keys-drop n es

pub leaf_values-drop : (n : ℕ) (es : List Entry) → drop n (leaf_values es) ≡ leaf_values (drop n es)
leaf_values-drop zero es = refl
leaf_values-drop (suc n) [] = refl
leaf_values-drop (suc n) ((k, v) ∷ es) = leaf_values-drop n es

pub length-leaf_keys : (es : List Entry) → length (leaf_keys es) ≡ length es
length-leaf_keys [] = refl
length-leaf_keys ((k, v) ∷ es) = ap suc (length-leaf_keys es)

pub upsert-not-empty : (key value : Bytes) (es : List Entry) → 1 ≤ length (upsert key value es)
unfolding upsert
upsert-not-empty key value [] = omega arith
upsert-not-empty key value ((k, v) ∷ es) = ground arith

-- The loop of `deleteFromNode`: what it finds, and what is left.
pub find_removes :
    (key : Bytes) (es : List Entry) (i : ℕ)
    → leaf_find key (leaf_keys es) ≡ some i
    → (remove_at (leaf_keys es) i ≡ ok (leaf_keys (remove key es)))
      × (remove_at (leaf_values es) i ≡ ok (leaf_values (remove key es)))
unfolding leaf_find remove_at remove
find_removes key [] i h = cc
find_removes key ((k, v) ∷ es) zero h = ground arith
find_removes key ((k, v) ∷ es) (suc i) h = ground (arith, find_removes key es i)

pub find_misses :
    (key : Bytes) (es : List Entry)
    → leaf_find key (leaf_keys es) ≡ none
    → (remove key es ≡ es) × (find key es ≡ none)
unfolding leaf_find remove find
find_misses key [] h = (refl, refl)
find_misses key ((k, v) ∷ es) h = ground (arith, find_misses key es)
