-- ===== src/Storage/Tree/Ids.antt =====
-- The index arithmetic of `insertInternal` and `splitInternal`, as list operations on the cells.
use rawth.Base.{
  ℕ, suc, ◌+◌, ◌-◌, ◌≤◌, ◌<◌, ◌≡◌, refl, ap, List, [], ◌∷◌, ◌++◌, some, length, take, drop, get_or,
  get_elem?, ltb, if◌then◌else◌, arith, ok, length-append, lt→ltb,
}
use native.Mathlib.Numerals.{add-one}
use rawth.Bytes.{Bytes}
use rawth.Storage.Node.{make_internal_node}
use rawth.Storage.Node.View.{to_node, internal, cell_keys, cell_children}
use rawth.Storage.Tree.{insert_at, child_index, left_part, right_part}
use rawth.Storage.Tree.Shape.{ids_row}
use rawth.Storage.Tree.Rows.{choose}
use rawth.Storage.Tree.Splice.{splice_cells, splice_last}

module _ {T : Type 0} (f : T → ℕ) (key : Bytes) (l : T) (sk : Bytes) (r : T) where
  abbrev index : List (T × Bytes) → ℕ
  index cs = child_index key (cell_keys (ids_row f cs))

  abbrev after : List (T × Bytes) → T → List (ℕ × Bytes)
  after cs t = ids_row f (splice_cells key ((l, sk) ∷ []) r cs t)

  pub adopt_keys :
      (cs : List (T × Bytes)) (t : T)
      → insert_at (cell_keys (ids_row f cs)) (index cs) sk ≡ ok (cell_keys (after cs t))
  unfolding child_index insert_at splice_cells
  adopt_keys [] t = refl
  adopt_keys ((c, k) ∷ cs) t = ground (arith, adopt_keys cs t)

  -- The child that split is not the last one.
  pub adopt_children :
      (cs : List (T × Bytes)) (t : T)
      → f l ≡ f (choose key cs t)
      → index cs < length (cell_children (ids_row f cs))
      → (insert_at (cell_children (ids_row f cs)) (suc (index cs)) (f r)
          ≡ ok (cell_children (after cs t)))
        × (f t ≡ f (splice_last key ((l, sk) ∷ []) r cs t))
  unfolding child_index insert_at splice_cells splice_last choose
  adopt_children [] t e h = absurd (omega arith)
  adopt_children ((c, k) ∷ cs) t e h = ground (arith, adopt_children cs t)

  pub adopt_last :
      (cs : List (T × Bytes)) (t : T)
      → f l ≡ f (choose key cs t)
      → length (cell_children (ids_row f cs)) ≤ index cs
      → (cell_children (ids_row f cs) ++ (f t ∷ []) ≡ cell_children (after cs t))
        × (f r ≡ f (splice_last key ((l, sk) ∷ []) r cs t))
  unfolding child_index splice_cells splice_last choose
  adopt_last [] t e h = (ground (arith, e), refl)
  adopt_last ((c, k) ∷ cs) t e h = ground (arith, adopt_last cs t)

-- A child that did not split leaves the node as it is.
pub same_ids :
    {T : Type 0} (f : T → ℕ) (key : Bytes) (d : T) (cs : List (T × Bytes)) (t : T)
    → f d ≡ f (choose key cs t)
    → (ids_row f (splice_cells key [] d cs t) ≡ ids_row f cs)
      × (f (splice_last key [] d cs t) ≡ f t)
unfolding splice_cells splice_last choose
same_ids f key d [] t e = (refl, e)
same_ids f key d ((c, k) ∷ cs) t e = ground (arith, same_ids f key d cs t)

-- The halves of an internal node, cut at the cell of `k`.
module _ (c : ℕ) (k : Bytes) (back : List (ℕ × Bytes)) (last : ℕ) where
  pub keys_at :
      (front : List (ℕ × Bytes))
      → get_elem? (cell_keys (front ++ ((c, k) ∷ back))) (length front) ≡ some k
  keys_at [] = refl
  keys_at ((d, m) ∷ front) = keys_at front

  keys_front :
      (front : List (ℕ × Bytes))
      → take (length front) (cell_keys (front ++ ((c, k) ∷ back))) ≡ cell_keys front
  keys_front [] = refl
  keys_front ((d, m) ∷ front) = ap (λ x. m ∷ x) (keys_front front)

  keys_back :
      (front : List (ℕ × Bytes))
      → drop (suc (length front)) (cell_keys (front ++ ((c, k) ∷ back))) ≡ cell_keys back
  keys_back [] = refl
  keys_back ((d, m) ∷ front) = keys_back front

  children_front :
      (front : List (ℕ × Bytes))
      → take (suc (length front)) (cell_children (front ++ ((c, k) ∷ back)))
        ≡ cell_children front ++ (c ∷ [])
  children_front [] = refl
  children_front ((d, m) ∷ front) = ap (λ x. d ∷ x) (children_front front)

  children_back :
      (front : List (ℕ × Bytes))
      → drop (suc (length front)) (cell_children (front ++ ((c, k) ∷ back))) ≡ cell_children back
  children_back [] = refl
  children_back ((d, m) ∷ front) = children_back front

  length-children :
      (front : List (ℕ × Bytes))
      → length (cell_children (front ++ ((c, k) ∷ back)))
        ≡ length front + suc (length (cell_children back))
  length-children [] = omega arith
  length-children ((d, m) ∷ front) = omega (arith, length-children front)

pub length-cell_keys : (cs : List (ℕ × Bytes)) → length (cell_keys cs) ≡ length cs
length-cell_keys [] = refl
length-cell_keys ((c, k) ∷ cs) = ap suc (length-cell_keys cs)

length-cell_children : (cs : List (ℕ × Bytes)) → length (cell_children cs) ≡ length cs
length-cell_children [] = refl
length-cell_children ((c, k) ∷ cs) = ap suc (length-cell_children cs)

take_snoc : (xs : List ℕ) (c : ℕ) → take (length xs) (xs ++ (c ∷ [])) ≡ xs
take_snoc [] c = refl
take_snoc (x ∷ xs) c = ap (λ t. x ∷ t) (take_snoc xs c)

get_snoc : (xs : List ℕ) (c : ℕ) → get_or (xs ++ (c ∷ [])) (length xs) 0 ≡ c
get_snoc [] c = refl
get_snoc (x ∷ xs) c = get_snoc xs c

last_index : (xs : List ℕ) (c : ℕ) → length (xs ++ (c ∷ [])) - 1 ≡ length xs
last_index xs c = omega (arith, length-append xs (c ∷ []))

not_empty : (xs : List ℕ) (c : ℕ) → 0 < length (xs ++ (c ∷ []))
not_empty xs c = omega (arith, length-append xs (c ∷ []))

pick_back : (n : ℕ) (xs : List ℕ) → (if ltb (suc n) (n + suc (length xs)) then xs else []) ≡ xs
pick_back n [] = ground arith
pick_back n (x ∷ xs) = ground arith

module _ (front : List (ℕ × Bytes)) (c : ℕ) (k : Bytes) (back : List (ℕ × Bytes)) (last : ℕ) where
  pub left_part-eq :
      left_part (to_node (internal (front ++ ((c, k) ∷ back)) last)) (length front)
      ≡ to_node (internal front c)
  unfolding left_part to_node
  left_part-eq = rw (
    add-one,
    children_front c k back last front,
    keys_front c k back last front,
    last_index,
    lt→ltb _ _ (not_empty (cell_children front) c),
    take_snoc,
    get_snoc,
  )

  pub right_part-eq :
      right_part (to_node (internal (front ++ ((c, k) ∷ back)) last)) (length front)
      ≡ to_node (internal back last)
  unfolding right_part to_node make_internal_node
  right_part-eq = rw (
    add-one,
    keys_back c k back last front,
    children_back c k back last front,
    length-children c k back last front,
    pick_back,
  )
