-- ===== src/Storage/Tree/Splice.antt =====
-- A row in which one subtree, the one that a key belongs to, is replaced by a row.
use mathlib.Core.Path.{subst}
use rawth.Base.{
  ℕ, ◌+◌, ◌≡◌, refl, sym, ap, ◌∙◌, false, List, [], ◌∷◌, ◌++◌, none, some, if◌then◌else◌, arith,
  Bool-cases, inl, inr, append_assoc,
}
use rawth.Bytes.{Bytes}
use rawth.Storage.Node.View.{Entry}
use rawth.Storage.Entries.{Bound, Above, AtMost, less, le_trans}
use rawth.Storage.Tree.Shape.{sum_row, concat_row, head_row, AllRow, OrderedRow, ChainedRow}
use rawth.Storage.Tree.Rows.{choose}

-- A row in front of another one, with a separator between them.
module _ {T : Type 0} (cs : List (T × Bytes)) (t : T) where
  pub sum_row-append :
      (f : T → ℕ) (front : List (T × Bytes)) (d : T) (k : Bytes)
      → sum_row f (front ++ ((d, k) ∷ cs)) t ≡ sum_row f front d + sum_row f cs t
  sum_row-append f [] d k = refl
  sum_row-append f ((b, m) ∷ front) d k = omega (arith, sum_row-append f front d k)

  pub concat_row-append :
      (f : T → List Entry) (front : List (T × Bytes)) (d : T) (k : Bytes)
      → concat_row f (front ++ ((d, k) ∷ cs)) t ≡ concat_row f front d ++ concat_row f cs t
  concat_row-append f [] d k = refl
  concat_row-append f ((b, m) ∷ front) d k =
      ap (λ es. f b ++ es) (concat_row-append f front d k)
      ∙ sym (append_assoc (f b) (concat_row f front d) (concat_row f cs t))

  pub head_row-append :
      (front : List (T × Bytes)) (d : T) (k : Bytes)
      → head_row (front ++ ((d, k) ∷ cs)) t ≡ head_row front d
  head_row-append [] d k = refl
  head_row-append ((b, m) ∷ front) d k = refl

  pub AllRow-append :
      (P : T → Type 0) (front : List (T × Bytes)) (d : T) (k : Bytes)
      → AllRow P front d
      → AllRow P cs t
      → AllRow P (front ++ ((d, k) ∷ cs)) t
  AllRow-append P [] d k h g = (h, g)
  AllRow-append P ((b, m) ∷ front) d k (p, h) g = (p, AllRow-append P front d k h g)

  pub AllRow-split :
      (P : T → Type 0) (front : List (T × Bytes)) (d : T) (k : Bytes)
      → AllRow P (front ++ ((d, k) ∷ cs)) t
      → AllRow P front d × AllRow P cs t
  AllRow-split P [] d k h = h
  AllRow-split P ((b, m) ∷ front) d k (p, h) =
      let (x, y) = AllRow-split P front d k h in ((p, x), y)

  AtMost-trans : (m k : Bytes) (hi : Bound) → less k m ≡ false → AtMost k hi → AtMost m hi
  AtMost-trans m k none a b = tt
  AtMost-trans m k (some hi) a b = le_trans m k hi a b

  Above-trans : (m k : Bytes) (lo : Bound) → Above lo m → less k m ≡ false → Above lo k
  Above-trans m k none a b = tt
  Above-trans m k (some lo) a b = le_trans lo m k a b

  pub OrderedRow-append :
      (P : Bound → Bound → T → Type 0) (lo hi : Bound) (front : List (T × Bytes)) (d : T)
      (k : Bytes)
      → OrderedRow P lo (some k) front d
      → Above lo k
      → AtMost k hi
      → OrderedRow P (some k) hi cs t
      → OrderedRow P lo hi (front ++ ((d, k) ∷ cs)) t
  OrderedRow-append P lo hi [] d k h a b g = (a, b, h, g)
  OrderedRow-append P lo hi ((c, m) ∷ front) d k (x, y, p, h) a b g =
      (x, AtMost-trans m k hi y b, p, OrderedRow-append P (some m) hi front d k h y b g)

  pub OrderedRow-split :
      (P : Bound → Bound → T → Type 0) (lo hi : Bound) (front : List (T × Bytes)) (d : T)
      (k : Bytes)
      → OrderedRow P lo hi (front ++ ((d, k) ∷ cs)) t
      → Above lo k × AtMost k hi × OrderedRow P lo (some k) front d × OrderedRow P (some k) hi cs t
  OrderedRow-split P lo hi [] d k h = h
  OrderedRow-split P lo hi ((c, m) ∷ front) d k (x, y, p, h) =
      let (a, b, f, g) = OrderedRow-split P (some m) hi front d k h in
      (Above-trans m k lo x a, b, (x, a, p, f), g)

  module _ (P : T → ℕ → Type 0) (first : T → ℕ) where
    pub ChainedRow-append :
        (after : ℕ) (front : List (T × Bytes)) (d : T) (k : Bytes)
        → ChainedRow P first front d (first (head_row cs t))
        → ChainedRow P first cs t after
        → ChainedRow P first (front ++ ((d, k) ∷ cs)) t after
    ChainedRow-append after [] d k h g = (h, g)
    ChainedRow-append after ((b, m) ∷ front) d k (p, h) g = (
      subst (λ x. P b (first x)) (sym (head_row-append front d k)) p,
      ChainedRow-append after front d k h g,
    )

    pub ChainedRow-split :
        (after : ℕ) (front : List (T × Bytes)) (d : T) (k : Bytes)
        → ChainedRow P first (front ++ ((d, k) ∷ cs)) t after
        → ChainedRow P first front d (first (head_row cs t)) × ChainedRow P first cs t after
    ChainedRow-split after [] d k h = h
    ChainedRow-split after ((b, m) ∷ front) d k (p, h) =
        let (x, y) = ChainedRow-split after front d k h in
        ((subst (λ z. P b (first z)) (head_row-append front d k) p, x), y)

-- The replacement `front`, `d` of the subtree of `key`.
module _ {T : Type 0} (key : Bytes) (front : List (T × Bytes)) (d : T) where
  unfoldable pub splice_cells : List (T × Bytes) → T → List (T × Bytes)
  splice_cells [] t = front
  splice_cells ((c, k) ∷ cs) t =
      if less key k then front ++ ((d, k) ∷ cs) else (c, k) ∷ splice_cells cs t

  unfoldable pub splice_last : List (T × Bytes) → T → T
  splice_last [] t = d
  splice_last ((c, k) ∷ cs) t = if less key k then t else splice_last cs t

  pub sum_row-splice :
      (f : T → ℕ) (cs : List (T × Bytes)) (t : T)
      → sum_row f (splice_cells cs t) (splice_last cs t) + f (choose key cs t)
        ≡ sum_row f cs t + sum_row f front d
  unfolding splice_cells splice_last choose
  sum_row-splice f [] t = omega arith
  sum_row-splice f ((c, k) ∷ cs) t = elim (Bool-cases (less key k)) [
    | inl e ↦ ground (arith, e, sum_row-append cs t f front d k)
    | inr e ↦ ground (arith, e, sum_row-splice f cs t)
  ]
