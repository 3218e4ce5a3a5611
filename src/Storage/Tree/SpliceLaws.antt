-- ===== src/Storage/Tree/SpliceLaws.antt =====
-- What holds of a row holds of the spliced row, if the replacement does what it should.
use mathlib.Core.Path.{subst}
use rawth.Base.{
  ℕ, ◌+◌, ◌≤◌, ◌≡◌, refl, sym, ap, ◌∙◌, true, false, List, [], ◌∷◌, ◌++◌, Option, some, arith,
  Bool-cases, inl, inr,
}
use rawth.Bytes.{Bytes}
use rawth.Storage.Node.View.{Entry}
use rawth.Storage.Entries.{Bound, Above, Below, InBounds, IsSorted, less}
use rawth.Storage.Entries.Concat.{change, change-append_left, change-append_right}
use rawth.Storage.Tree.Shape.{sum_row, concat_row, head_row, AllRow, OrderedRow, ChainedRow}
use rawth.Storage.Tree.Rows.{choose, choose-le, row_bounds}
use rawth.Storage.Tree.Placed.{AllRow-imp}
use rawth.Storage.Tree.Splice.{
  splice_cells, splice_last, AllRow-append, OrderedRow-append, concat_row-append, ChainedRow-append,
  head_row-append,
}

choose_nil : {T : Type 0} (key : Bytes) (t : T) → choose key [] t ≡ t
unfolding choose
choose_nil key t = refl

module _ {T : Type 0} (key : Bytes) (c : T) (k : Bytes) (cs : List (T × Bytes)) (t : T) where
  pub choose_here : less key k ≡ true → choose key ((c, k) ∷ cs) t ≡ c
  unfolding choose
  choose_here e = ground arith

  pub choose_later : less key k ≡ false → choose key ((c, k) ∷ cs) t ≡ choose key cs t
  unfolding choose
  choose_later e = ground arith

  module _ (front : List (T × Bytes)) (d : T) where
    pub splice_here :
        less key k ≡ true
        → (splice_cells key front d ((c, k) ∷ cs) t ≡ front ++ ((d, k) ∷ cs))
          × (splice_last key front d ((c, k) ∷ cs) t ≡ t)
    unfolding splice_cells splice_last
    splice_here e = (rw e, rw e)

    pub splice_later :
        less key k ≡ false
        → (splice_cells key front d ((c, k) ∷ cs) t ≡ (c, k) ∷ splice_cells key front d cs t)
          × (splice_last key front d ((c, k) ∷ cs) t ≡ splice_last key front d cs t)
    unfolding splice_cells splice_last
    splice_later e = (rw e, rw e)

module _ {T : Type 0} (key : Bytes) (front : List (T × Bytes)) (d : T) where
  -- The other subtrees keep `P` as `Q`; `f` tells them apart from the one that is replaced.
  pub AllRow-splice :
      (f : ℕ → T → ℕ) (P Q : T → Type 0) (cs : List (T × Bytes)) (t : T)
      → ((b : T) → ((j : ℕ) → f j b + f j (choose key cs t) ≤ sum_row (f j) cs t) → P b → Q b)
      → AllRow P cs t
      → AllRow Q front d
      → AllRow Q (splice_cells key front d cs t) (splice_last key front d cs t)
  unfolding splice_cells splice_last
  AllRow-splice f P Q [] t act h g = g
  AllRow-splice f P Q ((c, k) ∷ cs) t act (p, h) g = elim (Bool-cases (less key k)) [
    | inl e ↦ rw e (
        AllRow-append cs t Q front d k g (
          AllRow-imp f P Q cs t
            (λ b le. act b (λ j. omega (arith, le j, ap (f j) (choose_here key c k cs t e)))) h))
    | inr e ↦ rw e (
      act c (λ j. omega (arith, choose-le (f j) key cs t, ap (f j) (choose_later key c k cs t e)))
          p,
      AllRow-splice f P Q cs t
          (λ b le. act b (λ j. omega (arith, le j, ap (f j) (choose_later key c k cs t e)))) h g,
    )
  ]

  pub head_row-splice :
      (f : T → ℕ) (cs : List (T × Bytes)) (t : T)
      → f (head_row front d) ≡ f (choose key cs t)
      → f (head_row (splice_cells key front d cs t) (splice_last key front d cs t))
        ≡ f (head_row cs t)
  unfolding splice_cells splice_last
  head_row-splice f [] t e = e ∙ unfold choose in refl
  head_row-splice f ((c, k) ∷ cs) t e = elim (Bool-cases (less key k)) [
    | inl b ↦ rw b (ap f (head_row-append cs t front d k) ∙ e ∙ ap f (choose_here key c k cs t b))
    | inr b ↦ rw b refl
  ]

  pub ChainedRow-splice :
      (P : T → ℕ → Type 0) (first : T → ℕ) (cs : List (T × Bytes)) (t : T) (after : ℕ)
      → first (head_row front d) ≡ first (choose key cs t)
      → ((x : ℕ) → P (choose key cs t) x → ChainedRow P first front d x)
      → ChainedRow P first cs t after
      → ChainedRow P first (splice_cells key front d cs t) (splice_last key front d cs t) after
  unfolding splice_cells splice_last
  ChainedRow-splice P first [] t after same act h = act after (unfold choose in h)
  ChainedRow-splice P first ((c, k) ∷ cs) t after same act (p, h) = elim (Bool-cases (less key k)) [
    | inl e ↦ rw e (
        ChainedRow-append cs t P first after front d k
          (act (first (head_row cs t)) (rw (choose_here key c k cs t e) p)) h)
    | inr e ↦ rw e (
      subst (P c) (sym (head_row-splice first cs t (same ∙ ap first (choose_later key c k cs t e))))
          p,
      ChainedRow-splice P first cs t after (same ∙ ap first (choose_later key c k cs t e))
          (λ x q. act x (rw (choose_later key c k cs t e) q)) h,
    )
  ]

-- The order, and the entries.
module _ {T : Type 0} (P : Bound → Bound → T → Type 0) (es : T → List Entry)
    (bounds : (lo hi : Bound) (t : T) → P lo hi t → InBounds lo hi (es t))
    (sorted : (lo hi : Bound) (t : T) → P lo hi t → IsSorted (es t)) (key : Bytes)
    (value : Option Bytes) (front : List (T × Bytes)) (d : T) where
  -- What the replacement of `c` has to satisfy.
  abbrev pub Inserted : T → Type 0
  Inserted c =
      (lo hi : Bound)
      → P lo hi c
      → Above lo key
      → Below key hi
      → OrderedRow P lo hi front d × (concat_row es front d ≡ change key value (es c))

  pub OrderedRow-splice :
      (lo hi : Bound) (cs : List (T × Bytes)) (t : T)
      → OrderedRow P lo hi cs t
      → Above lo key
      → Below key hi
      → Inserted (choose key cs t)
      → OrderedRow P lo hi (splice_cells key front d cs t) (splice_last key front d cs t)
        × (concat_row es (splice_cells key front d cs t) (splice_last key front d cs t)
            ≡ change key value (concat_row es cs t))
  unfolding splice_cells splice_last
  OrderedRow-splice lo hi [] t h above below ins =
      subst Inserted (choose_nil key t) ins lo hi h above below
  OrderedRow-splice lo hi ((c, k) ∷ cs) t (a, b, p, h) above below ins =
      elim (Bool-cases (less key k)) [
        | inl e ↦
            let (o, q) = ins lo (some k) (rw (choose_here key c k cs t e) p) above e in
            rw e (
              OrderedRow-append cs t P lo hi front d k o a b h,
              concat_row-append cs t es front d k
                  ∙ ap (λ x. x ++ concat_row es cs t)
                      (q ∙ ap (λ x. change key value (es x)) (choose_here key c k cs t e))
                  ∙ sym (
                      change-append_left key k e hi value (es c) (concat_row es cs t)
                        (row_bounds P es bounds sorted (some k) hi cs t h)),
            )
        | inr e ↦
            let (o, q) =
              OrderedRow-splice (some k) hi cs t h e below
                (subst Inserted (choose_later key c k cs t e) ins) in
            rw e (
              (a, b, p, o),
              ap (λ x. es c ++ x) q
                  ∙ sym (
                      change-append_right key k e lo value (es c) (concat_row es cs t)
                        (bounds lo (some k) c p)),
            )
      ]
