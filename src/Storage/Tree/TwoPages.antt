-- ===== src/Storage/Tree/TwoPages.antt =====
-- The end of a split: a new page is taken, and the two halves are written.
use rawth.Base.{
  Outcome, ℕ, ◌+◌, ◌<◌, ◌≡◌, ◌⊎◌, inl, inr, some, ltb, ltb→lt, ltb→ge, arith, ok, err, Bool-cases,
  refl,
}
use rawth.Bytes.{Bytes}
use rawth.Storage.Fault.{Fault, leaf_overflow, internal_overflow}
use rawth.Storage.Monad.{and_then}
use rawth.Storage.Node.{cell_area_size}
use rawth.Storage.Node.Pages.{overflow}
use rawth.Storage.Node.View.{View, leaf, internal, to_node, view_size, IsInRange}
use rawth.Storage.Store.{NodeStore, Observation, IsNodeStore, Allocates, Writes}
use rawth.Storage.Tree.{Split}

abbrev pub IsOverflow : Fault → Type 0
IsOverflow e = (e ≡ leaf_overflow) ⊎ (e ≡ internal_overflow)

pub overflow-IsOverflow : (v : View) → IsOverflow (overflow v)
overflow-IsOverflow (leaf es next) = inl refl
overflow-IsOverflow (internal cs last) = inr refl

module _ (store : NodeStore) (o : Observation store.State) (laws : IsNodeStore store o) where
  open store use {State, page_count}

  -- Both halves written, or one of them too large for a page.
  pub data Halves (s : State) (i : ℕ) (k : Bytes) (left right : View)
      (r : Outcome Fault Split × State) : Type 0 where
    written :
        (u₁ u₂ u₃ : State)
        → r ≡ (ok (some (k, page_count s)), u₃)
        → Allocates o page_count s u₁
        → Writes o page_count u₁ u₂ i left
        → Writes o page_count u₂ u₃ (page_count s) right
        → Halves s i k left right r
    too_large : (u : State) (e : Fault) → r ≡ (err e, u) → IsOverflow e → Halves s i k left right r

  unfoldable pub write_halves : State → ℕ → Bytes → (ℕ → View) → View → Outcome Fault Split × State
  write_halves s i k left right = and_then (store.allocate_page s) (λ new_id s₁.
      and_then (store.write_node i (to_node (left new_id)) s₁) (λ _ s₂.
        and_then (store.write_node new_id (to_node right) s₂)
          (λ _ s₃. (ok (some (k, new_id)), s₃))))

  module _ (s : State) (i : ℕ) (k : Bytes) (left : ℕ → View) (right : View) (ready : o.IsReady s)
      (room : page_count s + 1 < 4294967296) (own : i < page_count s)
      (left_range : IsInRange (left (page_count s))) (right_range : IsInRange right) where
    second_half :
        (u₁ u₂ : State)
        → store.allocate_page s ≡ (ok (page_count s), u₁)
        → Allocates o page_count s u₁
        → store.write_node i (to_node (left (page_count s))) u₁ ≡ (ok tt, u₂)
        → Writes o page_count u₁ u₂ i (left (page_count s))
        → Halves s i k (left (page_count s)) right (write_halves s i k left right)
    unfolding write_halves
    second_half u₁ u₂ e₁ a e₂ w = elim (Bool-cases (ltb cell_area_size (view_size right))) [
      | inl over ↦
          too_large u₂ (overflow right)
            (rw (e₁, e₂, laws.write_overflow u₂ (page_count s) right (ltb→lt _ _ over)))
            (overflow-IsOverflow right)
      | inr fits ↦
          let (u₃, e₃, w') =
            laws.write u₂ (page_count s) right w.ready (omega (arith, a.count, w.count)) right_range
              (ltb→ge _ _ fits) in
          written u₁ u₂ u₃ (rw (e₁, e₂, e₃)) a w w'
    ]

    pub write_halves_lem : Halves s i k (left (page_count s)) right (write_halves s i k left right)
    unfolding write_halves
    write_halves_lem =
        let (u₁, e₁, a) = laws.allocate s ready room in
        elim (Bool-cases (ltb cell_area_size (view_size (left (page_count s))))) [
          | inl over ↦
              too_large u₁ (overflow (left (page_count s)))
                (rw (e₁, laws.write_overflow u₁ i (left (page_count s)) (ltb→lt _ _ over)))
                (overflow-IsOverflow (left (page_count s)))
          | inr fits ↦
              let (u₂, e₂, w) =
                laws.write u₁ i (left (page_count s)) a.ready (omega (arith, a.count)) left_range
                  (ltb→ge _ _ fits) in
              second_half u₁ u₂ e₁ a e₂ w
        ]
