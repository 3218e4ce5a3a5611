-- ===== src/Storage/Tree/Placed.antt =====
-- Trees on the pages of a store: where their nodes stand, and what keeps them there.
use rawth.Base.{ℕ, zero, suc, ◌≤◌, ◌<◌, refl, ◌∙◌, List, [], ◌∷◌, arith}
use rawth.Bytes.{Bytes}
use rawth.Storage.Node.View.{View}
use rawth.Storage.Store.{NodeStore, Observation, Keeps}
use rawth.Storage.Tree.Shape.{Tree, sum_row, AllRow, page_no, occurs, Stored}

module _ {T : Type 0} (f : ℕ → T → ℕ) (P Q : T → Type 0) where
  pub AllRow-imp :
      (cs : List (T × Bytes)) (t : T)
      → ((c : T) → ((j : ℕ) → f j c ≤ sum_row (f j) cs t) → P c → Q c)
      → AllRow P cs t
      → AllRow Q cs t
  AllRow-imp [] t act h = act t (λ j. omega arith) h
  AllRow-imp ((c, k) ∷ cs) t act (a, h) =
      (act c (λ j. omega arith) a, AllRow-imp cs t (λ d le p. act d (λ j. omega (arith, le j)) p) h)

pub occurs-page_no : (h : ℕ) (t : Tree h) → 1 ≤ occurs (page_no h t) h t
occurs-page_no zero t = ground arith
occurs-page_no (suc h) t = ground arith

module _ {State : Type 0} (o : Observation State) where
  -- What stays on the pages of a tree keeps the tree.
  pub Stored-mono :
      (s u : State) (h : ℕ) (t : Tree h)
      → ((j : ℕ) (v : View) → 1 ≤ occurs j h t → o.Holds s j v → o.Holds u j v)
      → Stored o s h t
      → Stored o u h t
  Stored-mono s u zero t keep (a, b) = (keep t.page _ (occurs-page_no zero t) a, b)
  Stored-mono s u (suc h) t keep (a, b) = (
    keep t.page _ (occurs-page_no (suc h) t) a,
    AllRow-imp (λ j. occurs j h) (Stored o s h) (Stored o u h) t.row.cells t.row.last
        (λ c le. Stored-mono s u h c (λ j v p. keep j v (omega (arith, le j)))) b,
  )

module _ (store : NodeStore) (o : Observation store.State) where
  open store use {State, page_count}

  abbrev pub Kept : State → State → Type 0
  Kept = Keeps o page_count

  -- Every node stands on a page that the database has, and not on the header's.
  abbrev pub InPages : State → (h : ℕ) → Tree h → Type 0
  InPages s h t = (j : ℕ) → 1 ≤ occurs j h t → (0 < j) × (j < page_count s)

  pub Kept-trans : {s t u : State} → Kept s t → Kept t u → Kept s u
  Kept-trans a b = record {
    nodes = λ j v p q h. b.nodes j v p (omega (arith, a.count)) (a.nodes j v p q h);
    root_same = b.root_same ∙ a.root_same;
    count = b.count ∙ a.count;
    ready = b.ready;
  }

  pub Kept-refl : {s : State} → o.IsReady s → Kept s s
  Kept-refl r = record { nodes = λ j v p q h. h; root_same = refl; count = refl; ready = r }

  pub Kept-Stored :
      {s u : State} (h : ℕ) (t : Tree h)
      → Kept s u
      → InPages s h t
      → Stored o s h t
      → Stored o u h t
  Kept-Stored {s} {u} h t k b = Stored-mono o s u h t (λ j v p. k.nodes j v (b j p).0 (b j p).1)

  pub Kept-InPages : {s u : State} (h : ℕ) (t : Tree h) → Kept s u → InPages s h t → InPages u h t
  Kept-InPages h t k b j p = omega (arith, k.count, b j p)
