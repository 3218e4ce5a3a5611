-- ===== src/Storage/Tree/Listing.antt =====
-- internal/storage/btree.go: `Keys`, `ForEach` and `Count`.
use rawth.Base.{
  ℕ, ◌+◌, ◌≡◌, refl, sym, ap, ◌∙◌, List, [], ◌∷◌, ◌++◌, arith, ok, length, append_assoc, Outcome,
}
use rawth.Bytes.{Bytes}
use rawth.Storage.Fault.{Fault}
use rawth.Storage.Monad.{and_then}
use rawth.Storage.Node.{Node}
use rawth.Storage.Node.View.{Entry, leaf, to_node, leaf_keys, leaf_values}
use rawth.Storage.Store.{NodeStore, Observation, IsNodeStore}
use rawth.Storage.Tree.{keys, count, for_each, find_leftmost_leaf, scan_leaves, visit_entries}
use rawth.Storage.Tree.Placed.{Kept-trans, Kept-Stored, Kept-InPages}
use rawth.Storage.Tree.Scan.{leaves-nodes, find_leftmost_leaf_lem, scan_leaves_lem}
use rawth.Storage.Tree.Contract.{Represents, Represents-Kept, fuel_enough}

leaf_keys-append : (xs ys : List Entry) → leaf_keys (xs ++ ys) ≡ leaf_keys xs ++ leaf_keys ys
leaf_keys-append [] ys = refl
leaf_keys-append ((k, v) ∷ xs) ys = ap (λ t. k ∷ t) (leaf_keys-append xs ys)

-- A callback that does not fail, over the entries in order.
abbrev pub fold_entries : {A : Type 0} → (A → Bytes → Bytes → A) → A → List Entry → A
fold_entries f acc [] = acc
fold_entries f acc ((k, v) ∷ es) = fold_entries f (f acc k v) es

fold_entries-append :
    {A : Type 0} (f : A → Bytes → Bytes → A) (acc : A) (xs ys : List Entry)
    → fold_entries f acc (xs ++ ys) ≡ fold_entries f (fold_entries f acc xs) ys
fold_entries-append f acc [] ys = refl
fold_entries-append f acc ((k, v) ∷ xs) ys = fold_entries-append f (f acc k v) xs ys

visit_entries-fold :
    {A : Type 0} (f : A → Bytes → Bytes → A) (acc : A) (es : List Entry)
    → visit_entries (λ a k v. ok (f a k v)) (leaf_keys es) (leaf_values es) acc
      ≡ ok (fold_entries f acc es)
unfolding visit_entries
visit_entries-fold f acc [] = refl
visit_entries-fold f acc ((k, v) ∷ es) = visit_entries-fold f (f acc k v) es

fold_entries-count : (n : ℕ) (es : List Entry) → fold_entries (λ c k v. c + 1) n es ≡ n + length es
fold_entries-count n [] = omega arith
fold_entries-count n ((k, v) ∷ es) = fold_entries-count (n + 1) es ∙ omega arith

module _ (store : NodeStore) (o : Observation store.State) (laws : IsNodeStore store o)
    (s : store.State) (es : List Entry) (r : Represents store o s es) where
  open store use {State, page_count}

  -- The way through the leaves that the methods share.
  module _ {A : Type 0} (visit : A → Node → Outcome Fault A) (step : A → List Entry → A)
      (visits : (acc : A) (xs : List Entry) (next : ℕ)
        → visit acc (to_node (leaf xs next)) ≡ ok (step acc xs))
      (steps : (acc : A) (xs ys : List Entry) → step acc (xs ++ ys) ≡ step (step acc xs) ys)
      (acc : A) where
    visit_all :
        (u : State) × (and_then
            (find_leftmost_leaf store (page_count s) (o.root s) s)
            (λ first. scan_leaves store visit (page_count s) first acc)
          ≡ (ok (step acc es), u))
        × Represents store o u es
    visit_all =
        let (u, e, k) =
          find_leftmost_leaf_lem store o laws r.height (page_count s) s r.tree
            (fuel_enough store o s es r) r.ready r.stored r.placed in
        let (v, q, k') =
          scan_leaves_lem store o laws visit step visits steps r.height (page_count s) u r.tree acc
            (omega (arith, leaves-nodes r.height r.tree, r.fits)) k.ready
            (Kept-Stored store o r.height r.tree k r.placed r.stored)
            (Kept-InPages store o r.height r.tree k r.placed) r.chained in
        (
          v,
          ap
                (λ i.
                  and_then (find_leftmost_leaf store (page_count s) i s)
                    (λ first. scan_leaves store visit (page_count s) first acc))
                r.at_root
              ∙ ap (λ x. and_then x (λ first. scan_leaves store visit (page_count s) first acc)) e
              ∙ q
              ∙ ap (λ x. (ok (step acc x), v)) r.same,
          Represents-Kept store o es (Kept-trans store o k k') r,
        )

  -- On a database that represents a list of entries, `Keys` returns the keys of the list in its
  -- order, and the database represents the same list afterwards.
  pub keys_lem : (u : State) × (keys store s ≡ (ok (leaf_keys es), u)) × Represents store o u es
  unfolding keys
  keys_lem =
      let (u, e, k) =
        visit_all (λ acc n. ok (acc ++ n.keys)) (λ acc xs. acc ++ leaf_keys xs)
          (λ acc xs next. unfold to_node in refl)
          (λ acc xs ys.
            ap (λ t. acc ++ t) (leaf_keys-append xs ys)
            ∙ sym (append_assoc acc (leaf_keys xs) (leaf_keys ys)))
          [] in
      (u, rw (laws.get_root s) e, k)

  -- On a database that represents a list of entries, `ForEach` with a callback that never fails
  -- calls it on every entry of the list in order, and the database represents the same list
  -- afterwards.
  pub for_each_lem :
      {A : Type 0} (f : A → Bytes → Bytes → A) (acc : A)
      → (u : State) × (for_each store (λ a k v. ok (f a k v)) acc s
          ≡ (ok (fold_entries f acc es), u))
        × Represents store o u es
  unfolding for_each
  for_each_lem f acc =
      let (u, e, k) =
        visit_all (λ a n. visit_entries (λ b j v. ok (f b j v)) n.keys n.values a) (fold_entries f)
          (λ a xs next. unfold to_node in visit_entries-fold f a xs) (fold_entries-append f) acc in
      (u, rw (laws.get_root s) e, k)

  -- On a database that represents a list of entries, `Count` returns the length of the list, and
  -- the database represents the same list afterwards.
  pub count_lem : (u : State) × (count store s ≡ (ok (length es), u)) × Represents store o u es
  unfolding count
  count_lem =
      let (u, e, k) = for_each_lem (λ c k v. c + 1) 0 in
      (u, e ∙ ap (λ n. (ok n, u)) (fold_entries-count 0 es ∙ zero_add (length es)), k)
    where
      zero_add : (n : ℕ) → 0 + n ≡ n
      zero_add n = omega arith
