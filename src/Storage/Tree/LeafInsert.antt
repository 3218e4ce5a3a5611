-- ===== src/Storage/Tree/LeafInsert.antt =====
-- internal/storage/btree.go: `insertLeaf` and `splitLeaf` on a leaf of a tree.
use rawth.Base.{
  ℕ, zero, ◌+◌, ◌/◌, ◌≤◌, ◌<◌, ◌≡◌, refl, sym, ap, ◌∙◌, inl, inr, true, false, List, [], ◌∷◌, ◌++◌,
  none, some, length, take, drop, ltb, ltb→lt, ltb→ge, ge→ltb, lt→ltb, arith, ok, Bool-cases,
  take-append-drop, length-drop,
}
use rawth.Bytes.{Bytes}
use rawth.Storage.Fault.{leaf_overflow}
use rawth.Storage.Monad.{and_then}
use rawth.Storage.Node.{cell_area_size, leaf_node_size, make_leaf_node}
use rawth.Storage.Node.Cells.{leaf_node_size-leaf_size}
use rawth.Storage.Node.Pages.{leaf_lengths, leaf_size-entries}
use rawth.Storage.Node.View.{Entry, leaf, to_node, leaf_keys, leaf_values, entries_size, view_size}
use rawth.Storage.Entries.{Bound, Above, Below, InBounds, IsSorted, upsert, AtMost-of_below}
use rawth.Storage.Entries.Sorted.{InBounds-upsert, IsSorted-upsert, Cut-IsSorted, Cut}
use rawth.Storage.Store.{NodeStore, Observation, IsNodeStore, Allocates, Writes}
use rawth.Storage.Tree.{leaf_slot, insert_leaf, split_leaf}
use rawth.Storage.Tree.Shape.{LeafPage, Stored, view}
use rawth.Storage.Tree.Placed.{InPages, occurs-page_no}
use rawth.Storage.Tree.Slots.{
  slot_values, slot_keys, slot_insert_keys, slot_insert_values, leaf_keys-take, leaf_values-take,
  leaf_keys-drop, leaf_values-drop, length-leaf_keys, upsert-not-empty,
}
use rawth.Storage.Tree.TwoPages.{Halves, written, too_large, write_halves, write_halves_lem}
use rawth.Storage.Tree.Grown.{Replaced, Inserts, kept, split, overflow}

leaf_node_size-entries :
    (es : List Entry) → leaf_node_size (leaf_keys es) (leaf_values es) ≡ ok (entries_size es)
leaf_node_size-entries es =
    leaf_node_size-leaf_size (leaf_keys es) (leaf_values es) (leaf_lengths es)
    ∙ ap ok (leaf_size-entries es)

module _ (store : NodeStore) (key value : Bytes) (i next : ℕ) (es : List Entry) where
  open store use {State}

  -- The update of a key that is there is one write.
  update-eq :
      (s : State)
      → (leaf_slot key (leaf_keys es)).1 ≡ true
      → insert_leaf store i (to_node (leaf es next)) key value s
        ≡ and_then
            (store.write_node i (to_node (leaf (upsert key value es) next)) s)
            (λ _ u. (ok none, u))
  unfolding insert_leaf to_node
  update-eq s found = rw (found, slot_values key value es found, slot_keys key value es found)

  insert-fits-eq :
      (s : State)
      → (leaf_slot key (leaf_keys es)).1 ≡ false
      → entries_size (upsert key value es) ≤ cell_area_size
      → insert_leaf store i (to_node (leaf es next)) key value s
        ≡ and_then
            (store.write_node i (to_node (leaf (upsert key value es) next)) s)
            (λ _ u. (ok none, u))
  unfolding insert_leaf to_node
  insert-fits-eq s new fits = rw (
    new,
    slot_insert_keys key value es new,
    slot_insert_values key value es new,
    leaf_node_size-entries (upsert key value es),
    ge→ltb _ _ fits,
  )

  insert-splits-eq :
      (s : State)
      → (leaf_slot key (leaf_keys es)).1 ≡ false
      → cell_area_size < entries_size (upsert key value es)
      → insert_leaf store i (to_node (leaf es next)) key value s
        ≡ split_leaf store i (to_node (leaf (upsert key value es) next)) s
  unfolding insert_leaf to_node
  insert-splits-eq s new over = rw (
    new,
    slot_insert_keys key value es new,
    slot_insert_values key value es new,
    leaf_node_size-entries (upsert key value es),
    lt→ltb _ _ over,
  )

module _ (store : NodeStore) (o : Observation store.State) (laws : IsNodeStore store o) (i next : ℕ)
    (es : List Entry) where
  open store use {State}

  -- The two halves, cut by the number of entries.
  split-eq :
      (s : State) (k v : Bytes) (back : List Entry)
      → drop (length es / 2) es ≡ (k, v) ∷ back
      → split_leaf store i (to_node (leaf es next)) s
        ≡ write_halves store o laws s i k
            (λ id. leaf (take (length es / 2) es) id)
            (leaf ((k, v) ∷ back) next)
  unfolding split_leaf to_node make_leaf_node write_halves
  split-eq s k v back cut = rw (
    length-leaf_keys es,
    leaf_keys-take (length es / 2) es,
    leaf_values-take (length es / 2) es,
    leaf_keys-drop (length es / 2) es,
    leaf_values-drop (length es / 2) es,
    cut,
  )

-- A list with at least one entry, cut in the middle, has an entry behind the cut.
middle :
    (es : List Entry)
    → 1 ≤ length es
    → (k v : Bytes) × (back : List Entry) × (drop (length es / 2) es ≡ (k, v) ∷ back)
middle es h = go (drop (length es / 2) es) refl
  where
    go :
        (xs : List Entry)
        → drop (length es / 2) es ≡ xs
        → (k v : Bytes) × (back : List Entry) × (drop (length es / 2) es ≡ (k, v) ∷ back)
    go [] e = absurd (omega (arith, ap length e, length-drop (length es / 2) es))
    go ((k, v) ∷ back) e = (k, v, back, e)

module _ (store : NodeStore) (o : Observation store.State) (laws : IsNodeStore store o)
    (key value : Bytes) (s : store.State) (t : LeafPage) (ready : o.IsReady s)
    (stored : Stored o s zero t) (placed : InPages store o s zero t) where
  open store use {State, page_count}

  own_page : (0 < t.page) × (t.page < page_count s)
  own_page = placed t.page (occurs-page_no zero t)

  abbrev pub Result : Type 0
  Result =
      Inserts store o key value
        (insert_leaf store t.page (to_node (leaf t.entries t.next)) key value) s zero t

  -- The leaf fits: it is written back.
  write_back :
      insert_leaf store t.page (to_node (leaf t.entries t.next)) key value s
        ≡ and_then
            (store.write_node t.page (to_node (leaf (upsert key value t.entries) t.next)) s)
            (λ _ u. (ok none, u))
      → entries_size (upsert key value t.entries) ≤ cell_area_size
      → Result
  unfolding view_size
  write_back e fits =
      let v = leaf (upsert key value t.entries) t.next in
      let (u, w, done) = laws.write s t.page v ready own_page.1 stored.1 fits in
      kept u (record { page = t.page; entries = upsert key value t.entries; next = t.next })
        (e ∙ rw w)
        (record {
          head = refl;
          first = refl;
          stored = (done.node, stored.1);
          ordered = λ lo hi (b, c) above below. (
            (
              InBounds-upsert lo hi key value t.entries above below b,
              IsSorted-upsert key value t.entries c,
            ),
            refl,
          );
          chained = λ after h. h;
          old_pages = λ j h. refl;
          new_pages = λ j h. ground (arith, own_page);
          node_count = omega (arith, done.count);
          frame =
              λ j w' p q away holds. done.nodes j w' p q (λ same. ground (arith, away, same)) holds;
          grows = omega (arith, done.count);
          root_same = done.root_same;
          ready = done.ready;
        })

  write_back_overflow :
      insert_leaf store t.page (to_node (leaf t.entries t.next)) key value s
        ≡ and_then
            (store.write_node t.page (to_node (leaf (upsert key value t.entries) t.next)) s)
            (λ _ u. (ok none, u))
      → cell_area_size < entries_size (upsert key value t.entries)
      → Result
  unfolding view_size
  write_back_overflow e over =
      overflow s leaf_overflow
        (e ∙ rw (laws.write_overflow s t.page (leaf (upsert key value t.entries) t.next) over))
        (inl refl)

  -- The leaf is cut before the entry of `k`.
  module _ (room : page_count s + 1 < 4294967296) (front back : List Entry) (k v : Bytes)
      (cut : upsert key value t.entries ≡ front ++ ((k, v) ∷ back)) where
    left : LeafPage
    left = record { page = t.page; entries = front; next = page_count s }

    right : LeafPage
    right = record { page = page_count s; entries = (k, v) ∷ back; next = t.next }

    halves_ordered :
        (lo hi : Bound)
        → InBounds lo hi t.entries × IsSorted t.entries
        → Above lo key
        → Below key hi
        → Cut lo hi k front ((k, v) ∷ back)
    halves_ordered lo hi (b, c) above below =
        Cut-IsSorted lo hi k v front back
          (rw cut at (InBounds-upsert lo hi key value t.entries above below b))
          (rw cut at (IsSorted-upsert key value t.entries c))

    halves_replace :
        (u₁ u₂ u₃ : State)
        → Allocates o page_count s u₁
        → Writes o page_count u₁ u₂ t.page (view zero left)
        → Writes o page_count u₂ u₃ (page_count s) (view zero right)
        → Replaced store o key (some value) s u₃ zero t ((left, k) ∷ []) right
    unfolding left right
    halves_replace u₁ u₂ u₃ a w₁ w₂ = record {
      head = refl;
      first = refl;
      stored = (
        (
          w₂.nodes t.page _ own_page.0 (omega (arith, own_page, w₁.count, a.count))
              (omega (arith, own_page)) w₁.node,
          omega arith,
        ),
        (w₂.node, stored.1),
      );
      ordered = λ lo hi w above below.
          let c = halves_ordered lo hi w above below in
          (
            (
              c.above,
              AtMost-of_below k hi c.below,
              (c.front_bounds, c.front_sorted),
              (c.back_bounds, c.back_sorted),
            ),
            sym cut,
          );
      chained = λ after h. (refl, h);
      old_pages = λ j h. ground (arith, own_page);
      new_pages = λ j h. ground (arith, own_page, a.count, w₁.count, w₂.count);
      node_count = omega (arith, a.count, w₁.count, w₂.count);
      frame = λ j w p q away holds.
          w₂.nodes j w p (omega (arith, a.count, w₁.count)) (omega arith) (
            w₁.nodes j w p (omega (arith, a.count)) (λ same. ground (arith, away, same))
              (a.nodes j w p q holds));
      grows = omega (arith, a.count, w₁.count, w₂.count);
      root_same = w₂.root_same ∙ w₁.root_same ∙ a.root_same;
      ready = w₂.ready;
    }

    -- The halves that `splitLeaf` writes, if each fits on a page.
    split_result :
        insert_leaf store t.page (to_node (leaf t.entries t.next)) key value s
          ≡ write_halves store o laws s t.page k (λ id. leaf front id) (leaf ((k, v) ∷ back) t.next)
        → Result
    unfolding left right
    split_result e = from_halves (
        write_halves_lem store o laws s t.page k (λ id. leaf front id) (leaf ((k, v) ∷ back) t.next)
          ready room own_page.1 (omega arith) stored.1)
      where
        from_halves :
            Halves store o laws s t.page k
              (leaf front (page_count s))
              (leaf ((k, v) ∷ back) t.next)
              (write_halves store o laws s t.page k
                (λ id. leaf front id)
                (leaf ((k, v) ∷ back) t.next))
            → Result
        from_halves (written u₁ u₂ u₃ eq a w w') =
            split u₃ left k right (e ∙ eq) (halves_replace u₁ u₂ u₃ a w w')
        from_halves (too_large u x eq over) = overflow u x (e ∙ eq) over

  -- `insertLeaf` on a leaf of the tree.
  pub insert_leaf_lem : page_count s + 1 < 4294967296 → Result
  insert_leaf_lem room = elim (Bool-cases (leaf_slot key (leaf_keys t.entries)).1) [
    | inl found ↦ by_size (update-eq store key value t.page t.next t.entries s found)
    | inr new ↦ elim (Bool-cases (ltb cell_area_size (entries_size (upsert key value t.entries)))) [
      | inr fits ↦
          write_back
            (insert-fits-eq store key value t.page t.next t.entries s new (ltb→ge _ _ fits))
            (ltb→ge _ _ fits)
      | inl over ↦
          let (k, v, back, cut) =
            middle (upsert key value t.entries) (upsert-not-empty key value t.entries) in
          split_result room
            (take (length (upsert key value t.entries) / 2) (upsert key value t.entries)) back k v
            (sym (
                take-append-drop (length (upsert key value t.entries) / 2)
                  (upsert key value t.entries))
              ∙ rw cut)
            (insert-splits-eq store key value t.page t.next t.entries s new (ltb→lt _ _ over)
              ∙ split-eq store o laws t.page t.next (upsert key value t.entries) s k v back cut)
    ]
  ]
    where
      by_size :
          insert_leaf store t.page (to_node (leaf t.entries t.next)) key value s
            ≡ and_then
                (store.write_node t.page (to_node (leaf (upsert key value t.entries) t.next)) s)
                (λ _ u. (ok none, u))
          → Result
      by_size e =
          elim (Bool-cases (ltb cell_area_size (entries_size (upsert key value t.entries)))) [
            | inr fits ↦ write_back e (ltb→ge _ _ fits)
            | inl over ↦ write_back_overflow e (ltb→lt _ _ over)
          ]
