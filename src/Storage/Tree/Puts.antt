-- ===== src/Storage/Tree/Puts.antt =====
-- internal/storage/btree.go: `Put`.
use rawth.Base.{
  ℕ, suc, ◌+◌, ◌≤◌, ◌<◌, ◌≡◌, sym, ap, ◌∙◌, inl, inr, false, List, [], ◌∷◌, none, some, length, ltb,
  ltb→lt, ltb→ge, ge→ltb, ◌==◌, arith, ok, err, Bool-cases, le-cases,
}
use rawth.Bytes.{Bytes}
use rawth.Storage.Fault.{Fault}
use rawth.Storage.Monad.{and_then}
use rawth.Storage.Node.{cell_area_size, max_key_size, max_value_size, make_internal_node}
use rawth.Storage.Node.View.{View, Entry, internal, to_node, view_size, IsInRange}
use rawth.Storage.Node.Pages
use rawth.Storage.Entries.{upsert}
use rawth.Storage.Store.{NodeStore, Observation, IsNodeStore, Writes, Allocates, Roots}
use rawth.Storage.Tree.{put, insert}
use rawth.Storage.Tree.Shape.{Tree, sum_row, page_no, occurs, Stored}
use rawth.Storage.Tree.Placed.{InPages, occurs-page_no, Stored-mono}
use rawth.Storage.Tree.TwoPages.{IsOverflow, overflow-IsOverflow}
use rawth.Storage.Tree.Grown.{Replaced, Inserts, kept, split, overflow}
use rawth.Storage.Tree.Insert.{insert_lem}
use rawth.Storage.Tree.Contract.{Represents, Represents-Kept, fuel_enough}

module _ (store : NodeStore) (o : Observation store.State) where
  open store use {State, page_count}

  -- How `Put` ends: with the entry in, or at a node that does not fit on its page.
  pub data Puts (s : State) (es : List Entry) (key value : Bytes) : Type 0 where
    stored :
        (u : State)
        → put store key value s ≡ (ok tt, u)
        → Represents store o u (upsert key value es)
        → Puts s es key value
    too_large :
        (u : State) (e : Fault)
        → put store key value s ≡ (err e, u)
        → IsOverflow e
        → Puts s es key value

  module _ (laws : IsNodeStore store o) (key value : Bytes) (s : State) (es : List Entry)
      (not_empty : 0 < length key) (short_key : length key ≤ max_key_size)
      (short_value : length value ≤ max_value_size) (r : Represents store o s es)
      (room : page_count s + page_count s + 1 < 4294967296) where
    -- A row that replaces the tree is on pages of its own.
    module _ (u : State) (cs : List (Tree r.height × Bytes)) (last : Tree r.height)
        (rep : Replaced store o key (some value) s u r.height r.tree cs last) where
      row_distinct : (j : ℕ) → sum_row (occurs j r.height) cs last ≤ 1
      row_distinct j = elim (le-cases (page_count s) j) [
        | inl new ↦ (rep.new_pages j new).0
        | inr old ↦ omega (arith, rep.old_pages j old, r.distinct j)
      ]

      row_placed : (j : ℕ) → 1 ≤ sum_row (occurs j r.height) cs last → (0 < j) × (j < page_count u)
      row_placed j p = elim (le-cases (page_count s) j) [
        | inl new ↦ (omega (arith, new, r.fits), (rep.new_pages j new).1 p)
        | inr old ↦
            let (a, b) = r.placed j (omega (arith, rep.old_pages j old)) in
            (a, omega (arith, old, rep.grows))
      ]

    ne_zero : (length key == 0) ≡ false
    ne_zero = ground (arith, not_empty)

    put-kept :
        (u : State)
        → insert store (page_count s) (o.root s) key value s ≡ (ok none, u)
        → put store key value s ≡ store.flush u
    unfolding put
    put-kept u e = rw (
      ne_zero,
      ge→ltb max_key_size (length key) short_key,
      ge→ltb max_value_size (length value) short_value,
      laws.get_root s,
      e,
    )

    put-err :
        (u : State) (x : Fault)
        → insert store (page_count s) (o.root s) key value s ≡ (err x, u)
        → put store key value s ≡ (err x, u)
    unfolding put
    put-err u x e = rw (
      ne_zero,
      ge→ltb max_key_size (length key) short_key,
      ge→ltb max_value_size (length value) short_value,
      laws.get_root s,
      e,
    )

    in_place :
        (u : State) (t : Tree r.height)
        → insert store (page_count s) (o.root s) key value s ≡ (ok none, u)
        → Replaced store o key (some value) s u r.height r.tree [] t
        → Puts s es key value
    in_place u t e rep =
        let (w, eq, k) = laws.flushes u rep.ready in
        stored w (put-kept u e ∙ eq) (
          Represents-Kept store o _ k (record {
            height = r.height;
            tree = t;
            at_root = rep.root_same ∙ r.at_root ∙ sym rep.head;
            ready = rep.ready;
            stored = rep.stored;
            placed = row_placed u [] t rep;
            distinct = row_distinct u [] t rep;
            ordered = (rep.ordered none none r.ordered tt tt).0;
            chained = rep.chained 0 r.chained;
            fits = omega (arith, rep.node_count, r.fits);
            same = (rep.ordered none none r.ordered tt tt).1 ∙ ap (upsert key value) r.same;
          }))

    -- A root that has split gets a new root above it.
    module _ (u : State) (l t : Tree r.height) (k : Bytes)
        (e : insert store (page_count s) (o.root s) key value s
          ≡ (ok (some (k, page_no r.height t)), u))
        (rep : Replaced store o key (some value) s u r.height r.tree ((l, k) ∷ []) t) where
      top : View
      top = internal ((page_no r.height l, k) ∷ []) (page_no r.height t)

      put-split :
          put store key value s
          ≡ and_then (store.allocate_page u) (λ new_root v.
            and_then
              (store.write_node new_root (to_node top) v)
              (λ _ w. and_then (store.set_root_page new_root w) (λ _ x. store.flush x)))
      unfolding put top to_node make_internal_node
      put-split = rw (
        ne_zero,
        ge→ltb max_key_size (length key) short_key,
        ge→ltb max_value_size (length value) short_value,
        laws.get_root s,
        e,
        r.at_root ∙ sym rep.head,
      )

      top_range : IsInRange top
      unfolding top
      top_range =
          let a =
            row_placed u ((l, k) ∷ []) t rep (page_no r.height l)
              (omega (arith, occurs-page_no r.height l)) in
          let b =
            row_placed u ((l, k) ∷ []) t rep (page_no r.height t)
              (omega (arith, occurs-page_no r.height t)) in
          (
            (omega (arith, a, fuel_enough store o s es r, rep.grows), tt),
            omega (arith, b, fuel_enough store o s es r, rep.grows),
          )

      new_tree :
          (v w x : State)
          → Allocates o page_count u v
          → Writes o page_count v w (page_count u) top
          → Roots o page_count w x (page_count u)
          → Represents store o x (upsert key value es)
      unfolding top
      new_tree v w x a b c = record {
        height = suc r.height;
        tree = record { page = page_count u; row = record { cells = (l, k) ∷ []; last = t } };
        at_root = c.root_new;
        ready = c.ready;
        stored = (
          c.nodes (page_count u) top (omega (arith, rep.grows, r.fits))
              (omega (arith, a.count, b.count)) b.node,
          (
            moved l (λ j p. row_placed u ((l, k) ∷ []) t rep j (omega arith)) rep.stored.0,
            moved t (λ j p. row_placed u ((l, k) ∷ []) t rep j (omega arith)) rep.stored.1,
          ),
        );
        placed = λ j p. ground (
          arith,
          row_placed u ((l, k) ∷ []) t rep j,
          a.count,
          b.count,
          c.count,
          rep.grows,
          r.fits,
        );
        distinct = λ j.
            ground
              (arith, row_placed u ((l, k) ∷ []) t rep j, row_distinct u ((l, k) ∷ []) t rep j);
        ordered = (rep.ordered none none r.ordered tt tt).0;
        chained = rep.chained 0 r.chained;
        fits = omega (arith, rep.node_count, r.fits, a.count, b.count, c.count);
        same = (rep.ordered none none r.ordered tt tt).1 ∙ ap (upsert key value) r.same;
      }
        where
          moved :
              (d : Tree r.height)
              → InPages store o u r.height d
              → Stored o u r.height d
              → Stored o x r.height d
          moved d placed = Stored-mono o u x r.height d (λ j y p holds.
              let (pos, bound) = placed j p in
              c.nodes j y pos (omega (arith, a.count, b.count)) (
                b.nodes j y pos (omega (arith, a.count)) (λ same. absurd (omega (arith, same)))
                  (a.nodes j y pos bound holds)))

      new_root : Puts s es key value
      new_root =
          let (v, ea, a) =
            laws.allocate u rep.ready (omega (arith, rep.grows, fuel_enough store o s es r)) in
          elim (Bool-cases (ltb cell_area_size (view_size top))) [
            | inl over ↦
                too_large v (Pages.overflow top)
                  (put-split ∙ rw (ea, laws.write_overflow v (page_count u) top (ltb→lt _ _ over)))
                  (overflow-IsOverflow top)
            | inr fits ↦
                let (w, eb, b) =
                  laws.write v (page_count u) top a.ready (omega (arith, a.count)) top_range
                    (ltb→ge _ _ fits) in
                let (x, ec, c) = laws.set_root w (page_count u) b.ready in
                let (y, ed, d) = laws.flushes x c.ready in
                stored y (put-split ∙ rw (ea, eb, ec, ed))
                  (Represents-Kept store o _ d (new_tree v w x a b c))
          ]

    -- On a database that represents a list of entries, with a key of 1 to `max_key_size` bytes, a
    -- value of at most `max_value_size` bytes, a store that keeps the laws, and page numbers left,
    -- `Put` either succeeds and the database represents the list with the key's entry inserted or
    -- replaced, or returns the overflow error of a leaf or of an internal node.
    pub put_lem : Puts s es key value
    put_lem = elim insert_root [
      | kept u t e rep ↦ in_place u t (at_root ∙ e) rep
      | split u l k t e rep ↦ new_root u l t k (at_root ∙ e) rep
      | overflow u x e over ↦ too_large u x (put-err u x (at_root ∙ e)) over
    ]
      where
        at_root :
            insert store (page_count s) (o.root s) key value s
            ≡ insert store (page_count s) (page_no r.height r.tree) key value s
        at_root = ap (λ i. insert store (page_count s) i key value s) r.at_root

        insert_root :
            Inserts store o key value
              (insert store (page_count s) (page_no r.height r.tree) key value)
              s
              r.height
              r.tree
        insert_root =
            insert_lem store o laws key value r.height (page_count s) s r.tree
              (fuel_enough store o s es r) r.ready r.stored r.placed r.distinct
              (omega (arith, fuel_enough store o s es r))
