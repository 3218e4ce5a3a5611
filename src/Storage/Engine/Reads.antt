-- ===== src/Storage/Engine/Reads.antt =====
-- internal/storage/engine.go: `Get`, `Has` and `Keys` against the entries that are not dead.
use rawth.Base.{
  ℕ, ◌≡◌, refl, sym, ap, ◌∙◌, inl, inr, Bool, true, false, List, none, arith, Outcome, ok, err,
  Bool-cases,
}
use rawth.Bytes.{Bytes, equal_bytes}
use mathlib.Core.Path.{subst}
use rawth.Storage.Fault.{Fault, key_not_found}
use rawth.Storage.Node.View.{Entry, leaf_keys}
use rawth.Storage.Entries.{find, remove, IsSorted}
use rawth.Storage.Pager.{Pager}
use rawth.Storage.PageStore.{page_store, page_nodes, page_store-IsNodeStore}
use rawth.Storage.Tree
use rawth.Storage.Tree.Rows.{Ordered-IsSorted}
use rawth.Storage.Tree.Search.{found_or_not}
use rawth.Storage.Tree.Contract.{Represents, is_some, get_lem, has_lem}
use rawth.Storage.Tree.Deletes.{Removes, gone, not_found, delete_lem}
use rawth.Storage.Tree.Listing.{keys_lem}
use rawth.Storage.Engine.{
  Engine, Ttls, expiry_of, drop_ttl, is_dead, valid_keys, set_db, drop_deadline, count_delete,
  count_get, bury, get, has, keys,
}
use rawth.Storage.Engine.Deadlines.{
  visible, SameFrom, find-visible, valid_keys-visible, buried-SameFrom, equal_bytes-eq,
  expiry_of-drop_ttl,
}

-- The engine's database holds the entries, dead or not.
abbrev pub Contains : Engine → List Entry → Type 0
Contains e es = Represents page_store page_nodes e.db es

-- A later engine shows the same from a time on.
pub record SameView (now : ℕ) (e : Engine) (es : List Entry) (u : Engine) : Type 0 where
  pub left : List Entry
  pub contains : Contains u left
  pub same : SameFrom now e.ttls es u.ttls left

pub Contains-IsSorted : (e : Engine) (es : List Entry) → Contains e es → IsSorted es
Contains-IsSorted e es r =
    subst IsSorted r.same (Ordered-IsSorted r.height none none r.tree r.ordered)

buried : Bytes → Engine → Pager → Engine
buried key e p = count_delete (set_db (drop_deadline key e) p)

bury-ok :
    (key : Bytes) (e : Engine) (p : Pager)
    → Tree.delete page_store key e.db ≡ (ok tt, p)
    → bury key e ≡ (ok tt, buried key e p)
unfolding bury buried
bury-ok key e p q = rw q refl

bury-err :
    (key : Bytes) (e : Engine) (p : Pager) (x : Fault)
    → Tree.delete page_store key e.db ≡ (err x, p)
    → bury key e ≡ (ok tt, buried key e p)
unfolding bury buried
bury-err key e p x q = rw q refl

-- Without an entry a deadline makes no difference.
missing-SameFrom :
    (now : ℕ) (key : Bytes) (ttls : Ttls) (es : List Entry)
    → find key es ≡ none
    → SameFrom now ttls es (drop_ttl key ttls) es
missing-SameFrom now key ttls es f later h j = elim (Bool-cases (equal_bytes key j)) [
  | inl same ↦ ground (
    arith,
    find-visible j later (drop_ttl key ttls) es,
    find-visible j later ttls es,
    sym (ap (λ x. find x es) (equal_bytes-eq key j same)) ∙ f,
  )
  | inr other ↦ ground (
    arith,
    find-visible j later (drop_ttl key ttls) es,
    find-visible j later ttls es,
    other,
    expiry_of-drop_ttl j key ttls,
  )
]

bury_lem :
    (now : ℕ) (key : Bytes) (e : Engine) (es : List Entry)
    → Contains e es
    → is_dead now (expiry_of key e.ttls) ≡ true
    → (u : Engine) × (bury key e ≡ (ok tt, u)) × SameView now e es u
unfolding buried
bury_lem now key e es r dead =
    go (delete_lem page_store page_nodes page_store-IsNodeStore key e.db es r)
  where
    go :
        Removes page_store page_nodes e.db es key
        → (u : Engine) × (bury key e ≡ (ok tt, u)) × SameView now e es u
    go (gone p f q rep) = (
      buried key e p,
      bury-ok key e p q,
      record {
        left = remove key es;
        contains = rep;
        same = buried-SameFrom now key e.ttls es (Contains-IsSorted e es r) dead;
      },
    )
    go (not_found p f q rep) = (
      buried key e p,
      bury-err key e p key_not_found q,
      record { left = es; contains = rep; same = missing-SameFrom now key e.ttls es f },
    )

-- An operation on a live key or on none leaves the deadlines.
kept_view :
    (now : ℕ) (e : Engine) (es : List Entry) (u : Engine)
    → Contains u es
    → u.ttls ≡ e.ttls
    → SameView now e es u
kept_view now e es u r q = record {
  left = es;
  contains = r;
  same = λ later h j. ap (λ ttls. find j (visible later ttls es)) q;
}

module _ (now : ℕ) (key : Bytes) (e : Engine) where
  get-dead :
      (u : Engine)
      → is_dead now (expiry_of key e.ttls) ≡ true
      → bury key e ≡ (ok tt, u)
      → get now key e ≡ (err key_not_found, u)
  unfolding get
  get-dead u d q = rw (d, q) refl

  get-live :
      (r : Outcome Fault Bytes) (p : Pager)
      → is_dead now (expiry_of key e.ttls) ≡ false
      → Tree.get page_store key e.db ≡ (r, p)
      → get now key e ≡ (r, set_db (count_get e) p)
  unfolding get
  get-live r p d q = rw (d, q) refl

  has-dead :
      (u : Engine)
      → is_dead now (expiry_of key e.ttls) ≡ true
      → bury key e ≡ (ok tt, u)
      → has now key e ≡ (ok false, u)
  unfolding has
  has-dead u d q = rw (d, q) refl

  has-live :
      (r : Outcome Fault Bool) (p : Pager)
      → is_dead now (expiry_of key e.ttls) ≡ false
      → Tree.has page_store key e.db ≡ (r, p)
      → has now key e ≡ (r, set_db e p)
  unfolding has
  has-live r p d q = rw (d, q) refl

keys-all :
    (now : ℕ) (e : Engine) (ks : List Bytes) (p : Pager)
    → Tree.keys page_store e.db ≡ (ok ks, p)
    → keys now e ≡ (ok (valid_keys now e.ttls ks), set_db e p)
unfolding keys
keys-all now e ks p q = rw q refl

module _ (now : ℕ) (e : Engine) (es : List Entry) (r : Contains e es) where
  find-dead :
      (key : Bytes)
      → is_dead now (expiry_of key e.ttls) ≡ true
      → find key (visible now e.ttls es) ≡ none
  find-dead key d = ground (arith, find-visible key now e.ttls es, d)

  find-live :
      (key : Bytes)
      → is_dead now (expiry_of key e.ttls) ≡ false
      → find key (visible now e.ttls es) ≡ find key es
  find-live key d = ground (arith, find-visible key now e.ttls es, d)

  -- On an engine whose database holds a list of entries, `Get` returns the value that the key has
  -- among the entries that are not dead now, or that the key is not found; afterwards the database
  -- shows the same entries at this and any later time, also when a dead entry was deleted.
  pub live_get :
      (key : Bytes)
      → (u : Engine) × (get now key e ≡ (found_or_not (find key (visible now e.ttls es)), u))
        × SameView now e es u
  live_get key = elim (Bool-cases (is_dead now (expiry_of key e.ttls))) [
    | inl d ↦
        let (u, q, v) = bury_lem now key e es r d in
        (u, get-dead now key e u d q ∙ ap (λ o. (found_or_not o, u)) (sym (find-dead key d)), v)
    | inr d ↦
        let (p, q, rep) = get_lem page_store page_nodes page_store-IsNodeStore key e.db es r in
        (
          set_db (count_get e) p,
          get-live now key e _ p d q
              ∙ ap (λ o. (found_or_not o, set_db (count_get e) p)) (sym (find-live key d)),
          kept_view now e es (set_db (count_get e) p) rep refl,
        )
  ]

  pub live_has :
      (key : Bytes)
      → (u : Engine) × (has now key e ≡ (ok (is_some (find key (visible now e.ttls es))), u))
        × SameView now e es u
  live_has key = elim (Bool-cases (is_dead now (expiry_of key e.ttls))) [
    | inl d ↦
        let (u, q, v) = bury_lem now key e es r d in
        (u, has-dead now key e u d q ∙ ap (λ o. (ok (is_some o), u)) (sym (find-dead key d)), v)
    | inr d ↦
        let (p, q, rep) = has_lem page_store page_nodes page_store-IsNodeStore key e.db es r in
        (
          set_db e p,
          has-live now key e _ p d q
              ∙ ap (λ o. (ok (is_some o), set_db e p)) (sym (find-live key d)),
          kept_view now e es (set_db e p) rep refl,
        )
  ]

  -- On an engine whose database holds a list of entries, `Keys` returns the keys of the entries
  -- that are not dead now, in order, and the database holds the same entries with the same
  -- deadlines afterwards.
  pub live_keys :
      (u : Engine) × (keys now e ≡ (ok (leaf_keys (visible now e.ttls es)), u))
      × Contains u es
      × (u.ttls ≡ e.ttls)
  live_keys =
      let (p, q, rep) = keys_lem page_store page_nodes page_store-IsNodeStore e.db es r in
      (
        set_db e p,
        keys-all now e (leaf_keys es) p q
            ∙ ap (λ ks. (ok ks, set_db e p)) (valid_keys-visible now e.ttls es),
        rep,
        refl,
      )
