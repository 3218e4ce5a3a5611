-- ===== src/Storage/Engine/Writes.antt =====
-- internal/storage/engine.go: `Put`, `Delete`, `Nuke` and `OpenEngine` against the entries that are not dead.
use rawth.Base.{
  ℕ, ◌+◌, ◌≤◌, ◌<◌, ◌≡◌, ◌≢◌, refl, sym, ap, ◌∙◌, inl, inr, Bool, true, false, List, Option, none,
  some, length, ltb, if◌then◌else◌, arith, Outcome, ok, err, Bool-cases,
}
use rawth.Bytes.{Bytes, equal_bytes}
use rawth.Storage.Fault.{Fault, key_not_found}
use rawth.Storage.Node.{max_key_size, max_value_size}
use rawth.Storage.Node.View.{Entry}
use rawth.Storage.Entries.{find, remove, upsert, find-upsert}
use rawth.Storage.Entries.Sorted.{find-remove}
use rawth.Storage.Pager.{Pager}
use rawth.Storage.PageStore.{page_store, page_nodes, page_store-IsNodeStore}
use rawth.Storage.Tree
use rawth.Storage.Tree.TwoPages.{IsOverflow}
use rawth.Storage.Tree.Deletes.{Removes, gone, not_found, delete_lem}
use rawth.Storage.Tree.Puts.{Puts, stored, too_large, put_lem}
use rawth.Storage.Engine.{
  Engine, expiry_of, drop_ttl, is_dead, deadline, set_db, note_put, note_delete, put, delete,
}
use rawth.Storage.Engine.Deadlines.{
  visible, find-visible, expiry_of-drop_ttl, expiry_of-set_ttl, equal_bytes-eq,
}
use rawth.Storage.Engine.Reads.{Contains, Contains-IsSorted}

-- The time after which a value put at `now` is dead.
abbrev pub life_end : ℕ → ℕ → Option ℕ
life_end now seconds = if ltb 0 seconds then some (deadline now seconds) else none

-- The value of a key that was put, at a later time.
abbrev pub lasting : ℕ → ℕ → ℕ → Bytes → Option Bytes
lasting now seconds later value = if is_dead later (life_end now seconds) then none else some value

-- How `Put` ends.
pub data EnginePuts (now : ℕ) (key value : Bytes) (seconds : ℕ) (e : Engine) (es : List Entry)
    : Type 0 where
  kept :
      (u : Engine)
      → put now key value seconds e ≡ (ok tt, u)
      → Contains u (upsert key value es)
      → ((later : ℕ) (j : Bytes)
          → find j (visible later u.ttls (upsert key value es)) ≡ (
              if equal_bytes key j
              then lasting now seconds later value
              else find j (visible later e.ttls es)))
      → EnginePuts now key value seconds e es
  refused :
      (u : Engine) (x : Fault)
      → put now key value seconds e ≡ (err x, u)
      → IsOverflow x
      → u.ttls ≡ e.ttls
      → EnginePuts now key value seconds e es

module _ (now : ℕ) (key value : Bytes) (seconds : ℕ) (e : Engine) (p : Pager) where
  put-ok :
      Tree.put page_store key value e.db ≡ (ok tt, p)
      → put now key value seconds e ≡ (ok tt, note_put now key seconds (set_db e p))
  unfolding put
  put-ok q = rw q refl

  pub put-err :
      (x : Fault)
      → Tree.put page_store key value e.db ≡ (err x, p)
      → put now key value seconds e ≡ (err x, set_db e p)
  unfolding put
  put-err x q = rw q refl

  pub expiry-put :
      (j : Bytes)
      → expiry_of j (note_put now key seconds (set_db e p)).ttls
        ≡ (if equal_bytes key j then life_end now seconds else expiry_of j e.ttls)
  expiry-put j = ground (
    arith,
    expiry_of-set_ttl j key (deadline now seconds) e.ttls,
    expiry_of-drop_ttl j key e.ttls,
  )

  shown :
      (es : List Entry) (later : ℕ) (j : Bytes)
      → find j (visible later (note_put now key seconds (set_db e p)).ttls (upsert key value es))
        ≡ (if equal_bytes key j
            then lasting now seconds later value
            else find j (visible later e.ttls es))
  shown es later j =
      find-visible j later (note_put now key seconds (set_db e p)).ttls (upsert key value es)
      ∙ rw (expiry-put j, find-upsert j key value es, find-visible j later e.ttls es)
          (by_key (equal_bytes key j) _ _ _ _)
    where
      by_key :
          (b : Bool) (o o' : Option ℕ) (x y : Option Bytes)
          → (if is_dead later (if b then o else o') then none else (if b then x else y)) ≡ (
              if b
              then (if is_dead later o then none else x)
              else (if is_dead later o' then none else y))
      by_key true o o' x y = refl
      by_key false o o' x y = refl

-- On an engine whose database holds a list of entries, with a key and a value within their limits
-- and page numbers left, `Put` either succeeds, and at any later time the database shows the value
-- for the key until its deadline (for ever with lifetime zero) and for every other key what it
-- showed before; or it returns an overflow error and leaves the deadlines.
pub put_until :
    (now : ℕ) (key value : Bytes) (seconds : ℕ) (e : Engine) (es : List Entry)
    → 0 < length key
    → length key ≤ max_key_size
    → length value ≤ max_value_size
    → Contains e es
    → e.db.header.page_count + e.db.header.page_count + 1 < 4294967296
    → EnginePuts now key value seconds e es
put_until now key value seconds e es not_empty short_key short_value r room = go (
    put_lem page_store page_nodes page_store-IsNodeStore key value e.db es not_empty short_key
      short_value r room)
  where
    go : Puts page_store page_nodes e.db es key value → EnginePuts now key value seconds e es
    go (stored p q rep) =
        kept (note_put now key seconds (set_db e p)) (put-ok now key value seconds e p q) rep
          (shown now key value seconds e p es)
    go (too_large p x q over) =
        refused (set_db e p) x (put-err now key value seconds e p x q) over refl

-- What `Delete` returns.
abbrev pub deleted : Option Bytes → Outcome Fault (Unit {0})
deleted none = err key_not_found
deleted (some v) = ok tt

module _ (key : Bytes) (e : Engine) (es : List Entry) (r : Contains e es) where
  delete-all :
      (x : Outcome Fault (Unit {0})) (p : Pager)
      → Tree.delete page_store key e.db ≡ (x, p)
      → delete key e ≡ (x, set_db (note_delete key e) p)
  unfolding delete
  delete-all x p q = rw q refl

  deleted-some : (o : Option Bytes) → o ≢ none → deleted o ≡ ok tt
  deleted-some none ne = absurd (ne refl)
  deleted-some (some v) ne = refl

  hidden :
      (later : ℕ) (j : Bytes) (left : List Entry)
      → find j left ≡ (if equal_bytes key j then none else find j es)
      → find j (visible later (drop_ttl key e.ttls) left)
        ≡ (if equal_bytes key j then none else find j (visible later e.ttls es))
  hidden later j left f =
      find-visible j later (drop_ttl key e.ttls) left
      ∙ rw (expiry_of-drop_ttl j key e.ttls, f, find-visible j later e.ttls es)
          (by_key (equal_bytes key j) _ _)
    where
      by_key :
          (b : Bool) (o : Option ℕ) (x : Option Bytes)
          → (if is_dead later (if b then none else o) then none else (if b then none else x))
            ≡ (if b then none else (if is_dead later o then none else x))
      by_key true o x = refl
      by_key false o x = refl

  missing :
      (j : Bytes) → find key es ≡ none → find j es ≡ (if equal_bytes key j then none else find j es)
  missing j f = elim (Bool-cases (equal_bytes key j)) [
    | inl same ↦ rw same (sym (ap (λ x. find x es) (equal_bytes-eq key j same)) ∙ f)
    | inr other ↦ rw other refl
  ]

  -- On an engine whose database holds a list of entries, `Delete` succeeds if the list has the
  -- key, dead or not, and returns that the key is not found otherwise; afterwards the database
  -- shows at any time nothing for the key and for every other key what it showed before.
  pub delete_shown :
      (u : Engine) × (left : List Entry) × (delete key e ≡ (deleted (find key es), u))
      × Contains u left
      × ((later : ℕ) (j : Bytes)
          → find j (visible later u.ttls left)
            ≡ (if equal_bytes key j then none else find j (visible later e.ttls es)))
  delete_shown = go (delete_lem page_store page_nodes page_store-IsNodeStore key e.db es r)
    where
      go :
          Removes page_store page_nodes e.db es key
          → (u : Engine) × (left : List Entry) × (delete key e ≡ (deleted (find key es), u))
            × Contains u left
            × ((later : ℕ) (j : Bytes)
                → find j (visible later u.ttls left)
                  ≡ (if equal_bytes key j then none else find j (visible later e.ttls es)))
      go (gone p f q rep) = (
        set_db (note_delete key e) p,
        remove key es,
        delete-all (ok tt) p q
            ∙ ap (λ x. (x, set_db (note_delete key e) p)) (sym (deleted-some (find key es) f)),
        rep,
        λ later j. hidden later j (remove key es) (find-remove j key es (Contains-IsSorted e es r)),
      )
      go (not_found p f q rep) = (
        set_db (note_delete key e) p,
        es,
        delete-all (err key_not_found) p q
            ∙ ap (λ o. (deleted o, set_db (note_delete key e) p)) (sym f),
        rep,
        λ later j. hidden later j es (missing j f),
      )
