-- ===== src/Storage/Tree/Rejects.antt =====
-- internal/storage/btree.go: the guards of `Put`.
use rawth.Base.{
  ◌<◌, ◌≡◌, ◌⊎◌, inl, inr, length, ltb, ltb→ge, ltb→lt, ==→eq, ◌==◌, arith, err, Bool-cases,
}
use rawth.Bytes.{Bytes}
use rawth.Storage.Fault.{Fault, key_empty, key_too_long, value_too_long}
use rawth.Storage.Node.{max_key_size, max_value_size}
use rawth.Storage.Store.{NodeStore}
use rawth.Storage.Tree.{put}

module _ (store : NodeStore) (key value : Bytes) (s : store.State) where
  -- The errors that say why an entry is refused.
  pub data Refuses : Fault → Type 0 where
    empty_key : length key ≡ 0 → Refuses key_empty
    long_key : max_key_size < length key → Refuses key_too_long
    long_value : max_value_size < length value → Refuses value_too_long

  -- With an empty key, a key longer than `max_key_size` or a value longer than `max_value_size`,
  -- `Put` on any store returns an error that names one of these reasons, one that holds, and the
  -- state stays as it is.
  pub put_rejects :
      (length key ≡ 0) ⊎ ((max_key_size < length key) ⊎ (max_value_size < length value))
      → (e : Fault) × (put store key value s ≡ (err e, s)) × Refuses e
  unfolding put
  put_rejects bad = elim (Bool-cases (length key == 0)) [
    | inl empty ↦ (key_empty, rw empty, empty_key (==→eq _ _ empty))
    | inr some_key ↦ elim (Bool-cases (ltb max_key_size (length key))) [
      | inl long ↦ (key_too_long, rw (some_key, long), long_key (ltb→lt _ _ long))
      | inr short ↦ elim (Bool-cases (ltb max_value_size (length value))) [
        | inl long ↦ (value_too_long, rw (some_key, short, long), long_value (ltb→lt _ _ long))
        | inr fits ↦ absurd (ground (arith, bad, some_key, ltb→ge _ _ short, ltb→ge _ _ fits))
      ]
    ]
  ]
