-- ===== src/Storage/Pager/Maps.antt =====
-- Go's maps from page numbers: lookups and writes.
use rawth.Base.{ℕ, suc, List, [], ◌∷◌, Option, none, some, ◌==◌, if◌then◌else◌, ◌≡◌, refl, arith}
use rawth.Bytes.{Bytes}

abbrev pub PageMap : Type 0
PageMap = List (ℕ × Bytes)

-- `data, ok := m[id]`
unfoldable pub map_get : ℕ → PageMap → Option Bytes
map_get id [] = none
map_get id ((j, b) ∷ m) = if j == id then some b else map_get id m

-- `m[id] = data`
unfoldable pub map_put : ℕ → Bytes → PageMap → PageMap
map_put id b [] = (id, b) ∷ []
map_put id b ((j, c) ∷ m) = if j == id then (id, b) ∷ m else (j, c) ∷ map_put id b m

-- `len(m)`
unfoldable pub map_size : PageMap → ℕ
map_size [] = 0
map_size (e ∷ m) = suc (map_size m)

-- `set[id] = true`
unfoldable pub set_add : ℕ → List ℕ → List ℕ
set_add id [] = id ∷ []
set_add id (j ∷ s) = if j == id then j ∷ s else j ∷ set_add id s

pub map_get-map_put :
    (id j : ℕ) (b : Bytes) (m : PageMap)
    → map_get j (map_put id b m) ≡ (if id == j then some b else map_get j m)
unfolding map_get map_put
map_get-map_put id j b [] = refl
map_get-map_put id j b ((i, c) ∷ m) = ground (arith, map_get-map_put id j b m)
