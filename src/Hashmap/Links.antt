-- ===== src/Hashmap/Links.antt =====
-- One chain of a table: its first entry lies in the array, the others are linked behind it.
use statsite.Base.{List, [], ◌∷◌, Bool, true, false, Option, none, some, ◌&&◌, if◌then◌else◌, ◌>>=◌}

-- A pointer to an entry. An entry whose key is NULL holds nothing; `freed` is a pointer to memory
-- that was given back.
pub data Chain {ℓ} (K V : Type ℓ) : Type ℓ where
  null : Chain K V
  entry : Option (K × V) → Chain K V → Chain K V
  freed : Chain K V

module _ {ℓ} {K V : Type ℓ} where
  -- The pairs that a walk `while (entry && entry->key)` meets.
  unfoldable pub chain_keys : Chain K V → Option (List (K × V))
  chain_keys null = some []
  chain_keys (entry none next) = some []
  chain_keys (entry (some p) next) = do rest ← chain_keys next; some (p ∷ rest)
  chain_keys freed = none

  -- The entry that takes the place of a deleted one: its successor is copied over it and freed.
  unfoldable pub unlink : Chain K V → Option (Chain K V)
  unlink null = some (entry none null)
  unlink (entry p next) = some (entry p next)
  unlink freed = none

  -- What `hashmap_clear` leaves of a pointer to a linked entry: every entry that the walk meets is
  -- freed.
  unfoldable pub clear_next : Chain K V → Chain K V
  clear_next null = null
  clear_next (entry none next) = entry none next
  clear_next (entry (some p) next) = freed
  clear_next freed = freed

  -- The entry in the array loses its key and keeps its pointer.
  unfoldable pub chain_clear : Chain K V → Option (Chain K V)
  chain_clear null = some null
  chain_clear (entry none next) = some (entry none next)
  chain_clear (entry (some p) next) = do _ ← chain_keys next; some (entry none (clear_next next))
  chain_clear freed = none

module _ {ℓ} {K V : Type ℓ} (eq : K → K → Bool) where
  unfoldable pub chain_get : K → Chain K V → Option (Option V)
  chain_get key null = some none
  chain_get key (entry none next) = some none
  chain_get key (entry (some (k, v)) next) = if eq k key then some (some v) else chain_get key next
  chain_get key freed = none

  -- The walk behind an entry that has a key. A new entry is linked to the last one with a key.
  unfoldable pub link_insert : (should_cmp : Bool) → K → V → Chain K V → Option (Bool × Chain K V)
  link_insert cmp key value null = some (true, entry (some (key, value)) null)
  link_insert cmp key value (entry none next) = some (true, entry (some (key, value)) null)
  link_insert cmp key value (entry (some (k, v)) next) =
      if cmp && eq k key
      then some (false, entry (some (k, value)) next)
      else (do (new, rest) ← link_insert cmp key value next; some (new, entry (some (k, v)) rest))
  link_insert cmp key value freed = none

  -- An empty entry in the array is filled in place, and keeps its pointer.
  unfoldable pub chain_insert : (should_cmp : Bool) → K → V → Chain K V → Option (Bool × Chain K V)
  chain_insert cmp key value (entry none next) = some (true, entry (some (key, value)) next)
  chain_insert cmp key value (entry (some p) next) = link_insert cmp key value (entry (some p) next)
  chain_insert cmp key value null = none
  chain_insert cmp key value freed = none

  -- `last_entry` stays NULL throughout the walk, so a match is always removed by `unlink`.
  unfoldable pub chain_delete : K → Chain K V → Option (Option (Chain K V))
  chain_delete key null = some none
  chain_delete key (entry none next) = some none
  chain_delete key (entry (some (k, v)) next) =
      if eq k key then (do next' ← unlink next; some (some next')) else (do
        result ← chain_delete key next
        some (elim result [ none ↦ none | some next' ↦ some (entry (some (k, v)) next') ]))
  chain_delete key freed = none
