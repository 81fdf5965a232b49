-- ===== src/Hashmap.antt =====
-- src/hashmap.c: a chained hash table whose array doubles at three quarters load. The hash, of
-- which the code takes the second word from MurmurHash3, and the comparison of keys are parameters. `none`
-- stands for a read of memory that was freed; allocation succeeds.
pub mod Links
pub mod Bucket
pub mod Pairs
pub mod View
pub mod Methods
pub mod Resize
pub mod Doubling
pub mod Put
pub mod Remove
pub mod Iterate
pub mod Init
pub mod Faults
pub mod Examples
use statsite.Base.{
  ℕ, zero, suc, ◌+◌, ◌-◌, ◌*◌, ◌/◌, ◌%◌, ◌^◌, ◌<◌, List, [], ◌∷◌, ◌++◌, Bool, true, false, Option,
  none, some, ltb, leb, ◌==◌, ◌&&◌, not, if◌then◌else◌, length, get_or, set, replicate, ◌>>=◌,
}
use statsite.Hashmap.Links.{
  Chain, entry, null, freed, chain_get, chain_insert, chain_delete, chain_clear, chain_keys,
}

pub record Hashmap {ℓ} (K V : Type ℓ) : Type ℓ where
  pub count : ℕ
  pub table_size : ℕ
  pub max_size : ℕ
  pub table : List (Chain K V)

abbrev pub default_capacity : ℕ
default_capacity = 128

-- The loop of `hashmap_init` over the 32 bits of a size: the place of its highest bit.
unfoldable pub most_sig_bit : (rounds idx size msb : ℕ) → ℕ
most_sig_bit zero idx size msb = msb
most_sig_bit (suc rounds) idx size msb =
    most_sig_bit rounds (idx + 1) size (if size / 2 ^ idx % 2 == 1 then idx else msb)

unfoldable pub round_up : ℕ → ℕ
round_up size =
    let msb = most_sig_bit 32 0 size 0 in if 2 ^ msb == size then 2 ^ msb else 2 ^ (msb + 1)

module _ {ℓ} {K V : Type ℓ} where
  abbrev pub empty_slot : Chain K V
  empty_slot = entry none null

  -- A size that is not positive, given here as 0, asks for the default.
  unfoldable pub hashmap_init : ℕ → Hashmap K V
  hashmap_init initial_size =
      let size = if initial_size == 0 then default_capacity else round_up initial_size in
      record {
        count = 0;
        table_size = size;
        max_size = 3 * size / 4;
        table = replicate size empty_slot;
      }

  unfoldable pub hashmap_size : Hashmap K V → ℕ
  hashmap_size map = map.count

-- The index of a key's chain.
abbrev pub slot_of {ℓ} : {K : Type ℓ} → (K → ℕ) → ℕ → K → ℕ
slot_of hash table_size key = hash key % table_size

module _ {ℓ} {K V : Type ℓ} (hash : K → ℕ) (eq : K → K → Bool) where
  -- `none` when not found. The outer option is the fault.
  unfoldable pub hashmap_get : Hashmap K V → K → Option (Option V)
  hashmap_get map key =
      chain_get eq key (get_or map.table (slot_of hash map.table_size key) empty_slot)

  -- Whether the key is new, and the table.
  unfoldable pub hashmap_insert_table :
      List (Chain K V) → ℕ → K → V → (should_cmp : Bool) → Option (Bool × List (Chain K V))
  hashmap_insert_table table table_size key value should_cmp =
      let index = slot_of hash table_size key in
      do
        (new, chain) ← chain_insert eq should_cmp key value (get_or table index empty_slot)
        some (new, set table index chain)

  -- The entries of one old chain, in order.
  unfoldable pub move_entries : List (K × V) → List (Chain K V) → ℕ → Option (List (Chain K V))
  move_entries [] table size = some table
  move_entries ((k, v) ∷ rest) table size = do
    (_, table') ← hashmap_insert_table table size k v false
    move_entries rest table' size

  unfoldable pub move_chains : List (Chain K V) → List (Chain K V) → ℕ → Option (List (Chain K V))
  move_chains [] table size = some table
  move_chains (c ∷ cs) table size = do
    keys ← chain_keys c
    table' ← move_entries keys table size
    move_chains cs table' size

  unfoldable pub hashmap_double_size : Hashmap K V → Option (Hashmap K V)
  hashmap_double_size map =
      let new_size = map.table_size * 2 in
      do
        table ← move_chains map.table (replicate new_size empty_slot) new_size
        some (record map { table_size = new_size; max_size = map.max_size * 2; table = table })

  -- The insertion that `hashmap_put` makes once there is room.
  unfoldable pub put_here : Hashmap K V → K → V → Option (Bool × Hashmap K V)
  put_here map key value = do
    (new, table) ← hashmap_insert_table map.table map.table_size key value true
    some (new, record map { table = table; count = if new then map.count + 1 else map.count })

  -- The call after a resize is a recursive one: `fuel` bounds how many there are. The outer option
  -- is `none` when the fuel runs out.
  unfoldable pub hashmap_put :
      (fuel : ℕ) → Hashmap K V → K → V → Option (Option (Bool × Hashmap K V))
  hashmap_put zero map key value = none
  hashmap_put (suc fuel) map key value =
      let again : Option (Option (Bool × Hashmap K V)) = elim (hashmap_double_size map) [
        | none ↦ some none
        | some bigger ↦ hashmap_put fuel bigger key value
      ] in
      let here = some (put_here map key value) in
      if ltb map.max_size (map.count + 1) then again else here

  -- `none` inside is -1, for a key that is not there.
  unfoldable pub hashmap_delete : Hashmap K V → K → Option (Option (Hashmap K V))
  hashmap_delete map key =
      let index = slot_of hash map.table_size key in
      do
        result ← chain_delete eq key (get_or map.table index empty_slot)
        some (elim result [
          | none ↦ none
          | some chain ↦
              some (record map { table = set map.table index chain; count = map.count - 1 })
        ])

  unfoldable pub clear_chains : List (Chain K V) → Option (List (Chain K V))
  clear_chains [] = some []
  clear_chains (c ∷ cs) = do c' ← chain_clear c; cs' ← clear_chains cs; some (c' ∷ cs')

  unfoldable pub hashmap_clear : Hashmap K V → Option (Hashmap K V)
  hashmap_clear map = do
    table ← clear_chains map.table
    some (record map { table = table; count = 0 })

-- The callback is given with its own state `S`, and answers whether to stop.
module _ {ℓ} {K V S : Type ℓ} (cb : S → K → V → Bool × S) where
  unfoldable pub iter_chain : Chain K V → (should_break : Bool) → S → Option (Bool × S)
  iter_chain null stop arg = some (stop, arg)
  iter_chain (entry none next) stop arg = some (stop, arg)
  iter_chain (entry (some (k, v)) next) stop arg =
      if not stop
      then (let (stop', arg_after) = cb arg k v in iter_chain next stop' arg_after)
      else some (stop, arg)
  iter_chain freed stop arg = none

  unfoldable pub iter_table : List (Chain K V) → (should_break : Bool) → S → Option (Bool × S)
  iter_table [] stop arg = some (stop, arg)
  iter_table (c ∷ cs) stop arg =
      if not stop
      then (do (stop', arg_after) ← iter_chain c stop arg; iter_table cs stop' arg_after)
      else some (stop, arg)

  unfoldable pub hashmap_iter : Hashmap K V → S → Option (Bool × S)
  hashmap_iter map arg = iter_table map.table false arg
