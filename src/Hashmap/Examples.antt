-- ===== src/Hashmap/Examples.antt =====
-- A table of two chains for src/hashmap.c, with two entries in one of them.
use statsite.Base.{
  ℕ, zero, suc, ◌+◌, ◌%◌, ◌≤◌, ◌≡◌, ◌≢◌, refl, [], ◌∷◌, Bool, true, false, none, some, arith, ◌==◌,
  ==_iff, ltb, ◌>>=◌,
}
use statsite.Hashmap.{
  Hashmap, most_sig_bit, round_up, hashmap_init, hashmap_get, hashmap_put, hashmap_delete,
  hashmap_double_size, hashmap_iter,
}
use statsite.Hashmap.Links.{entry, null, chain_keys, chain_clear, chain_insert, chain_get}
use statsite.Hashmap.Bucket.{IsSlot, pairs}
use statsite.Hashmap.Pairs.{Decides, occurrences}
use statsite.Hashmap.View.{total, chain_at}
use statsite.Hashmap.Methods.{IsMap, reads, hashmap_get-reads}
use statsite.Hashmap.Doubling.{all_pairs, Doubles, hashmap_double_size_keeps}
use statsite.Hashmap.Put.{Puts, hashmap_put_stores}
use statsite.Hashmap.Remove.{Removes, hashmap_delete-Removes}
use statsite.Hashmap.Iterate.{visit, hashmap_iter-visits}
use statsite.Hashmap.Faults.{hashmap_put_no_room, clear_then_put_faults}

abbrev hash : ℕ → ℕ
hash key = key

abbrev eq : ℕ → ℕ → Bool
eq a b = a == b

eq-Decides : Decides eq
eq-Decides = ==_iff

abbrev two_entries : Hashmap ℕ ℕ
two_entries = record {
  count = 2;
  table_size = 2;
  max_size = 2;
  table = entry (some (4, 40)) (entry (some (6, 60)) null) ∷ entry none null ∷ [];
}

table-slots : (i : ℕ) → IsSlot (chain_at two_entries.table i)
table-slots zero = tt
table-slots (suc zero) = tt
table-slots (suc (suc i)) = tt

table-placed :
    (i key : ℕ)
    → key % 2 ≢ i
    → occurrences eq eq-Decides key (pairs (chain_at two_entries.table i)) ≡ 0
unfolding occurrences pairs
table-placed zero key ne = ground arith
table-placed (suc zero) key ne = refl
table-placed (suc (suc i)) key ne = refl

table-once : (i key : ℕ) → occurrences eq eq-Decides key (pairs (chain_at two_entries.table i)) ≤ 1
unfolding occurrences pairs
table-once zero key = ground arith
table-once (suc zero) key = omega arith
table-once (suc (suc i)) key = omega arith

two_entries-IsMap : IsMap hash eq eq-Decides two_entries
unfolding total pairs
two_entries-IsMap = record {
  table_ok = record {
    some_slot = omega arith;
    width = refl;
    slots = table-slots;
    placed = table-placed;
    once = table-once;
  };
  counted = refl;
  some_room = omega arith;
  load = omega arith;
}

hashmap_get-reads_example :
    hashmap_get hash eq two_entries 6 ≡ some (reads hash eq eq-Decides two_entries 6)
hashmap_get-reads_example = hashmap_get-reads hash eq eq-Decides two_entries two_entries-IsMap 6

-- The third entry needs a resize.
hashmap_put_stores_example :
    Puts hash eq eq-Decides two_entries 8 80 (hashmap_put hash eq 2 two_entries 8 80)
hashmap_put_stores_example =
    hashmap_put_stores hash eq eq-Decides 0 two_entries 8 80 two_entries-IsMap

hashmap_delete-Removes_example :
    Removes hash eq eq-Decides two_entries 4 (hashmap_delete hash eq two_entries 4)
hashmap_delete-Removes_example =
    hashmap_delete-Removes hash eq eq-Decides two_entries 4 two_entries-IsMap

hashmap_double_size_keeps_example :
    (bigger : Hashmap ℕ ℕ) × (hashmap_double_size hash eq two_entries ≡ some bigger)
    × Doubles hash eq eq-Decides two_entries bigger
hashmap_double_size_keeps_example =
    hashmap_double_size_keeps hash eq eq-Decides two_entries two_entries-IsMap

-- The sum of the values, stopped once it is over 50.
abbrev add_up : ℕ → ℕ → ℕ → Bool × ℕ
add_up sum key value = (ltb 50 (sum + value), sum + value)

hashmap_iter-visits_example :
    hashmap_iter add_up two_entries 0 ≡ some (visit add_up (all_pairs two_entries.table) false 0)
hashmap_iter-visits_example =
    hashmap_iter-visits hash eq eq-Decides two_entries add_up 0 two_entries-IsMap.table_ok

-- A map for one entry.
abbrev for_one : Hashmap ℕ ℕ
for_one = record { count = 0; table_size = 1; max_size = 0; table = entry none null ∷ [] }

for_one_lem : hashmap_init {K = ℕ} {V = ℕ} 1 ≡ for_one
unfolding hashmap_init round_up most_sig_bit
for_one_lem = refl

hashmap_put_no_room_example : hashmap_put hash eq 9 for_one 5 50 ≢ some (some (true, for_one))
hashmap_put_no_room_example = hashmap_put_no_room hash eq 9 for_one 5 50 (true, for_one) refl

clear_then_put_faults_example :
    (do
      cleared ← chain_clear {K = ℕ} {V = ℕ} (entry (some (4, 40)) (entry (some (6, 60)) null))
      (_, filled) ← chain_insert eq true 4 44 cleared
      chain_get eq 6 filled)
    ≡ none
unfolding chain_keys
clear_then_put_faults_example =
    clear_then_put_faults hash eq (4, 40) (6, 60) null [] 4 44 6 refl refl
