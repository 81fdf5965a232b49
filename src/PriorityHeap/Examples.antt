-- ===== src/PriorityHeap/Examples.antt =====
-- A heap of three numbers for src/heap.c.
use statsite.Base.{
  ℕ, zero, suc, ◌+◌, ◌≡◌, refl, [], ◌∷◌, some, ltb, if◌then◌else◌, get_or, arith, Bool, true,
}
use statsite.PriorityHeap.{Sign, minus_one, nought, plus_one, Entry, Heap, heap_insert, heap_delmin}
use statsite.PriorityHeap.Table.{count, one_if}
use statsite.PriorityHeap.Order.{leq, IsOrder, IsHeap, IsOrdered}
use statsite.PriorityHeap.Insert.{heap_insert_adds}
use statsite.PriorityHeap.Delmin.{heap_delmin_takes, heap_delmin-least}
use mathlib.Core.Option

abbrev cmp : ℕ → ℕ → Sign
cmp a b = if ltb a b then minus_one else (if ltb b a then plus_one else nought)

cmp-IsOrder : IsOrder cmp
cmp-IsOrder = record {
  flip_plus = λ a b e. ground arith;
  flip_minus = λ a b e. ground arith;
  leq_refl = λ a. ground arith;
  leq_trans = λ a b c p q. ground arith;
}

abbrev item : ℕ → Entry ℕ ℕ
item n = record { key = n; value = n }

abbrev three : Heap ℕ ℕ
three = record {
  active_entries = 3;
  allocated_pages = 1;
  minimum_pages = 1;
  table = λ i. item (get_or (2 ∷ 7 ∷ 4 ∷ []) i 0);
}

three-IsOrdered : IsOrdered cmp three.table 3
three-IsOrdered zero p q = absurd (omega arith)
three-IsOrdered (suc zero) p q = refl
three-IsOrdered (suc (suc zero)) p q = refl
three-IsOrdered (suc (suc (suc c))) p q = absurd (omega arith)

three-IsHeap : IsHeap cmp 4 three
three-IsHeap = record {
  ordered = three-IsOrdered;
  room = omega arith;
  some_page = omega arith;
  least_pages = omega arith;
}

heap_insert_adds_example :
    let r = heap_insert cmp 4 three 1 1 in
    IsHeap cmp 4 r
    × (r.active_entries ≡ 3 + 1)
    × ((p : Entry ℕ ℕ → Bool)
        → count p r.table r.active_entries ≡ count p three.table 3 + one_if (p (item 1)))
heap_insert_adds_example = heap_insert_adds cmp cmp-IsOrder 4 (omega arith) three three-IsHeap 1 1

heap_delmin_takes_example :
    (left : Heap ℕ ℕ) × (heap_delmin cmp 4 three ≡ some (item 2, left))
    × IsHeap cmp 4 left
    × (left.active_entries + 1 ≡ 3)
    × ((p : Entry ℕ ℕ → Bool)
        → count p left.table left.active_entries + one_if (p (item 2)) ≡ count p three.table 3)
heap_delmin_takes_example =
    heap_delmin_takes cmp cmp-IsOrder 4 (omega arith) three three-IsHeap (omega arith)

heap_delmin-least_example :
    Option.map (λ r. leq cmp r.0.key 4) (heap_delmin cmp 4 three) ≡ some true
heap_delmin-least_example =
    heap_delmin-least cmp cmp-IsOrder 4 (omega arith) three three-IsHeap (omega arith) 2
      (omega arith)

-- The sum of the keys.
abbrev add_key : ℕ → ℕ → ℕ → ℕ
add_key sum key value = sum + key
