-- ===== src/PriorityHeap.antt =====
-- src/heap.c: a binary heap in a table of whole memory pages. Keys and values are pointers in the
-- code; here an entry holds the key and the value that they point to. `malloc` succeeds, and the
-- pages that it returns are cleared. `ENTRIES_PER_PAGE` is a parameter.
pub mod Table
pub mod Order
pub mod Insert
pub mod Delmin
pub mod IntKeys
pub mod Foreach
pub mod Examples
use statsite.Base.{
  ℕ, zero, suc, ◌+◌, ◌-◌, ◌*◌, ◌/◌, ◌%◌, ◌<◌, ◌≤◌, ◌≡◌, arith, Option, none, some, ltb, leb, ◌==◌,
  ◌&&◌, if◌then◌else◌,
}
use statsite.Base.Ints.{ℤ, ltb_int, eqb_int}
use mathlib.Core.Logic.{dite}
use native.Mathlib.Decide.{dec_lt}

-- What a comparison function returns. The two of the code return -1, 0 and 1 only.
pub data Sign : Type 0 where
  minus_one : Sign
  nought : Sign
  plus_one : Sign

Sign-discrete : Discrete Sign
Sign-discrete = hlevel

-- The test `< 0`, decided.
pub is_less : (s : Sign) → Dec (s ≡ minus_one)
is_less s = Sign-discrete s minus_one

-- The test `== 1`, decided.
pub is_greater : (s : Sign) → Dec (s ≡ plus_one)
is_greater s = Sign-discrete s plus_one

-- The comparison for keys that are signed ints.
unfoldable pub compare_int_keys : ℤ → ℤ → Sign
compare_int_keys key1 key2 =
    if ltb_int key1 key2 then minus_one else (if eqb_int key1 key2 then nought else plus_one)

pub record Entry {ℓ} (K V : Type ℓ) : Type ℓ where
  pub key : K
  pub value : V

-- The table from its first entry on.
abbrev pub Table {ℓ} : Type ℓ → Type ℓ → Type ℓ
Table K V = ℕ → Entry K V

pub record Heap {ℓ} (K V : Type ℓ) : Type ℓ where
  pub active_entries : ℕ
  pub allocated_pages : ℕ
  pub minimum_pages : ℕ
  pub table : Table K V

abbrev pub left_child : ℕ → ℕ
left_child i = 2 * i + 1

abbrev pub parent_entry : ℕ → ℕ
parent_entry i = (i - 1) / 2

-- How many pages hold `n` entries.
abbrev pub pages_for : ℕ → ℕ → ℕ
pages_for per_page n = n / per_page + (if ltb 0 (n % per_page) then 1 else 0)

module _ {ℓ} {K V : Type ℓ} where
  abbrev pub update : Table K V → ℕ → Entry K V → Table K V
  update t i e j = if j == i then e else t j

  unfoldable pub swap_entries : Table K V → ℕ → ℕ → Table K V
  swap_entries t i j = update (update t i (t j)) j (t i)

  -- A size that is not positive, given here as 0, asks for one page.
  unfoldable pub heap_create : (per_page : ℕ) → Entry K V → ℕ → Heap K V
  heap_create per_page cleared initial_size =
      let size = if initial_size == 0 then per_page else initial_size in
      record {
        active_entries = 0;
        allocated_pages = pages_for per_page size;
        minimum_pages = pages_for per_page size;
        table = λ _. cleared;
      }

  unfoldable pub heap_size : Heap K V → ℕ
  heap_size h = h.active_entries

  unfoldable pub heap_min : Heap K V → Option (Entry K V)
  heap_min h = if h.active_entries == 0 then none else some (h.table 0)

  -- The table is gone: `cleared` stands for what a read of it would give.
  unfoldable pub heap_destroy : Entry K V → Heap K V → Heap K V
  heap_destroy cleared h = record h {
    active_entries = 0;
    allocated_pages = 0;
    table = λ _. cleared;
  }

  -- The table doubles when it is full. The entries that are copied keep their places.
  unfoldable pub grow_table : (per_page : ℕ) → Heap K V → Heap K V
  grow_table per_page h =
      if ltb (h.allocated_pages * per_page) (h.active_entries + 1)
      then record h { allocated_pages = h.allocated_pages * 2 }
      else h

  -- One empty page is kept, not two. The entries that are copied keep their places.
  unfoldable pub shrink_table : (per_page : ℕ) → Heap K V → Heap K V
  shrink_table per_page h =
      let used_pages = pages_for per_page h.active_entries in
      if ltb (used_pages + 1) (h.allocated_pages / 2) && leb h.minimum_pages (h.allocated_pages / 2)
      then record h { allocated_pages = h.allocated_pages / 2 }
      else h

pub lt_add_one : (n : ℕ) → n < n + 1
lt_add_one n = omega arith

pub sub_zero_lt : (n : ℕ) → n - 0 < n + 1
sub_zero_lt n = omega arith

pub parent_lt : (k i : ℕ) → 0 < i → i < suc k → parent_entry i < k
parent_lt k i pos h = omega arith

module _ {ℓ} {K V : Type ℓ} (cmp_func : K → K → Sign) where
  -- The loop of `heap_insert`: parents with a greater key move down. `k` bounds the rounds. The
  -- result is the table and the index at which the new entry goes in.
  unfoldable pub sift_up : (k : ℕ) → Table K V → K → (i : ℕ) → i < k → Table K V × ℕ
  sift_up zero t key i h = elim h [ ]
  sift_up (suc k) t key i h =
      dite (dec_lt 0 i)
        (λ pos.
          let rise =
            sift_up k (update t i (t (parent_entry i))) key (parent_entry i)
              (parent_lt k i pos h) in
          elim (cmp_func key (t (parent_entry i)).key) [ minus_one ↦ rise | _ ↦ (t, i) ])
        (λ _. (t, i))

  unfoldable pub heap_insert : (per_page : ℕ) → Heap K V → K → V → Heap K V
  heap_insert per_page h key value =
      let g = grow_table per_page h in
      let n = g.active_entries in
      let (t, i) = sift_up (n + 1) g.table key n (lt_add_one n) in
      record g { table = update t i (record { key = key; value = value }); active_entries = n + 1 }

  -- The child to compare with: the left one, unless there is a right one with a smaller key.
  unfoldable pub smaller_child : (entries : ℕ) → Table K V → ℕ → ℕ
  smaller_child entries t i =
      let left = left_child i in
      if ltb (left + 1) entries
      then (elim (cmp_func (t left).key (t (left + 1)).key) [ plus_one ↦ left + 1 | _ ↦ left ])
      else left

  pub smaller_child_bounds :
      (n : ℕ) (t : Table K V) (i : ℕ)
      → left_child i < n
      → (i < smaller_child n t i) × (smaller_child n t i < n)
  unfolding smaller_child
  smaller_child_bounds n t i h = ground arith

  pub sink_lt :
      (k n : ℕ) (t : Table K V) (i : ℕ)
      → left_child i < n
      → n - i < suc k
      → n - smaller_child n t i < k
  sink_lt k n t i lt h = omega (arith, smaller_child_bounds n t i lt)

  -- The loop of `heap_delmin`: the entry sinks below the children with a smaller key.
  unfoldable pub sift_down : (k entries : ℕ) → Table K V → (i : ℕ) → entries - i < k → Table K V
  sift_down zero n t i h = elim h [ ]
  sift_down (suc k) n t i h =
      dite (dec_lt (left_child i) n)
        (λ lt.
          let child = smaller_child n t i in
          let sink = sift_down k n (swap_entries t i child) child (sink_lt k n t i lt h) in
          elim (cmp_func (t i).key (t child).key) [ plus_one ↦ sink | _ ↦ t ])
        (λ _. t)

  -- `none` is 0, for an empty heap.
  unfoldable pub heap_delmin : (per_page : ℕ) → Heap K V → Option (Entry K V × Heap K V)
  heap_delmin per_page h =
      let n = h.active_entries - 1 in
      let root = h.table 0 in
      let settled = sift_down (n + 1) n (update h.table 0 (h.table n)) 0 (sub_zero_lt n) in
      let t = if ltb 0 n then settled else h.table in
      if h.active_entries == 0
      then none
      else some (root, shrink_table per_page (record h { active_entries = n; table = t }))

-- `func` works on a state of its own. The loop has `left` rounds to go.
module _ {ℓ} {K V S : Type ℓ} (func : S → K → V → S) where
  unfoldable pub foreach_from : (left index : ℕ) → Table K V → S → S
  foreach_from zero index t st = st
  foreach_from (suc left) index t st =
      foreach_from left (index + 1) t (func st (t index).key (t index).value)

  unfoldable pub heap_foreach : Heap K V → S → S
  heap_foreach h st = foreach_from h.active_entries 0 h.table st
