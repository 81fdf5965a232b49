-- ===== src/PriorityHeap/Delmin.antt =====
-- `heap_delmin` takes out an entry with the least key, and keeps the heap order of the others.
use statsite.Base.{
  ℕ, zero, suc, ◌+◌, ◌-◌, ◌*◌, ◌/◌, ◌%◌, ◌≤◌, ◌<◌, ◌≡◌, ◌≢◌, refl, sym, ap, ap₂, ◌∙◌, arith, Bool,
  true, false, ◌==◌, ltb, leb, ◌&&◌, if◌then◌else◌, ◌⊎◌, inl, inr, Bool-cases, ltb_false→le, lt→ltb,
  some, none,
}
use statsite.PriorityHeap.{
  Sign, plus_one, Entry, Table, Heap, update, swap_entries, parent_entry, left_child, pages_for,
  smaller_child, smaller_child_bounds, sift_down, sink_lt, shrink_table, heap_delmin, sub_zero_lt,
  is_greater,
}
use statsite.PriorityHeap.Table.{count, one_if, count-update, count-swap}
use statsite.PriorityHeap.Order.{leq, IsOrder, IsOrdered, IsHeap, root_least}
use native.Mathlib.Decide.{dec_lt, ℕ_discrete}
use native.Mathlib.Bridge.{le_prop}
use native.Mathlib.Nat.{div-add-mod, mod-lt, mul-le-mul_right}
use mathlib.Core.Option
use mathlib.Core.Logic.{dif_pos, dif_neg}

children : (c i : ℕ) → 0 < c → parent_entry c ≡ i → (c ≡ left_child i) ⊎ (c ≡ left_child i + 1)
children c i p r = elim (ℕ_discrete c (left_child i)) [ yes e ↦ inl e | no ne ↦ inr (omega arith) ]

module _ {ℓ} {K V : Type ℓ} (cmp : K → K → Sign) (o : IsOrder cmp) where
  -- Only the edges below `i` may be out of order.
  record IsSinking (t : Table K V) (n i : ℕ) : Type 0 where
    edges :
        (c : ℕ)
        → 0 < c
        → c < n
        → parent_entry c ≢ i
        → leq cmp (t (parent_entry c)).key (t c).key ≡ true
    bridged :
        (c : ℕ)
        → 0 < c
        → c < n
        → parent_entry c ≡ i
        → 0 < i
        → leq cmp (t (parent_entry i)).key (t c).key ≡ true

  -- The child that `smaller_child` picks: no other child has a smaller key.
  picked :
      (n : ℕ) (t : Table K V) (i : ℕ)
      → left_child i < n
      → (parent_entry (smaller_child cmp n t i) ≡ i)
        × ((c : ℕ)
            → 0 < c
            → c < n
            → parent_entry c ≡ i
            → leq cmp (t (smaller_child cmp n t i)).key (t c).key ≡ true)
  unfolding smaller_child
  picked n t i h = (
    ground arith,
    λ c p q r.
        let left = left_child i in
        let flip = o.flip_plus (t left).key (t (left + 1)).key in
        elim (children c i p r) [
          | inl e ↦ rw e (ground (arith, flip, o.leq_refl (t left).key))
          | inr e ↦ rw e (ground (arith, flip, o.leq_refl (t (left + 1)).key))
        ],
  )

  sink :
      (t : Table K V) (n i : ℕ)
      → IsSinking t n i
      → left_child i < n
      → cmp (t i).key (t (smaller_child cmp n t i)).key ≡ plus_one
      → IsSinking (swap_entries t i (smaller_child cmp n t i)) n (smaller_child cmp n t i)
  unfolding swap_entries
  sink t n i g lt more =
      let m = smaller_child cmp n t i in
      let (parent, least) = picked n t i lt in
      let (gt, inside) = smaller_child_bounds cmp n t i lt in
      record {
        edges = λ c p q r.
            ground (arith, g.edges c, g.bridged m, least c, o.flip_plus (t i).key (t m).key);
        bridged = λ c p q r u. ground (arith, g.edges c);
      }

  settled :
      (t : Table K V) (n i : ℕ)
      → IsSinking t n i
      → left_child i < n
      → cmp (t i).key (t (smaller_child cmp n t i)).key ≢ plus_one
      → IsOrdered cmp t n
  settled t n i g lt ne c pos inside =
      let m = smaller_child cmp n t i in
      let (parent, least) = picked n t i lt in
      elim (ℕ_discrete (parent_entry c) i) [
        | no other ↦ g.edges c pos inside other
        | yes e ↦
            let first : leq cmp (t i).key (t m).key ≡ true = ground arith in
            rw e (o.leq_trans (t i).key (t m).key (t c).key first (least c pos inside e))
      ]

  module _ (k n : ℕ) (t : Table K V) (i : ℕ) (h : n - i < suc k) where
    rests_at_leaf : ¬ (left_child i < n) → sift_down cmp (suc k) n t i h ≡ t
    unfolding sift_down
    rests_at_leaf leaf = dif_neg (dec_lt (left_child i) n) leaf _ _

    rests :
        left_child i < n
        → cmp (t i).key (t (smaller_child cmp n t i)).key ≢ plus_one
        → sift_down cmp (suc k) n t i h ≡ t
    unfolding sift_down
    rests lt ne = dif_pos (dec_lt (left_child i) n) le_prop lt _ _ ∙ ground arith

    sinks :
        (lt : left_child i < n)
        → cmp (t i).key (t (smaller_child cmp n t i)).key ≡ plus_one
        → sift_down cmp (suc k) n t i h
          ≡ sift_down cmp k n
              (swap_entries t i (smaller_child cmp n t i))
              (smaller_child cmp n t i)
              (sink_lt cmp k n t i lt h)
    unfolding sift_down
    sinks lt e = dif_pos (dec_lt (left_child i) n) le_prop lt _ _ ∙ rw e

  -- The loop restores the order, and moves entries without losing one.
  sift_down_restores :
      (k n : ℕ) (t : Table K V) (i : ℕ) (h : n - i < k)
      → IsSinking t n i
      → IsOrdered cmp (sift_down cmp k n t i h) n
        × ((p : Entry K V → Bool) → count p (sift_down cmp k n t i h) n ≡ count p t n)
  sift_down_restores zero n t i h g = elim h [ ]
  sift_down_restores (suc k) n t i h g = elim (dec_lt (left_child i) n) [
    | no leaf ↦
        rw (rests_at_leaf k n t i h leaf)
          (λ c pos inside. g.edges c pos inside (omega arith), λ p. refl)
    | yes lt ↦
        let m = smaller_child cmp n t i in
        let (gt, inside) = smaller_child_bounds cmp n t i lt in
        elim (is_greater (cmp (t i).key (t m).key)) [
          | no ne ↦ rw (rests k n t i h lt ne) (settled t n i g lt ne, λ p. refl)
          | yes more ↦
              let (ordered, same) =
                sift_down_restores k n (swap_entries t i m) m (sink_lt cmp k n t i lt h)
                  (sink t n i g lt more) in
              rw (sinks k n t i h lt more)
                (ordered, λ p. same p ∙ count-swap p t n i m (omega arith) inside)
        ]
  ]

-- Enough pages for `n` entries hold them.
pages_for_hold : (per_page n : ℕ) → 0 < per_page → n ≤ pages_for per_page n * per_page
pages_for_hold per_page n page =
    let whole = div-add-mod n per_page in
    let rest = mod-lt n page in
    elim (Bool-cases (ltb 0 (n % per_page))) [
      | inl more ↦ rw more (omega arith)
      | inr exact ↦ rw exact (omega (arith, ltb_false→le _ _ exact))
    ]

module _ {ℓ} {K V : Type ℓ} (cmp : K → K → Sign) (o : IsOrder cmp) (per_page : ℕ)
    (page : 0 < per_page) where
  -- Giving pages back keeps the entries in their room.
  shrink_table_keeps :
      (h : Heap K V)
      → IsHeap cmp per_page h
      → IsHeap cmp per_page (shrink_table per_page h)
        × ((shrink_table per_page h).table ≡ h.table)
        × ((shrink_table per_page h).active_entries ≡ h.active_entries)
        × ((shrink_table per_page h).minimum_pages ≡ h.minimum_pages)
  unfolding shrink_table
  shrink_table_keeps h v =
      let used = pages_for per_page h.active_entries in
      let half = h.allocated_pages / 2 in
      elim (Bool-cases (ltb (used + 1) half && leb h.minimum_pages half)) [
        | inr keep ↦ rw keep (v, refl, refl, refl)
        | inl give ↦
            let enough : used ≤ half = ground arith in
            let least : h.minimum_pages ≤ half = ground arith in
            let held = pages_for_hold per_page h.active_entries page in
            let more = mul-le-mul_right per_page enough in
            rw give (
              record {
                ordered = v.ordered;
                room = omega arith;
                some_page = v.some_page;
                least_pages = least;
              },
              refl,
              refl,
              refl,
            )
      ]

  module _ (h : Heap K V) (v : IsHeap cmp per_page h) (some_entry : 0 < h.active_entries) where
    last : ℕ
    last = h.active_entries - 1

    -- The table that is left: the last entry goes to the root and sinks.
    left_table : Table K V
    left_table =
        if ltb 0 last
        then sift_down cmp (last + 1) last (update h.table 0 (h.table last)) 0 (sub_zero_lt last)
        else h.table

    left_heap : Heap K V
    left_heap = record h { active_entries = last; table = left_table }

    delmin_runs : heap_delmin cmp per_page h ≡ some (h.table 0, shrink_table per_page left_heap)
    unfolding heap_delmin left_heap left_table last
    delmin_runs = let ne : (h.active_entries == 0) ≡ false = ground arith in rw ne

    start : IsSinking cmp o (update h.table 0 (h.table last)) last 0
    unfolding last
    start = record {
      edges = λ c p q r. ground (arith, v.ordered c);
      bridged = λ c p q r u. absurd (omega arith);
    }

    counted :
        (p : Entry K V → Bool)
        → count p h.table h.active_entries ≡ count p h.table last + one_if (p (h.table last))
    unfolding last
    counted p =
        let next : h.active_entries ≡ suc (h.active_entries - 1) = omega arith in
        ap (count p h.table) next ∙ unfold count in refl

    many :
        0 < last
        → IsOrdered cmp left_table last
          × ((p : Entry K V → Bool)
              → count p left_table last + one_if (p (h.table 0)) ≡ count p h.table h.active_entries)
    unfolding left_table
    many pos =
        let replaced = update h.table 0 (h.table last) in
        let (ordered, same) =
          sift_down_restores cmp o (last + 1) last replaced 0 (sub_zero_lt last) start in
        rw (lt→ltb 0 last pos) (
          ordered,
          λ p. omega (arith, same p, counted p, count-update p h.table last 0 (h.table last) pos),
        )

    single :
        last ≡ 0
        → IsOrdered cmp left_table last
          × ((p : Entry K V → Bool)
              → count p left_table last + one_if (p (h.table 0)) ≡ count p h.table h.active_entries)
    unfolding left_table
    single z =
        let keep : left_table ≡ h.table = rw (z, left_table) in
        rw keep (
          λ c pos inside. absurd (omega arith),
          λ p. sym (counted p ∙ ap (λ l. count p h.table last + one_if (p (h.table l))) z),
        )

    left_lem :
        IsOrdered cmp left_table last
        × ((p : Entry K V → Bool)
            → count p left_table last + one_if (p (h.table 0)) ≡ count p h.table h.active_entries)
    left_lem = elim (ℕ_discrete last 0) [ yes z ↦ single z | no nz ↦ many (omega arith) ]

    -- With a comparison that is a total order, heap_delmin on a heap in order that is not empty
    -- takes out the root. What is left is a heap in order of all the other entries, each as often
    -- as before.
    pub heap_delmin_takes :
        (left : Heap K V) × (heap_delmin cmp per_page h ≡ some (h.table 0, left))
        × IsHeap cmp per_page left
        × (left.active_entries + 1 ≡ h.active_entries)
        × ((p : Entry K V → Bool)
            → count p left.table left.active_entries + one_if (p (h.table 0))
              ≡ count p h.table h.active_entries)
    unfolding left_heap last
    heap_delmin_takes =
        let (ordered, same) = left_lem in
        let (ok, table, active, minimum) = shrink_table_keeps left_heap (record {
          ordered = ordered;
          room = omega (arith, v.room);
          some_page = v.some_page;
          least_pages = v.least_pages;
        }) in
        (
          shrink_table per_page left_heap,
          delmin_runs,
          ok,
          omega arith,
          λ p. ap₂ (λ t n. count p t n + one_if (p (h.table 0))) table active ∙ same p,
        )

    -- With a comparison that is a total order, the entry that heap_delmin takes out of a heap in
    -- order that is not empty has a key that is at most any key in the heap.
    pub heap_delmin-least :
        (i : ℕ)
        → i < h.active_entries
        → Option.map (λ r. leq cmp r.0.key (h.table i).key) (heap_delmin cmp per_page h) ≡ some true
    heap_delmin-least i lt = rw (
      delmin_runs,
      root_least cmp o h.table h.active_entries v.ordered (suc i) i (omega arith) lt,
    )

-- An empty heap has nothing to give.
pub heap_delmin-empty {ℓ} :
    {K V : Type ℓ} (cmp : K → K → Sign) (per_page : ℕ) (h : Heap K V)
    → h.active_entries ≡ 0
    → heap_delmin cmp per_page h ≡ none
unfolding heap_delmin
heap_delmin-empty cmp per_page h z = rw z
