-- ===== src/PriorityHeap/Insert.antt =====
-- `heap_insert` keeps the heap order and adds exactly the new entry.
use statsite.Base.{
  ℕ, zero, suc, ◌+◌, ◌*◌, ◌≤◌, ◌<◌, ◌≡◌, ◌≢◌, refl, ap, ap₂, ◌∙◌, arith, Bool, true, ltb, ◌⊎◌, inl,
  inr, Bool-cases, ltb_false→le,
}
use statsite.PriorityHeap.{
  Sign, minus_one, Entry, Table, Heap, update, parent_entry, sift_up, grow_table, heap_insert,
  parent_lt, lt_add_one, is_less,
}
use statsite.PriorityHeap.Table.{count, one_if, count-update, count-update_past}
use statsite.PriorityHeap.Order.{leq, IsOrder, IsOrdered, IsHeap}
use native.Mathlib.Decide.{dec_lt}
use native.Mathlib.Bridge.{le_prop}
use mathlib.Core.Logic.{dif_pos, dif_neg}

mul_pos : (a b : ℕ) → 0 < a → 0 < b → 0 < a * b
mul_pos a b p q = grind arith

appended {ℓ} :
    {K V : Type ℓ} (p : Entry K V → Bool) (t : Table K V) (n : ℕ) (e : Entry K V)
    → count p (update t n e) (suc n) ≡ count p t n + one_if (p e)
unfolding count
appended p t n e =
    let same : update t n e n ≡ e = ground arith in
    rw (count-update_past p t n n e (omega arith), same)

module _ {ℓ} {K V : Type ℓ} (cmp : K → K → Sign) (o : IsOrder cmp) where
  -- While the new entry looks for its place `i`, all entries up to index `n` are in order but for
  -- the free place, and those below the free place are in order with the new key and with the
  -- parent of the place.
  record HasGap (t : Table K V) (key : K) (n i : ℕ) : Type 0 where
    inside : i ≤ n
    edges :
        (c : ℕ)
        → 0 < c
        → c ≤ n
        → c ≢ i
        → parent_entry c ≢ i
        → leq cmp (t (parent_entry c)).key (t c).key ≡ true
    below : (c : ℕ) → 0 < c → c ≤ n → parent_entry c ≡ i → leq cmp key (t c).key ≡ true
    bridged :
        (c : ℕ)
        → 0 < c
        → c ≤ n
        → parent_entry c ≡ i
        → 0 < i
        → leq cmp (t (parent_entry i)).key (t c).key ≡ true

  abbrev Above : Table K V → K → ℕ → Type 0
  Above t key i = (i ≡ 0) ⊎ (leq cmp (t (parent_entry i)).key key ≡ true)

  record Placed (t : Table K V) (e : Entry K V) (n i : ℕ) (r : Table K V × ℕ) : Type ℓ where
    gap : HasGap r.0 e.key n r.1
    above : Above r.0 e.key r.1
    same :
        (p : Entry K V → Bool) → count p (update r.0 r.1 e) (suc n) ≡ count p (update t i e) (suc n)

  -- One round: the parent moves down into the free place, which moves up.
  rise :
      (t : Table K V) (key : K) (n i : ℕ)
      → HasGap t key n i
      → 0 < i
      → cmp key (t (parent_entry i)).key ≡ minus_one
      → HasGap (update t i (t (parent_entry i))) key n (parent_entry i)
  rise t key n i g pos less =
      let up = parent_entry i in
      record {
        inside = omega arith;
        edges = λ c p q r u. ground (arith, g.edges c, g.bridged c);
        below = λ c p q r. ground (arith, g.edges c, o.leq_trans key (t up).key (t c).key);
        bridged = λ c p q r u. ground (
          arith,
          g.edges c,
          g.edges up,
          o.leq_trans (t (parent_entry up)).key (t up).key (t c).key,
        );
      }

  rise-count :
      (p : Entry K V → Bool) (t : Table K V) (e : Entry K V) (n i : ℕ)
      → 0 < i
      → i ≤ n
      → count p (update (update t i (t (parent_entry i))) (parent_entry i) e) (suc n)
        ≡ count p (update t i e) (suc n)
  rise-count p t e n i pos le =
      let up = parent_entry i in
      ground (
        arith,
        count-update p t (suc n) i (t up),
        count-update p t (suc n) i e,
        count-update p (update t i (t up)) (suc n) up e,
      )

  module _ (k : ℕ) (t : Table K V) (key : K) (i : ℕ) (h : i < suc k) where
    stops_at_root : ¬ (0 < i) → sift_up cmp (suc k) t key i h ≡ (t, i)
    unfolding sift_up
    stops_at_root root = dif_neg (dec_lt 0 i) root _ _

    stops :
        0 < i
        → cmp key (t (parent_entry i)).key ≢ minus_one
        → sift_up cmp (suc k) t key i h ≡ (t, i)
    unfolding sift_up
    stops pos ne = dif_pos (dec_lt 0 i) le_prop pos _ _ ∙ ground arith

    rises :
        (pos : 0 < i)
        → cmp key (t (parent_entry i)).key ≡ minus_one
        → sift_up cmp (suc k) t key i h
          ≡ sift_up cmp k
              (update t i (t (parent_entry i)))
              key
              (parent_entry i)
              (parent_lt k i pos h)
    unfolding sift_up
    rises pos e = dif_pos (dec_lt 0 i) le_prop pos _ _ ∙ rw e

  sift_up_places :
      (k : ℕ) (t : Table K V) (e : Entry K V) (n i : ℕ) (h : i < k)
      → HasGap t e.key n i
      → Placed t e n i (sift_up cmp k t e.key i h)
  sift_up_places zero t e n i h g = elim h [ ]
  sift_up_places (suc k) t e n i h g = elim (dec_lt 0 i) [
    | no root ↦
        rw (stops_at_root k t e.key i h root)
          (record { gap = g; above = inl (omega arith); same = λ p. refl })
    | yes pos ↦ elim (is_less (cmp e.key (t (parent_entry i)).key)) [
      | no ne ↦ rw (stops k t e.key i h pos ne) (record {
        gap = g;
        above = inr (ground (arith, o.flip_plus (t (parent_entry i)).key e.key));
        same = λ p. refl;
      })
      | yes less ↦
          let up = parent_entry i in
          let placed =
            sift_up_places k (update t i (t up)) e n up (parent_lt k i pos h)
              (rise t e.key n i g pos less) in
          rw (rises k t e.key i h pos less) (record {
            gap = placed.gap;
            above = placed.above;
            same = λ p. placed.same p ∙ rise-count p t e n i pos g.inside;
          })
    ]
  ]

  -- A placed entry completes the order.
  Placed-IsOrdered :
      (t : Table K V) (e : Entry K V) (n i : ℕ) (r : Table K V × ℕ)
      → Placed t e n i r
      → IsOrdered cmp (update r.0 r.1 e) (suc n)
  Placed-IsOrdered t e n i r d c pos lt = elim d.above [
    | inl root ↦ ground (arith, d.gap.edges c, d.gap.below c)
    | inr above ↦ ground (arith, d.gap.edges c, d.gap.below c)
  ]

  module _ (per_page : ℕ) (page : 0 < per_page) (h : Heap K V) (v : IsHeap cmp per_page h) where
    -- The pages hold one more entry.
    grow_table_room :
        let g = grow_table per_page h in
        (h.active_entries + 1 ≤ g.allocated_pages * per_page)
        × (g.active_entries ≡ h.active_entries)
        × (h.minimum_pages ≤ g.allocated_pages)
    unfolding grow_table
    grow_table_room =
        elim (Bool-cases (ltb (h.allocated_pages * per_page) (h.active_entries + 1))) [
          | inl full ↦
              let some_entry = mul_pos h.allocated_pages per_page (omega arith) page in
              rw full (omega arith, refl, omega arith)
          | inr fits ↦ rw fits (ltb_false→le _ _ fits, refl, v.least_pages)
        ]

    grow_table_same :
        let g = grow_table per_page h in (g.table ≡ h.table) × (g.minimum_pages ≡ h.minimum_pages)
    unfolding grow_table
    grow_table_same =
        elim (Bool-cases (ltb (h.allocated_pages * per_page) (h.active_entries + 1))) [
          | inl full ↦ rw full (refl, refl)
          | inr fits ↦ rw fits (refl, refl)
        ]

    module _ (key : K) (value : V) where
      abbrev entry : Entry K V
      entry = record { key = key; value = value }

      -- With a comparison that is a total order, heap_insert into a heap in order keeps the heap
      -- order and its room in the pages, and adds the new entry to those that the heap held, each
      -- as often as before.
      pub heap_insert_adds :
          let r = heap_insert cmp per_page h key value in
          IsHeap cmp per_page r
          × (r.active_entries ≡ h.active_entries + 1)
          × ((p : Entry K V → Bool)
              → count p r.table r.active_entries
                ≡ count p h.table h.active_entries + one_if (p entry))
      unfolding heap_insert
      heap_insert_adds =
          let g = grow_table per_page h in
          let (room, active, least) = grow_table_room in
          let (table, minimum) = grow_table_same in
          let n = g.active_entries in
          let start : HasGap g.table key n n = record {
            inside = omega arith;
            edges = λ c p q r u. rw table (v.ordered c p (omega arith));
            below = λ c p q r. absurd (omega arith);
            bridged = λ c p q r u. absurd (omega arith);
          } in
          let placed = sift_up_places (n + 1) g.table entry n n (lt_add_one n) start in
          let next : n + 1 ≡ suc n = omega arith in
          (
            record {
              ordered = λ c pos lt. Placed-IsOrdered g.table entry n n _ placed c pos (omega arith);
              room = omega arith;
              some_page = omega (arith, v.some_page);
              least_pages = omega arith;
            },
            omega arith,
            λ p.
                ap (count p _) next
                ∙ placed.same p
                ∙ appended p g.table n entry
                ∙ ap₂ (λ t m. count p t m + one_if (p entry)) table active,
          )
