-- ===== src/CmQuantile/HeapBuffers.antt =====
-- The buffers of src/cm_quantile.c on the heap of src/heap.c. The value of an entry, a sample that
-- waits, is again given as the value of the sample.
use statsite.Base.{
  ℕ, ◌+◌, ◌-◌, ◌*◌, ◌/◌, ◌≡◌, refl, ◌∙◌, ap, arith, Bool-cases, inl, inr, true, false, Option, none,
  some, ltb, leb, ◌==◌, ◌&&◌, if◌then◌else◌,
}
use statsite.Doubles.{Doubles}
use statsite.PriorityHeap.{
  Sign, minus_one, nought, plus_one, Entry, Heap, heap_create, heap_size, heap_min, heap_insert,
  heap_delmin, grow_table, shrink_table, pages_for, sift_down, sub_zero_lt,
}
use statsite.CmQuantile.{HeapOps}
use statsite.CmQuantile.Sound.{IsBuffer}

module _ {D : Type 0} (doubles : Doubles D) (per_page : ℕ) where
  open doubles use {of_nat, less, less_eq}

  -- `val1 == val2` is `<=` from both sides.
  unfoldable pub compare_double_keys : D → D → Sign
  compare_double_keys val1 val2 =
      if less val1 val2
      then minus_one
      else (if less_eq val1 val2 && less_eq val2 val1 then nought else plus_one)

  abbrev pub sample_of : Option (Entry D D) → Option D
  sample_of none = none
  sample_of (some entry) = some entry.value

  abbrev pub sample_taken : Option (Entry D D × Heap D D) → Option (D × Heap D D)
  sample_taken none = none
  sample_taken (some (entry, rest)) = some (entry.value, rest)

  unfoldable pub heap_buffers : HeapOps D (Heap D D)
  heap_buffers = record {
    heap_create = heap_create per_page (record { key = of_nat 0; value = of_nat 0 }) 0;
    heap_size = heap_size;
    heap_insert = λ h v. heap_insert compare_double_keys per_page h v v;
    heap_min = λ h. sample_of (heap_min h);
    heap_delmin = λ h. sample_taken (heap_delmin compare_double_keys per_page h);
  }

  grow_table-active : (h : Heap D D) → (grow_table per_page h).active_entries ≡ h.active_entries
  unfolding grow_table
  grow_table-active h =
      elim (Bool-cases (ltb (h.allocated_pages * per_page) (h.active_entries + 1))) [
        | inl full ↦ rw full refl
        | inr fits ↦ rw fits refl
      ]

  shrink_table-active : (h : Heap D D) → (shrink_table per_page h).active_entries ≡ h.active_entries
  unfolding shrink_table
  shrink_table-active h =
      let used_pages = pages_for per_page h.active_entries in
      elim (Bool-cases (
        ltb (used_pages + 1) (h.allocated_pages / 2)
        && leb h.minimum_pages (h.allocated_pages / 2))) [
          | inl spare ↦ rw spare refl
          | inr used ↦ rw used refl
        ]

  create-size : heap_size (heap_buffers.heap_create) ≡ 0
  unfolding heap_buffers heap_create heap_size
  create-size = refl

  insert-size :
      (h : Heap D D) (v : D)
      → heap_size (heap_insert compare_double_keys per_page h v v) ≡ heap_size h + 1
  unfolding heap_insert heap_size
  insert-size h v = ap (λ n. n + 1) (grow_table-active h)

  delmin_empty :
      (h : Heap D D)
      → (h.active_entries == 0) ≡ true
      → heap_delmin compare_double_keys per_page h ≡ none
  unfolding heap_delmin
  delmin_empty h empty = rw empty refl

  delmin_some :
      (h : Heap D D)
      → (h.active_entries == 0) ≡ false
      → (left : Heap D D) × (heap_delmin compare_double_keys per_page h ≡ some (h.table 0, left))
        × (h.active_entries ≡ left.active_entries + 1)
  unfolding heap_delmin
  delmin_some h held =
      let n = h.active_entries - 1 in
      let settled =
        sift_down compare_double_keys (n + 1) n (λ j. if j == 0 then h.table n else h.table j) 0
          (sub_zero_lt n) in
      let left : Heap D D = record h {
        active_entries = n;
        table = if ltb 0 n then settled else h.table;
      } in
      (shrink_table per_page left, rw held, ground (arith, shrink_table-active left))

  delmin-size :
      (h h' : Heap D D) (v : D)
      → sample_taken (heap_delmin compare_double_keys per_page h) ≡ some (v, h')
      → heap_size h ≡ heap_size h' + 1
  unfolding heap_size
  delmin-size h h' v e = elim (Bool-cases (h.active_entries == 0)) [
    | inl empty ↦ absurd (cc (e, delmin_empty h empty))
    | inr held ↦
        let (left, runs, size) = delmin_some h held in
        let same : left ≡ h' = cc (e, runs) in size ∙ ap (λ l. l.active_entries + 1) same
  ]

  min-delmin :
      (h : Heap D D) (v : D)
      → sample_of (heap_min h) ≡ some v
      → (v' : D) × (h' : Heap D D) × (sample_taken (heap_delmin compare_double_keys per_page h)
          ≡ some (v', h'))
  unfolding heap_min
  min-delmin h v e = elim (Bool-cases (h.active_entries == 0)) [
    | inl empty ↦ let none_left : heap_min h ≡ none = rw empty refl in absurd (cc (e, none_left))
    | inr held ↦
        let (left, runs, size) = delmin_some h held in
        ((h.table 0).value, left, ap sample_taken runs)
  ]

  pub heap_buffers-IsBuffer : IsBuffer heap_buffers
  unfolding heap_buffers
  heap_buffers-IsBuffer = record {
    size_create = create-size;
    size_insert = insert-size;
    size_delmin = delmin-size;
    min_delmin = min-delmin;
  }
