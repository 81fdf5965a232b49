-- ===== src/CmQuantile/PlaceKeeps.antt =====
-- The loop of `cm_insert` of src/cm_quantile.c at one cursor reads through no null pointer and loses
-- no value.
use statsite.Base.{
  ℕ, zero, suc, ◌+◌, ◌<◌, ◌≡◌, refl, Bool, Option, none, some, arith, length, get_elem?-some,
  length-insert_at, if◌then◌else◌, Bool-cases, Option-cases, inl, inr, ◌⊎◌,
}
use statsite.Base.Words.{add64}
use statsite.Doubles.{Doubles}
use statsite.CmQuantile.{HeapOps, CmSample, CmQuantile}
use statsite.CmQuantile.Insert.{
  shifted, rank_with, new_sample, placed, place_before, take_least, insert_before,
}
use statsite.CmQuantile.Sound.{
  IsBuffer, total-insert_at, Holds, IsSketch, Keeps, Keeps-same, Keeps-then,
}

module _ {D H : Type 0} (doubles : Doubles D) (heap : HeapOps D H) (laws : IsBuffer heap) where
  open heap use {heap_size, heap_delmin}

  shifted-in :
      (i n c : ℕ) (o : Option ℕ)
      → ((c : ℕ) → o ≡ some c → c + 1 < n)
      → shifted doubles heap i o ≡ some c
      → c + 1 < n + 1
  shifted-in i n c none h e = absurd (cc)
  shifted-in i n c (some k) h e = ground (arith, h k refl)

  placed-IsSketch :
      (cm : CmQuantile D H) (i : ℕ) (value : D) (rest : H) (at_cursor : CmSample D) (rank : ℕ)
      → IsSketch heap cm
      → i < length cm.samples
      → heap_size cm.buf_more ≡ heap_size rest + 1
      → IsSketch heap (placed doubles heap cm i value rest at_cursor rank)
        × Holds heap cm (placed doubles heap cm i value rest at_cursor rank)
  unfolding placed
  placed-IsSketch cm i value rest at_cursor rank v lt size =
      let t = total-insert_at cm.samples i (new_sample doubles heap value at_cursor) in
      let l = length-insert_at cm.samples i (new_sample doubles heap value at_cursor) in
      (
        record {
          counted = omega (arith, v.counted, v.no_more, v.small, l);
          weighed = omega (arith, v.weighed, v.small, t);
          no_more = omega (arith, v.no_more, t, l);
          small = omega (arith, v.small, t, size);
          insert_in = λ k e. ground (arith, l);
          compress_in = λ c e.
              omega (arith, shifted-in i (length cm.samples) c cm.compress_curs v.compress_in e, l);
        },
        (omega (arith, t, size), omega (arith, t)),
      )

  rank_with-some :
      (cm : CmQuantile D H) (value : D)
      → IsSketch heap cm
      → (rank : ℕ) × (rank_with doubles heap cm value ≡ some rank)
  unfolding rank_with
  rank_with-some cm value v = elim (Option-cases cm.compress_curs) [
    | inl e ↦ (cm.min_rank, rw (e, rank_with) refl)
    | inr (c, e) ↦
        let (s, f) = get_elem?-some cm.samples c (omega (arith, v.compress_in c e)) in
        (
          if doubles.less_eq value s.value then add64 cm.min_rank 1 else cm.min_rank,
          rw (e, f, rank_with) refl,
        )
  ]

  -- What is taken out of a buffer, if anything.
  pub take_least-cases :
      (h : H) (wanted : D → Bool)
      → (take_least doubles heap h wanted ≡ some none)
        ⊎ ((v : D) × (rest : H) × (take_least doubles heap h wanted ≡ some (some (v, rest)))
            × (heap_size h ≡ heap_size rest + 1))
  take_least-cases h wanted = elim (Option-cases (heap.heap_min h)) [
    | inl e ↦ inl (rw (e, take_least) refl)
    | inr (val, e) ↦ elim (Bool-cases (wanted val)) [
      | inr no_want ↦ inl (rw (e, no_want, take_least) refl)
      | inl want ↦
          let (v, rest, taken) = laws.min_delmin h val e in
          inr (v, rest, rw (e, want, taken, take_least) refl, laws.size_delmin h rest v taken)
    ]
  ]

  place_before-Keeps :
      (cm : CmQuantile D H) (i : ℕ) (value : D) (rest : H)
      → IsSketch heap cm
      → i < length cm.samples
      → heap_size cm.buf_more ≡ heap_size rest + 1
      → (k : Keeps heap cm (place_before doubles heap cm i value rest)) × (k.after.insert_curs
          ≡ some (i + 1))
  unfolding place_before placed
  place_before-Keeps cm i value rest v lt size =
      let (at_cursor, e) = get_elem?-some cm.samples i lt in
      let (rank, f) = rank_with-some cm value v in
      let (sketch, same) = placed-IsSketch cm i value rest at_cursor rank v lt size in
      (
        record {
          after = placed doubles heap cm i value rest at_cursor rank;
          runs = rw (e, f, place_before) refl;
          sketch = sketch;
          holds = same;
        },
        refl,
      )

  pub insert_before-Keeps :
      (fuel : ℕ) (cm : CmQuantile D H) (i : ℕ)
      → IsSketch heap cm
      → cm.insert_curs ≡ some i
      → Keeps heap cm (insert_before doubles heap fuel cm i)
  unfolding insert_before
  insert_before-Keeps zero cm i v at_i = Keeps-same heap cm v
  insert_before-Keeps (suc fuel) cm i v at_i =
      let lt = v.insert_in i at_i in
      let (at_cursor, e) = get_elem?-some cm.samples i lt in
      elim (take_least-cases cm.buf_more (λ val. doubles.less_eq val at_cursor.value)) [
        | inl stop ↦ rw (e, insert_before, stop) (Keeps-same heap cm v)
        | inr (value, rest, found, size) ↦
            let (k, moved) = place_before-Keeps cm i value rest v lt size in
            rw (e, insert_before, found)
              (Keeps-then heap cm _ (λ cm'. insert_before doubles heap fuel cm' (i + 1)) k
                (insert_before-Keeps fuel k.after (i + 1) k.sketch moved))
      ]
