-- ===== src/CmQuantile/InsertKeeps.antt =====
-- `cm_insert` of src/cm_quantile.c reads through no null pointer and loses no value.
use statsite.Base.{
  ℕ, zero, suc, ◌+◌, ◌<◌, ◌≡◌, refl, sym, subst, ap, List, [], ◌∷◌, Option, none, some, arith, ltb,
  length, length-append, ◌>>=◌, if◌then◌else◌, Option-cases, inl, inr,
}
use statsite.Doubles.{Doubles}
use statsite.CmQuantile.{HeapOps, CmSample, CmQuantile, cm_reset_insert_cursor, cm_cursor_increment}
use statsite.CmQuantile.Insert.{
  insert_before, next_curs, insert_rounds, last_value, append_sample, append_behind, insert_first,
  with_curs, insert_end, cm_insert,
}
use statsite.CmQuantile.Sound.{
  IsBuffer, total, length-pos, total-append, Holds, Holds-same, IsSketch, Keeps, Keeps-same,
  Keeps-then, Keeps-from, moved-IsSketch,
}
use statsite.CmQuantile.PlaceKeeps.{take_least-cases, insert_before-Keeps}

module _ {D H : Type 0} (doubles : Doubles D) (heap : HeapOps D H) (laws : IsBuffer heap) where
  open heap use {heap_size, heap_delmin}

  next_curs-IsSketch :
      (cm : CmQuantile D H)
      → IsSketch heap cm
      → IsSketch heap (next_curs doubles heap cm) × Holds heap cm (next_curs doubles heap cm)
  unfolding next_curs
  next_curs-IsSketch cm v = elim (Option-cases cm.insert_curs) [
    | inl e ↦ rw (e, next_curs) (v, Holds-same heap cm)
    | inr (i, e) ↦
        rw (e, next_curs)
          (
            moved-IsSketch heap cm (if ltb (i + 1) (length cm.samples) then some (i + 1) else none)
                v (λ j f. ground arith),
            (refl, omega arith),
          )
  ]

  -- A turn of the loop, by the cursor.
  abbrev rounds_from : ℕ → CmQuantile D H → Option ℕ → Option (CmQuantile D H)
  rounds_from rounds cm curs = elim curs [
    | none ↦ some cm
    | some i ↦ insert_before doubles heap (heap_size cm.buf_more) cm i >>= λ cm'.
        insert_rounds doubles heap rounds (next_curs doubles heap cm')
  ]

  insert_rounds-Keeps :
      (rounds : ℕ) (cm : CmQuantile D H)
      → IsSketch heap cm
      → Keeps heap cm (insert_rounds doubles heap rounds cm)
  unfolding insert_rounds
  insert_rounds-Keeps zero cm v = Keeps-same heap cm v
  insert_rounds-Keeps (suc rounds) cm v = elim (Option-cases cm.insert_curs) [
    | inl e ↦
        let stops : insert_rounds doubles heap (suc rounds) cm ≡ some cm =
          ap (rounds_from rounds cm) e in
        subst (Keeps heap cm) (sym stops) (Keeps-same heap cm v)
    | inr (i, e) ↦
        let k = insert_before-Keeps doubles heap laws (heap_size cm.buf_more) cm i v e in
        let (sketch, same) = next_curs-IsSketch k.after k.sketch in
        let goes = ap (rounds_from rounds cm) e in
        subst (Keeps heap cm) (sym goes) (
          Keeps-then heap cm (insert_before doubles heap (heap_size cm.buf_more) cm i)
            (λ cm'. insert_rounds doubles heap rounds (next_curs doubles heap cm')) k
            (Keeps-from heap k.after (next_curs doubles heap k.after) _ same
              (insert_rounds-Keeps rounds (next_curs doubles heap k.after) sketch)))
  ]

  last_value-some :
      (xs : List (CmSample D)) → 0 < length xs → (v : D) × (last_value doubles heap xs ≡ some v)
  last_value-some [] h = absurd (omega arith)
  last_value-some (x ∷ []) h = (x.value, refl)
  last_value-some (x ∷ y ∷ xs) h = last_value-some (y ∷ xs) (omega arith)

  append_sample-IsSketch :
      (cm : CmQuantile D H) (value : D) (rest : H)
      → IsSketch heap cm
      → heap_size cm.buf_more ≡ heap_size rest + 1
      → IsSketch heap (append_sample doubles heap cm value rest)
        × Holds heap cm (append_sample doubles heap cm value rest)
        × (0 < length (append_sample doubles heap cm value rest).samples)
  unfolding append_sample total
  append_sample-IsSketch cm value rest v size =
      let s : CmSample D = record { value = value; width = 1; delta = 0 } in
      let t = total-append cm.samples (s ∷ []) in
      let l = length-append cm.samples (s ∷ []) in
      (
        record {
          counted = omega (arith, v.counted, v.no_more, v.small, l);
          weighed = omega (arith, v.weighed, v.small, t);
          no_more = omega (arith, v.no_more, t, l);
          small = omega (arith, v.small, t, size);
          insert_in = λ k e. omega (arith, v.insert_in k e, l);
          compress_in = λ c e. omega (arith, v.compress_in c e, l);
        },
        (omega (arith, t, size), omega (arith, t)),
        omega (arith, l),
      )

  append_behind-Keeps :
      (fuel : ℕ) (cm : CmQuantile D H)
      → IsSketch heap cm
      → 0 < length cm.samples
      → Keeps heap cm (append_behind doubles heap fuel cm)
  unfolding append_behind
  append_behind-Keeps zero cm v some_sample = Keeps-same heap cm v
  append_behind-Keeps (suc fuel) cm v some_sample =
      let (last, e) = last_value-some cm.samples some_sample in
      elim (take_least-cases doubles heap laws cm.buf_more (λ val. doubles.less last val)) [
        | inl stop ↦ rw (e, append_behind, stop) (Keeps-same heap cm v)
        | inr (value, rest, found, size) ↦
            let (sketch, same, more) = append_sample-IsSketch cm value rest v size in
            rw (e, append_behind, found)
              (Keeps-from heap cm (append_sample doubles heap cm value rest) _ same
                (append_behind-Keeps fuel (append_sample doubles heap cm value rest) sketch more))
      ]

  reset-IsSketch :
      (cm : CmQuantile D H)
      → IsSketch heap cm
      → IsSketch heap (cm_reset_insert_cursor doubles heap cm)
        × Holds heap cm (cm_reset_insert_cursor doubles heap cm)
  unfolding cm_reset_insert_cursor
  reset-IsSketch cm v = (
    record {
      counted = v.counted;
      weighed = v.weighed;
      no_more = v.no_more;
      small = omega (arith, v.small);
      insert_in = λ i e. absurd (cc);
      compress_in = v.compress_in;
    },
    omega arith,
  )

  with_curs-IsSketch :
      (cm : CmQuantile D H)
      → IsSketch heap cm
      → 0 < length cm.samples
      → IsSketch heap (with_curs doubles heap cm)
        × Holds heap cm (with_curs doubles heap cm)
        × (length (with_curs doubles heap cm).samples ≡ length cm.samples)
  unfolding with_curs
  with_curs-IsSketch cm v some_sample = elim (Option-cases cm.insert_curs) [
    | inl e ↦
        rw (e, with_curs)
          (moved-IsSketch heap cm (some 0) v (λ i f. ground arith), (refl, omega arith), refl)
    | inr (i, e) ↦ rw (e, with_curs) (v, Holds-same heap cm, refl)
  ]

  abbrev end_at : CmQuantile D H → Option ℕ → Option (CmQuantile D H)
  end_at cm curs = elim curs [
    | some i ↦ some cm
    | none ↦ append_behind doubles heap (heap_size cm.buf_more) cm >>= λ cm'.
        some (cm_reset_insert_cursor doubles heap cm')
  ]

  insert_end-Keeps :
      (cm : CmQuantile D H)
      → IsSketch heap cm
      → 0 < length cm.samples
      → Keeps heap cm (insert_end doubles heap cm)
  unfolding insert_end
  insert_end-Keeps cm v some_sample = elim (Option-cases cm.insert_curs) [
    | inr (i, e) ↦
        let stops : insert_end doubles heap cm ≡ some cm = ap (end_at cm) e in
        subst (Keeps heap cm) (sym stops) (Keeps-same heap cm v)
    | inl e ↦
        let goes = ap (end_at cm) e in
        let k = append_behind-Keeps (heap_size cm.buf_more) cm v some_sample in
        let (sketch, same) = reset-IsSketch k.after k.sketch in
        subst (Keeps heap cm) (sym goes) (
          Keeps-then heap cm (append_behind doubles heap (heap_size cm.buf_more) cm)
            (λ cm'. some (cm_reset_insert_cursor doubles heap cm')) k
            (Keeps-from heap k.after (cm_reset_insert_cursor doubles heap k.after) _ same
              (Keeps-same heap (cm_reset_insert_cursor doubles heap k.after) sketch)))
  ]

  insert_first-Keeps :
      (cm : CmQuantile D H)
      → IsSketch heap cm
      → [] ≡ cm.samples
      → Keeps heap cm (some (insert_first doubles heap cm))
  unfolding insert_first total
  insert_first-Keeps cm v empty = elim (Option-cases (heap_delmin cm.buf_more)) [
    | inl e ↦ rw (e, insert_first) (Keeps-same heap cm v)
    | inr ((value, rest), e) ↦
        let size = laws.size_delmin cm.buf_more rest value e in
        let none_yet : total cm.samples ≡ 0 = ap total (sym empty) in
        let no_sample : length cm.samples ≡ 0 = ap length (sym empty) in
        rw (e, insert_first)
          (record {
            after = _;
            runs = refl;
            sketch = record {
              counted = omega (arith, v.counted);
              weighed = omega (arith, v.weighed);
              no_more = omega arith;
              small = omega (arith, v.small);
              insert_in = λ i f. ground arith;
              compress_in = λ c f. absurd (omega (arith, v.compress_in c f));
            };
            holds = (omega arith, omega arith);
          })
  ]

  abbrev insert_by : CmQuantile D H → List (CmSample D) → Option (CmQuantile D H)
  insert_by cm xs = elim xs [
    | [] ↦ some (insert_first doubles heap cm)
    | _ ∷ _ ↦
        insert_rounds doubles heap (cm_cursor_increment doubles heap cm) (with_curs doubles heap cm)
        >>= λ cm'. insert_end doubles heap cm'
  ]

  insert_by-Keeps :
      (cm : CmQuantile D H) (xs : List (CmSample D))
      → IsSketch heap cm
      → xs ≡ cm.samples
      → Keeps heap cm (insert_by cm xs)
  insert_by-Keeps cm [] v e = insert_first-Keeps cm v e
  insert_by-Keeps cm (x ∷ xs) v e =
      let some_sample : 0 < length cm.samples = omega (arith, ap length e) in
      let started = with_curs doubles heap cm in
      let rounds = cm_cursor_increment doubles heap cm in
      let (sketch, same, size) = with_curs-IsSketch cm v some_sample in
      let k = insert_rounds-Keeps rounds started sketch in
      let more =
        length-pos started.samples k.after.samples (omega (arith, sketch.no_more, size))
          k.holds.1 in
      Keeps-from heap cm started _ same (
        Keeps-then heap started (insert_rounds doubles heap rounds started)
          (λ cm'. insert_end doubles heap cm') k (insert_end-Keeps k.after k.sketch more))

  pub cm_insert-Keeps :
      (cm : CmQuantile D H) → IsSketch heap cm → Keeps heap cm (cm_insert doubles heap cm)
  unfolding cm_insert
  cm_insert-Keeps cm v = insert_by-Keeps cm cm.samples v refl
