-- ===== src/CmQuantile/AddKeeps.antt =====
-- Samples that are added to an estimate of src/cm_quantile.c are all kept.
use statsite.Base.{
  ◌+◌, ◌^◌, ◌<◌, ◌≡◌, refl, ◌∙◌, List, [], ◌∷◌, Option, some, arith, length, get_elem?-some, ◌>>=◌,
  Bool-cases, Option-cases, inl, inr, ◌==◌, ◌&&◌, not,
}
use statsite.Doubles.{Doubles}
use statsite.CmQuantile.{
  HeapOps, CmQuantile, new_quantile, init_cm_quantile, cm_insert_point_value, cm_add_to_buffer,
}
use statsite.CmQuantile.Sketch.{cm_add_sample}
use statsite.CmQuantile.Sound.{IsBuffer, total, held, IsSketch}
use statsite.CmQuantile.InsertKeeps.{cm_insert-Keeps}
use statsite.CmQuantile.CompressKeeps.{cm_compress-Keeps}

module _ {D H : Type 0} (doubles : Doubles D) (heap : HeapOps D H) (laws : IsBuffer heap) where
  open heap use {heap_size, heap_insert}

  point-some :
      (cm : CmQuantile D H)
      → IsSketch heap cm
      → (point : D) × (cm_insert_point_value doubles heap cm ≡ some point)
  unfolding cm_insert_point_value
  point-some cm v = elim (Option-cases cm.insert_curs) [
    | inl e ↦ (doubles.of_nat 0, rw (e, cm_insert_point_value) refl)
    | inr (i, e) ↦
        let (s, f) = get_elem?-some cm.samples i (v.insert_in i e) in
        (s.value, rw (e, f, cm_insert_point_value) refl)
  ]

  buffered-IsSketch :
      (cm : CmQuantile D H) (less more : H)
      → IsSketch heap cm
      → heap_size less + heap_size more ≡ heap_size cm.buf_less + heap_size cm.buf_more + 1
      → held heap cm + 1 < 2 ^ 64
      → IsSketch heap (record cm { buf_less = less; buf_more = more })
        × (held heap (record cm { buf_less = less; buf_more = more }) ≡ held heap cm + 1)
  buffered-IsSketch cm less more v size small = (
    record {
      counted = v.counted;
      weighed = v.weighed;
      no_more = v.no_more;
      small = omega arith;
      insert_in = v.insert_in;
      compress_in = v.compress_in;
    },
    omega arith,
  )

  -- A call that adds one value.
  record AddsOne (cm : CmQuantile D H) (r : Option (CmQuantile D H)) : Type 0 where
    after : CmQuantile D H
    runs : r ≡ some after
    sketch : IsSketch heap after
    one_more : held heap after ≡ held heap cm + 1

  cm_add_to_buffer-AddsOne :
      (cm : CmQuantile D H) (value : D)
      → IsSketch heap cm
      → held heap cm + 1 < 2 ^ 64
      → AddsOne cm (cm_add_to_buffer doubles heap cm value)
  unfolding cm_add_to_buffer
  cm_add_to_buffer-AddsOne cm value v small =
      let (point, e) = point-some cm v in
      elim (Bool-cases (not (cm.num_values == 0) && doubles.less value point)) [
        | inl less ↦
            let size = laws.size_insert cm.buf_less value in
            let (sketch, more) =
              buffered-IsSketch cm (heap_insert cm.buf_less value) cm.buf_more v (omega arith)
                small in
            record {
              after = record cm { buf_less = heap_insert cm.buf_less value };
              runs = rw (e, less, cm_add_to_buffer) refl;
              sketch = sketch;
              one_more = more;
            }
        | inr more ↦
            let size = laws.size_insert cm.buf_more value in
            let (sketch, one) =
              buffered-IsSketch cm cm.buf_less (heap_insert cm.buf_more value) v (omega arith)
                small in
            record {
              after = record cm { buf_more = heap_insert cm.buf_more value };
              runs = rw (e, more, cm_add_to_buffer) refl;
              sketch = sketch;
              one_more = one;
            }
      ]

  cm_add_sample-AddsOne :
      (cm : CmQuantile D H) (sample : D)
      → IsSketch heap cm
      → held heap cm + 1 < 2 ^ 64
      → AddsOne cm (cm_add_sample doubles heap cm sample)
  unfolding cm_add_sample
  cm_add_sample-AddsOne cm sample v small =
      let buffered = cm_add_to_buffer-AddsOne cm sample v small in
      let k = cm_insert-Keeps doubles heap laws buffered.after buffered.sketch in
      let l = cm_compress-Keeps doubles heap k.after k.sketch in
      record {
        after = l.after;
        runs = rw (buffered.runs, k.runs, l.runs, cm_add_sample) refl;
        sketch = l.sketch;
        one_more = l.holds.0 ∙ k.holds.0 ∙ buffered.one_more;
      }

  -- The samples of a list, one after the other.
  abbrev pub add_all : List D → CmQuantile D H → Option (CmQuantile D H)
  add_all [] cm = some cm
  add_all (x ∷ xs) cm = cm_add_sample doubles heap cm x >>= λ cm'. add_all xs cm'

  add_all-IsSketch :
      (cm : CmQuantile D H) (xs : List D)
      → IsSketch heap cm
      → held heap cm + length xs < 2 ^ 64
      → (after : CmQuantile D H) × (add_all xs cm ≡ some after)
        × IsSketch heap after
        × (held heap after ≡ held heap cm + length xs)
  add_all-IsSketch cm [] v small = (cm, refl, v, omega arith)
  add_all-IsSketch cm (x ∷ xs) v small =
      let one = cm_add_sample-AddsOne cm x v (omega arith) in
      let (after, runs, sketch, size) =
        add_all-IsSketch one.after xs one.sketch (omega (arith, one.one_more)) in
      (after, rw one.runs runs, sketch, omega (arith, size, one.one_more))

  new-IsSketch :
      (eps : D) (quantiles : List D)
      → IsSketch heap (new_quantile doubles heap eps quantiles)
        × (held heap (new_quantile doubles heap eps quantiles) ≡ 0)
  unfolding new_quantile total
  new-IsSketch eps quantiles = (
    record {
      counted = refl;
      weighed = refl;
      no_more = omega arith;
      small = omega (arith, laws.size_create);
      insert_in = λ i e. absurd (cc);
      compress_in = λ c e. absurd (cc);
    },
    omega (arith, laws.size_create),
  )

  init-new :
      (eps : D) (quantiles : List D) {cm : CmQuantile D H}
      → init_cm_quantile doubles heap eps quantiles ≡ some cm
      → new_quantile doubles heap eps quantiles ≡ cm
  unfolding init_cm_quantile
  init-new eps quantiles e = ground arith

  -- Samples that are added to a new estimate, fewer than 2 ^ 64, are read through no null pointer
  -- and none is lost: the number of values that the samples count and those that wait in the
  -- buffers make up all that were added. The counters count the samples and their widths, and the
  -- cursors stand on samples. The buffers count their values, and give out the least one that they
  -- show.
  pub cm_add_sample-IsSketch :
      (eps : D) (quantiles xs : List D) {cm : CmQuantile D H}
      → init_cm_quantile doubles heap eps quantiles ≡ some cm
      → length xs < 2 ^ 64
      → (after : CmQuantile D H) × (add_all xs cm ≡ some after)
        × IsSketch heap after
        × (after.num_values + (heap_size after.buf_less + heap_size after.buf_more) ≡ length xs)
  cm_add_sample-IsSketch eps quantiles xs init small =
      let (sketch, none_held) = rw (init-new eps quantiles init) at (new-IsSketch eps quantiles) in
      let (after, runs, sketch', size) = add_all-IsSketch _ xs sketch (omega arith) in
      (after, runs, sketch', omega (arith, sketch'.weighed, size))
