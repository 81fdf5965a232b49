-- ===== src/CmQuantile/Examples.antt =====
-- An estimate for src/cm_quantile.c over hundredths, with heaps as its buffers.
use statsite.Base.{
  ℕ, ◌+◌, ◌-◌, ◌*◌, ◌/◌, ◌^◌, ◌≡◌, refl, [], ◌∷◌, some, arith, ltb, leb, ◌==◌, get_or,
}
use statsite.Doubles.{Doubles}
use statsite.CmQuantile.{HeapOps, CmQuantile, new_quantile, some_out_of_range, init_cm_quantile}
use statsite.PriorityHeap.{Heap}
use statsite.CmQuantile.Sound.{IsSketch}
use statsite.CmQuantile.HeapBuffers.{heap_buffers, heap_buffers-IsBuffer}
use statsite.CmQuantile.AddKeeps.{add_all, cm_add_sample-IsSketch}

-- Numbers with two decimals.
abbrev hundredths : Doubles ℕ
hundredths = record {
  of_nat = λ n. 100 * n;
  plus = λ a b. a + b;
  minus = λ a b. a - b;
  times = λ a b. a * b / 100;
  over = λ a b. a * 100 / b;
  square = λ a. a * a / 100;
  sqrt = λ a. a;
  less = ltb;
  less_eq = leb;
  is_zero = λ a. a == 0;
  minus_one = 0;
  power_of_ten = λ n. 100 * 10 ^ n;
  ceiling = λ a. (a + 99) / 100;
  truncate = λ a. a / 100;
  of_bytes = λ l. get_or l 0 0;
}

-- Heaps with four entries on a page.
abbrev buffers : HeapOps ℕ (Heap ℕ ℕ)
buffers = heap_buffers hundredths 4

median :
    init_cm_quantile hundredths buffers 1 (50 ∷ [])
    ≡ some (new_quantile hundredths buffers 1 (50 ∷ []))
unfolding init_cm_quantile some_out_of_range
median = refl

cm_add_sample-IsSketch_example :
    (after : CmQuantile ℕ (Heap ℕ ℕ)) × (add_all hundredths buffers
        (heap_buffers-IsBuffer hundredths 4)
        (7 ∷ 3 ∷ 9 ∷ 5 ∷ [])
        (new_quantile hundredths buffers 1 (50 ∷ []))
      ≡ some after)
    × IsSketch buffers after
    × (after.num_values + (buffers.heap_size after.buf_less + buffers.heap_size after.buf_more) ≡ 4)
cm_add_sample-IsSketch_example =
    cm_add_sample-IsSketch hundredths buffers (heap_buffers-IsBuffer hundredths 4) 1 (50 ∷ [])
      (7 ∷ 3 ∷ 9 ∷ 5 ∷ []) median (omega arith)
