-- ===== src/CmQuantile/Sketch.antt =====
-- The calls of src/timer.c on an estimate of src/cm_quantile.c.
use statsite.Base.{
  ℕ, zero, suc, ◌+◌, List, [], ◌∷◌, true, false, Option, none, some, ◌&&◌, ◌==◌, ltb, if◌then◌else◌,
  ◌>>=◌,
}
use statsite.Base.Words.{add64, u64}
use statsite.Doubles.{Doubles}
use statsite.CmQuantile.{HeapOps, CmSample, CmQuantile, cm_add_to_buffer, cm_reset_insert_cursor}
use statsite.CmQuantile.Insert.{cm_insert}
use statsite.CmQuantile.Compress.{cm_threshold, cm_compress}

module _ {D H : Type 0} (doubles : Doubles D) (heap : HeapOps D H) where
  open doubles use {of_nat, times, over, ceiling}
  open heap use {heap_size}

  unfoldable pub cm_add_sample : CmQuantile D H → D → Option (CmQuantile D H)
  cm_add_sample cm sample = do
    buffered ← cm_add_to_buffer doubles heap cm sample
    inserted ← cm_insert doubles heap buffered
    cm_compress doubles heap inserted

  -- The outer option is `none` when the fuel runs out.
  unfoldable pub cm_flush : (fuel : ℕ) → CmQuantile D H → Option (Option (CmQuantile D H))
  cm_flush zero cm = none
  cm_flush (suc fuel) cm = elim (heap_size cm.buf_less == 0 && heap_size cm.buf_more == 0) [
    | true ↦ some (some cm)
    | false ↦
        let cm' =
          if heap_size cm.buf_more == 0 then cm_reset_insert_cursor doubles heap cm else cm in
        elim (cm_insert doubles heap cm' >>= cm_compress doubles heap) [
          | none ↦ some none
          | some cm'' ↦ cm_flush fuel cm''
        ]
  ]

  -- The loop of `cm_query`: the value of the sample before the one that ends it.
  unfoldable pub query_from :
      (limit : ℕ) → (prev : Option D) → (min_rank : ℕ) → List (CmSample D) → Option D
  query_from limit prev min_rank [] = prev
  query_from limit prev min_rank (s ∷ rest) =
      let later = query_from limit (some s.value) (add64 min_rank s.width) rest in
      if ltb limit (u64 (min_rank + s.width + s.delta)) then prev else later

  abbrev pub first_value : List (CmSample D) → Option D
  first_value [] = none
  first_value (s ∷ rest) = some s.value

  unfoldable pub cm_query : CmQuantile D H → D → D
  cm_query cm quantile =
      let rank = ceiling (times quantile (of_nat cm.num_values)) in
      let threshold = ceiling (over (of_nat (cm_threshold doubles heap cm rank)) (of_nat 2)) in
      elim (query_from (add64 rank threshold) (first_value cm.samples) 0 cm.samples) [
        | none ↦ of_nat 0
        | some value ↦ value
      ]
