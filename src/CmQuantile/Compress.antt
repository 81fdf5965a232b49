-- ===== src/CmQuantile/Compress.antt =====
-- `cm_compress` of src/cm_quantile.c: samples are joined where the error allows it, at a cursor.
use statsite.Base.{
  ℕ, zero, suc, ◌+◌, ◌-◌, ◌^◌, List, [], ◌∷◌, true, false, Option, none, some, ltb, leb,
  if◌then◌else◌, length, set, get_elem?, remove_at, ◌>>=◌,
}
use statsite.Base.Words.{add64, sub64, u64}
use statsite.Doubles.{Doubles}
use statsite.CmQuantile.{HeapOps, CmSample, CmQuantile, cm_cursor_increment}

module _ {D H : Type 0} (doubles : Doubles D) (heap : HeapOps D H) where
  open doubles use {of_nat, minus, times, over, less_eq, truncate}

  abbrev pub llong_max : ℕ
  llong_max = 2 ^ 63 - 1

  -- `quant_min` of one quantile.
  unfoldable pub quantile_threshold : CmQuantile D H → ℕ → D → ℕ
  quantile_threshold cm rank quant =
      let two_eps = times (of_nat 2) cm.eps in
      if less_eq (times quant (of_nat cm.num_values)) (of_nat rank)
      then truncate (over (times two_eps (of_nat rank)) quant)
      else truncate
          (over (times two_eps (of_nat (sub64 cm.num_values rank))) (minus (of_nat 1) quant))

  unfoldable pub least_threshold : CmQuantile D H → ℕ → List D → (min_val : ℕ) → ℕ
  least_threshold cm rank [] min_val = min_val
  least_threshold cm rank (quant ∷ rest) min_val =
      let quant_min = quantile_threshold cm rank quant in
      least_threshold cm rank rest (if ltb quant_min min_val then quant_min else min_val)

  unfoldable pub cm_threshold : CmQuantile D H → ℕ → ℕ
  cm_threshold cm rank = least_threshold cm rank cm.quantiles llong_max

  -- The insertion cursor, when the sample at `c` goes: from there it moves to the next one.
  abbrev pub lowered : ℕ → Option ℕ → Option ℕ
  lowered c none = none
  lowered c (some i) = some (if ltb c i then i - 1 else i)

  -- The sample at `c` goes into the next one, with what it stands for.
  unfoldable pub combine : CmQuantile D H → ℕ → CmSample D → CmSample D → CmQuantile D H
  combine cm c curs next = record cm {
    samples =
        remove_at (set cm.samples (c + 1) (record next { width = add64 next.width curs.width })) c;
    insert_curs = lowered c cm.insert_curs;
    compress_curs = some (c - 1);
    num_samples = sub64 cm.num_samples 1;
  }

  unfoldable pub compress_at : CmQuantile D H → ℕ → CmSample D → CmSample D → CmQuantile D H
  compress_at cm c curs next =
      let max_rank = u64 (cm.min_rank + curs.width + curs.delta) in
      let test_val = u64 (curs.width + next.width + next.delta) in
      let rank = sub64 cm.min_rank curs.width in
      if leb test_val (cm_threshold cm max_rank)
      then combine (record cm { min_rank = rank }) c curs next
      else record cm { compress_curs = some (c - 1); min_rank = rank }

  -- One round of the loop, at a sample that is not the first one.
  unfoldable pub compress_round : CmQuantile D H → ℕ → Option (CmQuantile D H)
  compress_round cm c = do
    curs ← get_elem? cm.samples c
    next ← get_elem? cm.samples (c + 1)
    some (compress_at cm c curs next)

  unfoldable pub compress_rounds : (rounds : ℕ) → CmQuantile D H → Option (CmQuantile D H)
  compress_rounds zero cm = some cm
  compress_rounds (suc rounds) cm = elim cm.compress_curs [
    | none ↦ none
    | some zero ↦ some cm
    | some (suc c) ↦ do cm' ← compress_round cm (suc c); compress_rounds rounds cm'
  ]

  -- The cursor starts two before the last sample.
  unfoldable pub with_compress_curs : CmQuantile D H → Option (CmQuantile D H)
  with_compress_curs cm = elim cm.compress_curs [
    | some c ↦ some cm
    | none ↦ do
      before_last ← get_elem? cm.samples (length cm.samples - 2)
      some (record cm {
        compress_curs = some (length cm.samples - 3);
        min_rank = sub64 (sub64 cm.num_values 1) before_last.width;
      })
  ]

  unfoldable pub reset_compress : CmQuantile D H → CmQuantile D H
  reset_compress cm = elim cm.compress_curs [
    | some zero ↦ record cm { compress_curs = none }
    | _ ↦ cm
  ]

  unfoldable pub cm_compress : CmQuantile D H → Option (CmQuantile D H)
  cm_compress cm = elim (ltb cm.num_samples 3) [
    | true ↦ some cm
    | false ↦ do
      started ← with_compress_curs cm
      done ← compress_rounds (cm_cursor_increment doubles heap started) started
      some (reset_compress done)
  ]
