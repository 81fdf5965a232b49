-- ===== src/BinaryStream/Roundtrip.antt =====
-- A sink of the binary stream reads the results of a metric back.
use statsite.Base.{
  ℕ, zero, suc, ◌+◌, ◌-◌, ◌^◌, ◌<◌, ◌≡◌, refl, arith, List, [], ◌∷◌, ◌++◌, Bool-cases, inl, inr,
  true, not, ltb, ◌&&◌, Option, none, some, length, get_or,
}
use statsite.Doubles.{Doubles}
use statsite.Counter.{Counter}
use statsite.Hll.{Hll}
use statsite.Timer.{Quantiles, Timer}
use statsite.Metrics.Types.{HistogramConfig}
use statsite.Metrics.{
  MetricValue, key_val_value, counter_value, timer_value, gauge_value, set_value,
}
use statsite.BinaryStream.{stream_formatter_bin}
use statsite.BinaryStream.Sink.{Result, has_count, read_results}
use statsite.BinaryStream.Readback.{
  CountFits, IsResult, AreResults, encode_all, read_results-encode_all,
}
use statsite.BinaryStream.Written.{
  append_bytes, result, counter_results, timer_results, bin_results, histogram_results, results,
  finalized, stream_formatter_bin-results,
}

AreResults-append :
    {D : Type 0} (xs ys : List (Result D)) → AreResults xs → AreResults ys → AreResults (xs ++ ys)
unfolding AreResults
AreResults-append [] ys h k = k
AreResults-append (x ∷ xs) ys (h, hs) k = (h, AreResults-append xs ys hs k)

-- The bins of a histogram are `unsigned int`s.
unfoldable pub CountsFit : {D C : Type 0} → MetricValue D C → Type 0
CountsFit (timer_value t) = (i : ℕ) → get_or t.counts i 0 < 2 ^ 32
CountsFit value = Unit

module _ {D C : Type 0} (doubles : Doubles D) (quants : Quantiles D C) (estimate : Hll → ℕ)
    (tv_sec : ℕ) (name : List ℕ) (time : tv_sec < 2 ^ 64) (key : length name + 1 < 2 ^ 16) where
  fits :
      (type value_type : ℕ) (v : D) (count : Option ℕ)
      → type < 256
      → value_type < 256
      → CountFits (has_count value_type) count
      → IsResult (result doubles quants estimate tv_sec name type value_type v count)
  fits type value_type v count t u c = record {
    timestamp_fits = time;
    type_fits = t;
    value_type_fits = u;
    key_fits = key;
    count_fits = c;
  }

  bins-AreResults :
      (left i : ℕ) (conf : HistogramConfig D) (counts : List ℕ)
      → ((j : ℕ) → get_or counts j 0 < 2 ^ 32)
      → AreResults (bin_results doubles quants estimate tv_sec name left i conf counts)
  unfolding AreResults bin_results CountFits
  bins-AreResults zero i conf counts h = tt
  bins-AreResults (suc left) i conf counts h = (
    fits 3 9 _ (some (get_or counts (i + 1) 0)) (omega arith) (omega arith) (h (i + 1)),
    bins-AreResults left (i + 1) conf counts h,
  )

  histogram-AreResults :
      (conf : Option (HistogramConfig D)) (counts : List ℕ)
      → ((j : ℕ) → get_or counts j 0 < 2 ^ 32)
      → AreResults (histogram_results doubles quants estimate tv_sec name conf counts)
  unfolding AreResults histogram_results CountFits
  histogram-AreResults none counts h = tt
  histogram-AreResults (some conf) counts h = (
    fits 3 8 _ (some (get_or counts 0 0)) (omega arith) (omega arith) (h 0),
    AreResults-append _ _ (bins-AreResults (conf.num_bins - 2) 0 conf counts h) (
      fits 3 10 _ (some (get_or counts (conf.num_bins - 2 + 1) 0)) (omega arith) (omega arith)
          (h (conf.num_bins - 2 + 1)),
      tt,
    ),
  )

  -- The types that the code writes fit a byte, and have no count if they are not of a histogram.
  plain :
      (type value_type : ℕ) {v : D}
      → (ltb type 256 && (ltb value_type 256 && not (has_count value_type))) ≡ true
      → IsResult (result doubles quants estimate tv_sec name type value_type v none)
  unfolding CountFits
  plain type value_type {v} e = elim (Bool-cases (has_count value_type)) [
    | inl counted ↦ ground arith
    | inr counted ↦ fits type value_type v none (ground arith) (ground arith) (rw counted tt)
  ]

  counter-AreResults :
      (c : Counter D) → AreResults (counter_results doubles quants estimate tv_sec name c)
  unfolding AreResults counter_results
  counter-AreResults c = (
    plain 2 1 refl,
    (
      plain 2 2 refl,
      (plain 2 3 refl, (plain 2 4 refl, (plain 2 5 refl, (plain 2 6 refl, (plain 2 7 refl, tt))))),
    ),
  )

  timer-AreResults :
      (tm : Timer D C) → AreResults (timer_results doubles quants estimate tv_sec name tm)
  unfolding AreResults timer_results
  timer-AreResults tm = (
    plain 3 1 refl,
    (
      plain 3 2 refl,
      (
        plain 3 3 refl,
        (
          plain 3 4 refl,
          (
            plain 3 5 refl,
            (
              plain 3 6 refl,
              (
                plain 3 7 refl,
                (plain 3 178 refl, (plain 3 218 refl, (plain 3 223 refl, (plain 3 227 refl, tt)))),
              ),
            ),
          ),
        ),
      ),
    ),
  )

  results-AreResults :
      (value : MetricValue D C)
      → CountsFit value
      → AreResults (results doubles quants estimate tv_sec name value)
  unfolding AreResults results CountsFit
  results-AreResults (key_val_value v) h = (plain 1 0 refl, tt)
  results-AreResults (gauge_value v) h = (plain 5 0 refl, tt)
  results-AreResults (counter_value c) h = counter-AreResults c
  results-AreResults (set_value s) h = (plain 4 1 refl, tt)
  results-AreResults (timer_value t) h =
      AreResults-append _ _ (timer-AreResults t.tm) (histogram-AreResults t.conf t.counts h)

  module _ (to_bytes : D → List ℕ) (eight : (d : D) → length (to_bytes d) ≡ 8)
      (same : (d : D) → doubles.of_bytes (to_bytes d) ≡ d) where
    -- What stream_formatter_bin writes to a pipe that takes all bytes, a sink that reads as
    -- README.md says gets back: the results of the metric, in order, each with the time and the
    -- name. A timer is left finalized. The time fits 64 bits and a bin 32, the name has fewer than
    -- 2 ^ 16 - 1 bytes, and a double has eight bytes, which stand for it.
    pub stream_formatter_bin-read_results :
        (value : MetricValue D C)
        → CountsFit value
        → (output : List ℕ) × (stream_formatter_bin doubles quants estimate to_bytes append_bytes
              tv_sec name [] value
            ≡ some (output, finalized doubles quants estimate tv_sec name value))
          × (read_results doubles.of_bytes
                (length (results doubles quants estimate tv_sec name value))
                output
              ≡ some (results doubles quants estimate tv_sec name value))
    stream_formatter_bin-read_results value h =
        let rs = results doubles quants estimate tv_sec name value in
        (
          encode_all to_bytes rs,
          stream_formatter_bin-results doubles quants estimate tv_sec name to_bytes key [] value,
          read_results-encode_all to_bytes doubles.of_bytes eight same rs (length rs)
              (results-AreResults value h) (omega arith),
        )
