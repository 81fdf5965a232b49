-- ===== src/BinaryStream/Written.antt =====
-- What stream_formatter_bin writes for a metric: its results, one command after the other.
use statsite.Base.{
  ℕ, zero, suc, ◌+◌, ◌-◌, ◌%◌, ◌^◌, ◌<◌, ◌≡◌, refl, sym, ap, arith, List, [], ◌∷◌, ◌++◌,
  append_assoc, append-nil, Bool-cases, inl, inr, Option, none, some, length, length-append, take,
  take_all, get_or,
}
use statsite.Doubles.{Doubles}
use statsite.Counter.{
  Counter, counter_count, counter_mean, counter_stddev, counter_sum, counter_squared_sum,
  counter_min, counter_max,
}
use statsite.Hll.{Hll}
use statsite.SampleSet.{set_size}
use statsite.Timer.{
  Quantiles, Timer, finalize_timer, timer_query, timer_min, timer_max, timer_count, timer_mean,
  timer_stddev, timer_sum, timer_squared_sum,
}
use statsite.Metrics.Types.{HistogramConfig}
use statsite.Metrics.{
  MetricValue, key_val_value, counter_value, timer_value, gauge_value, set_value,
}
use statsite.BinaryStream.{
  bytes_of, write_item, stream_uint, stream_bin_writer, stream_bin, stream_counter, percent,
  stream_timer, stream_bins, stream_bin_count, stream_histogram, stream_formatter_bin,
}
use statsite.BinaryStream.Sink.{Result}
use statsite.BinaryStream.Readback.{encode, encode_all, encode_all-append}

-- A pipe that takes all bytes, and is what it took.
abbrev pub append_bytes : List ℕ → List ℕ → Option (List ℕ)
append_bytes pipe bytes = some (pipe ++ bytes)

write_item-prefix :
    (p rest : List ℕ) (n : ℕ)
    → write_item append_bytes p (bytes_of 8 n ++ rest) ≡ some (p ++ (bytes_of 8 n ++ rest))
unfolding write_item bytes_of
write_item-prefix p rest n = refl

write_item-key :
    (p name : List ℕ)
    → write_item append_bytes p (name ++ (0 ∷ [])) ≡ some (p ++ (name ++ (0 ∷ [])))
unfolding write_item
write_item-key p [] = refl
write_item-key p (b ∷ name) = refl

stream_uint-bytes : (p : List ℕ) (n : ℕ) → stream_uint append_bytes p n ≡ some (p ++ bytes_of 4 n)
unfolding stream_uint write_item bytes_of
stream_uint-bytes p n = refl

module _ {D C : Type 0} (doubles : Doubles D) (quants : Quantiles D C) (estimate : Hll → ℕ)
    (tv_sec : ℕ) (name : List ℕ) where
  open doubles use {of_nat, plus, times}

  abbrev pub result : (type value_type : ℕ) → D → Option ℕ → Result D
  result type value_type value count = record {
    timestamp = tv_sec;
    type = type;
    value_type = value_type;
    value = value;
    key = name;
    count = count;
  }

  unfoldable pub counter_results : Counter D → List (Result D)
  counter_results c =
      result 2 1 (counter_sum doubles c) none
      ∷ result 2 2 (counter_squared_sum doubles c) none
      ∷ result 2 3 (counter_mean doubles c) none
      ∷ result 2 4 (of_nat (counter_count doubles c)) none
      ∷ result 2 5 (counter_stddev doubles c) none
      ∷ result 2 6 (counter_min doubles c) none
      ∷ result 2 7 (counter_max doubles c) none
      ∷ []

  -- The quantiles are asked of a timer that is finalized.
  unfoldable pub timer_results : Timer D C → List (Result D)
  timer_results tm =
      let done = finalize_timer doubles quants tm in
      let quantile : ℕ → D = λ n. (timer_query doubles quants done (percent doubles n)).0 in
      result 3 1 (timer_sum doubles quants tm) none
      ∷ result 3 2 (timer_squared_sum doubles quants tm) none
      ∷ result 3 3 (timer_mean doubles quants tm) none
      ∷ result 3 4 (of_nat (timer_count doubles quants tm)) none
      ∷ result 3 5 (timer_stddev doubles quants tm) none
      ∷ result 3 6 (timer_min doubles quants done).0 none
      ∷ result 3 7 (timer_max doubles quants done).0 none
      ∷ result 3 (128 + 50) (quantile 50) none
      ∷ result 3 (128 + 90) (quantile 90) none
      ∷ result 3 (128 + 95) (quantile 95) none
      ∷ result 3 (128 + 99) (quantile 99) none
      ∷ []

  -- From bin `i` on, with a bin before and one behind them; `left` of them.
  unfoldable pub bin_results : (left i : ℕ) → HistogramConfig D → List ℕ → List (Result D)
  bin_results zero i conf counts = []
  bin_results (suc left) i conf counts =
      result 3 9 (plus conf.min_val (times conf.bin_width (of_nat i)))
        (some (get_or counts (i + 1) 0))
      ∷ bin_results left (i + 1) conf counts

  unfoldable pub histogram_results : Option (HistogramConfig D) → List ℕ → List (Result D)
  histogram_results none counts = []
  histogram_results (some conf) counts =
      let bins = conf.num_bins - 2 in
      result 3 8 conf.min_val (some (get_or counts 0 0))
      ∷ (bin_results bins 0 conf counts
          ++ (result 3 10 conf.max_val (some (get_or counts (bins + 1) 0)) ∷ []))

  unfoldable pub results : MetricValue D C → List (Result D)
  results (key_val_value v) = result 1 0 v none ∷ []
  results (gauge_value v) = result 5 0 v.value none ∷ []
  results (counter_value c) = counter_results c
  results (set_value s) = result 4 1 (of_nat (set_size estimate s)) none ∷ []
  results (timer_value t) = timer_results t.tm ++ histogram_results t.conf t.counts

  unfoldable pub finalized : MetricValue D C → MetricValue D C
  finalized (timer_value t) = timer_value (record t { tm = finalize_timer doubles quants t.tm })
  finalized value = value

  finalize_twice :
      (tm : Timer D C)
      → finalize_timer doubles quants (finalize_timer doubles quants tm)
        ≡ finalize_timer doubles quants tm
  unfolding finalize_timer
  finalize_twice tm = elim (Bool-cases tm.finalized) [ inl e ↦ rw e | inr e ↦ rw e ]

  module _ (to_bytes : D → List ℕ) (key_fits : length name + 1 < 2 ^ 16) where
    write :
        (p : List ℕ) (type value_type : ℕ) (v : D)
        → stream_bin doubles quants estimate to_bytes append_bytes tv_sec name p type value_type v
          ≡ some (p ++ encode to_bytes (result type value_type v none))
    unfolding stream_bin_writer encode
    write p type value_type v =
        let key : take (length name + 1) (name ++ (0 ∷ [])) ≡ name ++ (0 ∷ []) =
          take_all (length name + 1) (name ++ (0 ∷ []))
            (omega (arith, length-append name (0 ∷ []))) in
        let no_wrap : (length name + 1) % 2 ^ 16 ≡ length name + 1 = omega arith in
        rw (no_wrap, key, write_item-prefix p, write_item-key) (simp (append_assoc, append-nil))

    write-count :
        (p : List ℕ) (value_type : ℕ) (v : D) (count : ℕ)
        → stream_bin_count doubles quants estimate to_bytes append_bytes tv_sec name p value_type v
            count
          ≡ some (p ++ encode to_bytes (result 3 value_type v (some count)))
    unfolding encode
    write-count p value_type v count = simp (write, stream_uint-bytes, append_assoc, append-nil)

    write-bins :
        (left i : ℕ) (conf : HistogramConfig D) (counts p : List ℕ)
        → stream_bins doubles quants estimate to_bytes append_bytes tv_sec name left i conf counts p
          ≡ some (p ++ encode_all to_bytes (bin_results left i conf counts))
    unfolding stream_bins bin_results encode_all
    write-bins zero i conf counts p = ap some (sym (append-nil p))
    write-bins (suc left) i conf counts p =
        rw (write-count p, write-bins left (i + 1) conf counts, append_assoc p)

    write-histogram :
        (conf : Option (HistogramConfig D)) (counts p : List ℕ)
        → stream_histogram doubles quants estimate to_bytes append_bytes tv_sec name conf counts p
          ≡ some (p ++ encode_all to_bytes (histogram_results conf counts))
    unfolding stream_histogram histogram_results encode_all
    write-histogram none counts p = ap some (sym (append-nil p))
    write-histogram (some conf) counts p =
        rw
          (
            write-count p,
            write-bins (conf.num_bins - 2) 0 conf counts,
            write-count,
            encode_all-append to_bytes,
          )
          (simp (append_assoc, append-nil))

    write-counter :
        (c : Counter D) (p : List ℕ)
        → stream_counter doubles quants estimate to_bytes append_bytes tv_sec name p c
          ≡ some (p ++ encode_all to_bytes (counter_results c))
    unfolding stream_counter counter_results encode_all
    write-counter c p = simp (write, append_assoc, append-nil)

    write-timer :
        (tm : Timer D C) (p : List ℕ)
        → stream_timer doubles quants estimate to_bytes append_bytes tv_sec name p tm
          ≡ some (p ++ encode_all to_bytes (timer_results tm), finalize_timer doubles quants tm)
    unfolding stream_timer timer_results encode_all timer_query timer_min timer_max
    write-timer tm p = simp (write, finalize_twice, append_assoc, append-nil)

    -- A pipe that takes all bytes takes the results of the metric from stream_formatter_bin, in
    -- order, and a timer is left finalized. The name has fewer than 2 ^ 16 - 1 bytes.
    pub stream_formatter_bin-results :
        (p : List ℕ) (value : MetricValue D C)
        → stream_formatter_bin doubles quants estimate to_bytes append_bytes tv_sec name p value
          ≡ some (p ++ encode_all to_bytes (results value), finalized value)
    unfolding stream_formatter_bin results finalized encode_all
    stream_formatter_bin-results p (key_val_value v) = simp (write, append-nil)
    stream_formatter_bin-results p (gauge_value v) = simp (write, append-nil)
    stream_formatter_bin-results p (counter_value c) = rw (write-counter c p)
    stream_formatter_bin-results p (set_value s) = simp (write, append-nil)
    stream_formatter_bin-results p (timer_value t) =
        rw (write-timer t.tm p, write-histogram t.conf t.counts, encode_all-append, append_assoc p)
