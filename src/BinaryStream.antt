-- ===== src/BinaryStream.antt =====
-- The binary output of src/conn_handler.c: stream_bin_writer and stream_formatter_bin. A pipe is a
-- state `P`; `fwrite` of some bytes gives the pipe after them, or `none` for a write that fails. The
-- bytes of a double, `to_bytes`, are the compiler's.
pub mod Sink
pub mod Readback
pub mod Written
pub mod Roundtrip
pub mod LongName
pub mod Examples
use statsite.Base.{
  ℕ, zero, suc, ◌+◌, ◌-◌, ◌/◌, ◌%◌, ◌^◌, List, [], ◌∷◌, ◌++◌, Option, none, some, length, take,
  get_or, ◌>>=◌,
}
use statsite.Doubles.{Doubles}
use statsite.Counter.{
  Counter, counter_count, counter_mean, counter_stddev, counter_sum, counter_squared_sum,
  counter_min, counter_max,
}
use statsite.Hll.{Hll}
use statsite.SampleSet.{set_size}
use statsite.Timer.{
  Quantiles, Timer, timer_query, timer_min, timer_max, timer_count, timer_mean, timer_stddev,
  timer_sum, timer_squared_sum,
}
use statsite.Metrics.Types.{HistogramConfig}
use statsite.Metrics.{
  MetricValue, key_val_value, counter_value, timer_value, gauge_value, set_value,
}

-- The bytes of a number in memory, the least significant one first.
unfoldable pub bytes_of : (width : ℕ) → ℕ → List ℕ
bytes_of zero n = []
bytes_of (suc width) n = n % 256 ∷ bytes_of width (n / 256)

module _ {P : Type 0} (fwrite : P → List ℕ → Option P) where
  -- A write of no bytes writes no item, which is taken for a failure.
  unfoldable pub write_item : P → List ℕ → Option P
  write_item pipe [] = none
  write_item pipe (b ∷ bytes) = fwrite pipe (b ∷ bytes)

  unfoldable pub stream_uint : P → ℕ → Option P
  stream_uint pipe val = write_item pipe (bytes_of 4 val)

abbrev pub binary_out_prefix :
    {D : Type 0} → (D → List ℕ) → (timestamp type value_type key_len : ℕ) → D → List ℕ
binary_out_prefix to_bytes timestamp type value_type key_len val =
    bytes_of 8 timestamp
    ++ (bytes_of 1 type ++ (bytes_of 1 value_type ++ (bytes_of 2 key_len ++ to_bytes val)))

module _ {D P : Type 0} (to_bytes : D → List ℕ) (fwrite : P → List ℕ → Option P) where
  unfoldable pub stream_bin_writer :
      P → (timestamp type val_type : ℕ) → D → (name : List ℕ) → Option P
  stream_bin_writer pipe timestamp type val_type val name = do
    let key_len = (length name + 1) % 2 ^ 16
    prefixed ←
        write_item fwrite pipe (binary_out_prefix to_bytes timestamp type val_type key_len val)
    write_item fwrite prefixed (take key_len (name ++ (0 ∷ [])))

-- The literals 0.5 to 0.99 are quotients of small whole numbers.
abbrev pub percent : {D : Type 0} → Doubles D → ℕ → D
percent doubles n = doubles.over (doubles.of_nat n) (doubles.of_nat 100)

-- `BIN_OUT_PCT | n` for an `n` below 128
abbrev pub bin_out_pct : ℕ → ℕ
bin_out_pct n = 128 + n

module _ {D C P : Type 0} (doubles : Doubles D) (quants : Quantiles D C) (estimate : Hll → ℕ)
    (to_bytes : D → List ℕ) (fwrite : P → List ℕ → Option P) (tv_sec : ℕ) (name : List ℕ) where
  open doubles use {of_nat, plus, times}

  -- `STREAM_BIN`
  abbrev pub stream_bin : P → (type val_type : ℕ) → D → Option P
  stream_bin pipe type val_type val =
      stream_bin_writer to_bytes fwrite pipe tv_sec type val_type val name

  unfoldable pub stream_counter : P → Counter D → Option P
  stream_counter p c = do
    p ← stream_bin p 2 1 (counter_sum doubles c)
    p ← stream_bin p 2 2 (counter_squared_sum doubles c)
    p ← stream_bin p 2 3 (counter_mean doubles c)
    p ← stream_bin p 2 4 (of_nat (counter_count doubles c))
    p ← stream_bin p 2 5 (counter_stddev doubles c)
    p ← stream_bin p 2 6 (counter_min doubles c)
    stream_bin p 2 7 (counter_max doubles c)

  -- The queries of one timer, each of which may finalize it first.
  unfoldable pub stream_timer : P → Timer D C → Option (P × Timer D C)
  stream_timer p tm = do
    p ← stream_bin p 3 1 (timer_sum doubles quants tm)
    p ← stream_bin p 3 2 (timer_squared_sum doubles quants tm)
    p ← stream_bin p 3 3 (timer_mean doubles quants tm)
    p ← stream_bin p 3 4 (of_nat (timer_count doubles quants tm))
    p ← stream_bin p 3 5 (timer_stddev doubles quants tm)
    let (least, tm) = timer_min doubles quants tm
    p ← stream_bin p 3 6 least
    let (most, tm) = timer_max doubles quants tm
    p ← stream_bin p 3 7 most
    let (median, tm) = timer_query doubles quants tm (percent doubles 50)
    p ← stream_bin p 3 (bin_out_pct 50) median
    let (upper_90, tm) = timer_query doubles quants tm (percent doubles 90)
    p ← stream_bin p 3 (bin_out_pct 90) upper_90
    let (upper_95, tm) = timer_query doubles quants tm (percent doubles 95)
    p ← stream_bin p 3 (bin_out_pct 95) upper_95
    let (upper_99, tm) = timer_query doubles quants tm (percent doubles 99)
    p ← stream_bin p 3 (bin_out_pct 99) upper_99
    some (p, tm)

  abbrev pub stream_bin_count : P → (val_type : ℕ) → D → (count : ℕ) → Option P
  stream_bin_count p val_type val count = do
    p ← stream_bin p 3 val_type val
    stream_uint fwrite p count

  -- The loop over the bins between the first and the last; `left` rounds to go.
  unfoldable pub stream_bins : (left i : ℕ) → HistogramConfig D → List ℕ → P → Option P
  stream_bins zero i conf counts p = some p
  stream_bins (suc left) i conf counts p =
      stream_bin_count p 9 (plus conf.min_val (times conf.bin_width (of_nat i)))
        (get_or counts (i + 1) 0)
      >>= stream_bins left (i + 1) conf counts

  unfoldable pub stream_histogram : Option (HistogramConfig D) → List ℕ → P → Option P
  stream_histogram none counts p = some p
  stream_histogram (some conf) counts p = do
    let bins = conf.num_bins - 2
    p ← stream_bin_count p 8 conf.min_val (get_or counts 0 0)
    p ← stream_bins bins 0 conf counts p
    stream_bin_count p 10 conf.max_val (get_or counts (bins + 1) 0)

  -- `none` is a write that failed. A timer comes back finalized.
  unfoldable pub stream_formatter_bin : P → MetricValue D C → Option (P × MetricValue D C)
  stream_formatter_bin p (key_val_value v) = do p ← stream_bin p 1 0 v; some (p, key_val_value v)
  stream_formatter_bin p (gauge_value v) = do p ← stream_bin p 5 0 v.value; some (p, gauge_value v)
  stream_formatter_bin p (counter_value c) = do p ← stream_counter p c; some (p, counter_value c)
  stream_formatter_bin p (set_value s) = do
    p ← stream_bin p 4 1 (of_nat (set_size estimate s))
    some (p, set_value s)
  stream_formatter_bin p (timer_value t) = do
    (p, tm) ← stream_timer p t.tm
    p ← stream_histogram t.conf t.counts p
    some (p, timer_value (record t { tm = tm }))
