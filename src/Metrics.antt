-- ===== src/Metrics.antt =====
-- src/metrics.c: the metrics of an interval, found by name in hash tables of src/hashmap.c. `none`
-- is a use of memory that was freed or never allocated. The hash is the second word of
-- MurmurHash3, which the tables and the sets both take.
pub mod Types
pub mod Structs
pub mod StructLaws
pub mod Sampled
pub mod Samples
pub mod Histogram
pub mod Handler
pub mod Examples
use statsite.Base.{
  ℕ, ◌+◌, ◌-◌, List, [], ◌∷◌, Bool, true, false, Option, none, some, ltb, if◌then◌else◌, length,
  get_or, set, replicate, ◌>>=◌,
}
use statsite.Base.Words.{u32}
use statsite.Doubles.{Doubles}
use statsite.Counter.{Counter, init_counter, counter_add_sample}
use statsite.Timer.{Quantiles, Timer, init_timer, timer_add_sample}
use statsite.SampleSet.{SampleSet, set_init, set_add}
use statsite.Radix.{Node, radix_longest_prefix}
use statsite.Hashmap.{hashmap_iter}
use statsite.Metrics.Types.{
  MetricType, key_val, gauge, counter, timer, gauge_delta, HistogramConfig, Gauge, KeyVal,
}
use statsite.Metrics.Structs.{Named, at_pointer, no_names, update_named}

pub record TimerHist (D C : Type 0) : Type 0 where
  pub tm : Timer D C
  pub conf : Option (HistogramConfig D)
  pub counts : List ℕ

pub record Metrics (D C : Type 0) : Type 0 where
  pub counters : Named (Counter D)
  pub timers : Named (TimerHist D C)
  pub sets : Named SampleSet
  pub gauges : Named (Gauge D)
  pub kv_vals : List (KeyVal D)
  pub timer_eps : D
  pub quantiles : List D
  pub histograms : Option (Node (HistogramConfig D))
  pub set_precision : ℕ

-- `metrics_iter` hands out the value of a metric with its type.
pub data MetricValue (D C : Type 0) : Type 0 where
  key_val_value : D → MetricValue D C
  counter_value : Counter D → MetricValue D C
  timer_value : TimerHist D C → MetricValue D C
  gauge_value : Gauge D → MetricValue D C
  set_value : SampleSet → MetricValue D C

module _ {D C : Type 0} (doubles : Doubles D) (quants : Quantiles D C) (hash : List ℕ → ℕ)
    (eq : List ℕ → List ℕ → Bool) where
  open doubles use {of_nat, plus, minus, over, less, less_eq, truncate}

  unfoldable pub init_metrics : D → List D → Option (Node (HistogramConfig D)) → ℕ → Metrics D C
  init_metrics timer_eps quantiles histograms set_precision = record {
    counters = no_names;
    timers = no_names;
    sets = no_names;
    gauges = no_names;
    kv_vals = [];
    timer_eps = timer_eps;
    quantiles = quantiles;
    histograms = histograms;
    set_precision = set_precision;
  }

  unfoldable pub metrics_increment_counter : Metrics D C → List ℕ → D → Option (Metrics D C)
  metrics_increment_counter m name val = do
    counters ←
        update_named hash eq (some (init_counter doubles))
          (λ c. some (counter_add_sample doubles c val)) m.counters name
    some (record m { counters = counters })

  abbrev pub plain_timer : Timer D C → TimerHist D C
  plain_timer tm = record { tm = tm; conf = none; counts = [] }

  -- A new timer, with the histogram that is configured for its name.
  unfoldable pub new_timer : Metrics D C → List ℕ → Option (TimerHist D C)
  new_timer m name =
      let tm = init_timer doubles quants m.timer_eps m.quantiles in
      elim m.histograms [
        | none ↦ some (plain_timer tm)
        | some tree ↦ do
          result ← radix_longest_prefix tree name
          elim result [
            | none ↦ some (plain_timer tm)
            | some conf ↦
                some (record { tm = tm; conf = some conf; counts = replicate conf.num_bins 0 })
          ]
      ]

  unfoldable pub bin_of : HistogramConfig D → D → ℕ
  bin_of conf val =
      if less val conf.min_val
      then 0
      else (if less_eq conf.max_val val
          then conf.num_bins - 1
          else truncate (plus (over (minus val conf.min_val) conf.bin_width) (of_nat 1)))

  -- `counts[idx]++` of an `unsigned int`.
  unfoldable pub bump : List ℕ → ℕ → Option (List ℕ)
  bump counts idx =
      if ltb idx (length counts)
      then some (set counts idx (u32 (get_or counts idx 0 + 1)))
      else none

  -- The count of a value in the bin of its configuration, if there is one.
  unfoldable pub count_in : TimerHist D C → D → Option (HistogramConfig D) → Option (TimerHist D C)
  count_in t val none = some t
  count_in t val (some conf) = do
    counts ← bump t.counts (bin_of conf val)
    some (record t { counts = counts })

  unfoldable pub add_to_histogram : TimerHist D C → D → Option (TimerHist D C)
  add_to_histogram t val = count_in t val t.conf

  unfoldable pub add_timer_value : D → TimerHist D C → Option (TimerHist D C)
  add_timer_value val t = do
    t' ← add_to_histogram t val
    some (record t' { tm = timer_add_sample doubles quants t'.tm val })

  unfoldable pub metrics_add_timer_sample : Metrics D C → List ℕ → D → Option (Metrics D C)
  metrics_add_timer_sample m name val = do
    timers ← update_named hash eq (new_timer m name) (add_timer_value val) m.timers name
    some (record m { timers = timers })

  unfoldable pub metrics_add_kv : Metrics D C → List ℕ → D → Metrics D C
  metrics_add_kv m name val = record m { kv_vals = record { name = name; val = val } ∷ m.kv_vals }

  unfoldable pub set_gauge : D → Bool → Gauge D → Gauge D
  set_gauge val delta g = record { value = if delta then plus g.value val else val }

  unfoldable pub metrics_set_gauge : Metrics D C → List ℕ → D → Bool → Option (Metrics D C)
  metrics_set_gauge m name val delta = do
    gauges ←
        update_named hash eq (some (record { value = of_nat 0 }))
          (λ g. some (set_gauge val delta g)) m.gauges name
    some (record m { gauges = gauges })

  -- The status, `false` for -1, and the metrics.
  unfoldable pub metrics_add_sample :
      Metrics D C → MetricType → List ℕ → D → Option (Bool × Metrics D C)
  metrics_add_sample m key_val name val = some (true, metrics_add_kv m name val)
  metrics_add_sample m gauge name val = do m' ← metrics_set_gauge m name val false; some (true, m')
  metrics_add_sample m gauge_delta name val = do
    m' ← metrics_set_gauge m name val true
    some (true, m')
  metrics_add_sample m counter name val = do
    m' ← metrics_increment_counter m name val
    some (true, m')
  metrics_add_sample m timer name val = do m' ← metrics_add_timer_sample m name val; some (true, m')
  metrics_add_sample m _ name val = some (false, m)

  unfoldable pub metrics_set_update : Metrics D C → List ℕ → List ℕ → Option (Metrics D C)
  metrics_set_update m name value = do
    sets ←
        update_named hash eq (some (set_init m.set_precision)) (λ s. set_add s (hash value)) m.sets
          name
    some (record m { sets = sets })

-- The callback answers whether to stop.
module _ {D C S : Type 0} (cb : S → List ℕ → MetricValue D C → Bool × S) where
  -- The call for the struct behind a pointer; it stops when there is none.
  unfoldable pub iter_cb :
      {X : Type 0} → (X → MetricValue D C) → List X → Option S → List ℕ → ℕ → Bool × Option S
  iter_cb wrap structs none name p = (true, none)
  iter_cb wrap structs (some arg) name p = elim (at_pointer structs p) [
    | none ↦ (true, none)
    | some x ↦ let (stop, arg') = cb arg name (wrap x) in (stop, some arg')
  ]

  unfoldable pub iter_named : {X : Type 0} → (X → MetricValue D C) → Named X → S → Option (Bool × S)
  iter_named wrap s arg = do
    (stop, after) ← hashmap_iter (iter_cb wrap s.structs) s.names (some arg)
    arg' ← after
    some (stop, arg')

  unfoldable pub iter_kv : List (KeyVal D) → (should_break : Bool) → S → Bool × S
  iter_kv [] stop arg = (stop, arg)
  iter_kv (kv ∷ rest) true arg = (true, arg)
  iter_kv (kv ∷ rest) false arg =
      let (stop, arg') = cb arg kv.name (key_val_value kv.val) in iter_kv rest stop arg'

  -- `if (should_break) return should_break`
  abbrev pub unless_stopped : Bool × S → (S → Option (Bool × S)) → Option (Bool × S)
  unless_stopped (true, arg) next = some (true, arg)
  unless_stopped (false, arg) next = next arg

  unfoldable pub metrics_iter : Metrics D C → S → Option (Bool × S)
  metrics_iter m arg = unless_stopped (iter_kv m.kv_vals false arg) (λ arg1.
      iter_named counter_value m.counters arg1 >>= λ r1. unless_stopped r1 (λ arg2.
        iter_named timer_value m.timers arg2 >>= λ r2. unless_stopped r2 (λ arg3.
          iter_named gauge_value m.gauges arg3 >>= λ r3.
          unless_stopped r3 (λ arg4. iter_named set_value m.sets arg4))))
