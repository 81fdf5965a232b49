-- ===== src/Metrics/Samples.antt =====
-- What a sample changes in the metrics of src/metrics.c.
use statsite.Base.{ℕ, ◌≡◌, refl, List, ◌∷◌, Bool, true, false, Option, none, some, if◌then◌else◌}
use statsite.Doubles.{Doubles}
use statsite.Counter.{init_counter, counter_add_sample}
use statsite.Timer.{Quantiles}
use statsite.Radix.{Node}
use statsite.Hashmap.Pairs.{Decides}
use statsite.Metrics.Structs.{Named, update_named}
use statsite.Metrics.StructLaws.{
  IsNamed, value_of, or_new, Updates, update_named_lem, no_names-IsNamed,
}
use statsite.Metrics.Types.{
  MetricType, unknown, key_val, gauge, counter, timer, set, gauge_delta, HistogramConfig,
}
use statsite.Metrics.{
  Metrics, TimerHist, init_metrics, metrics_increment_counter, new_timer, add_timer_value,
  metrics_add_timer_sample, metrics_add_kv, set_gauge, metrics_set_gauge, metrics_add_sample,
}
use statsite.Metrics.Sampled.{
  FitsCounts, counter_with, timer_with, add_timer_value-fits, CanFind, started_timer,
  new_timer-started,
}

module _ {D C : Type 0} (doubles : Doubles D) (quants : Quantiles D C) (hash : List ℕ → ℕ)
    (eq : List ℕ → List ℕ → Bool) (d : Decides eq) where
  pub record IsMetrics (m : Metrics D C) : Type 0 where
    pub counters_ok : IsNamed hash eq d m.counters
    pub timers_ok : IsNamed hash eq d m.timers
    pub sets_ok : IsNamed hash eq d m.sets
    pub gauges_ok : IsNamed hash eq d m.gauges

  -- The struct of a name, or the one that a new name starts with.
  abbrev pub or_start : {X : Type 0} → Option X → X → X
  or_start none x = x
  or_start (some y) x = y

  or_start-new :
      {X : Type 0} (o : Option X) (x : X) → or_new hash eq d o (some x) ≡ some (or_start o x)
  or_start-new none x = refl
  or_start-new (some y) x = refl

  -- All names keep what they had, but one.
  abbrev pub Sets : {X : Type 0} → Named X → Named X → List ℕ → X → Type 0
  Sets s after name x =
      (j : List ℕ)
      → value_of hash eq d after j ≡ (if eq name j then some x else value_of hash eq d s j)

  -- The timer that a sample goes to.
  abbrev pub timer_before : Metrics D C → List ℕ → TimerHist D C
  timer_before m name =
      or_start (value_of hash eq d m.timers name) (started_timer doubles quants hash eq m name)

  -- The histogram of a new timer can be found, and the bin of the value is one of the timer's.
  pub record HasBin (m : Metrics D C) (name : List ℕ) (val : D) : Type 0 where
    pub findable : CanFind doubles quants hash eq m.histograms name
    pub fits :
        FitsCounts doubles quants hash eq
          (timer_before m name).conf
          (timer_before m name).counts
          val

  -- The value of a gauge, 0 for a new one.
  abbrev pub gauge_before : Metrics D C → List ℕ → D
  gauge_before m name =
      (or_start (value_of hash eq d m.gauges name) (record { value = doubles.of_nat 0 })).value

  -- What is needed of a sample.
  abbrev pub Ready : MetricType → Metrics D C → List ℕ → D → Type 0
  Ready unknown m name val = ⊥
  Ready set m name val = ⊥
  Ready timer m name val = HasBin m name val
  Ready _ m name val = Unit

  abbrev pub Adds : MetricType → Metrics D C → List ℕ → D → Metrics D C → Type 0
  Adds unknown m name val after = ⊥
  Adds set m name val after = ⊥
  Adds key_val m name val after =
      after ≡ record m { kv_vals = record { name = name; val = val } ∷ m.kv_vals }
  Adds counter m name val after =
      (after ≡ record m { counters = after.counters })
      × Sets m.counters after.counters name (
          counter_with doubles quants hash eq
            (or_start (value_of hash eq d m.counters name) (init_counter doubles)) val)
  Adds gauge m name val after =
      (after ≡ record m { gauges = after.gauges })
      × Sets m.gauges after.gauges name (record { value = val })
  Adds gauge_delta m name val after =
      (after ≡ record m { gauges = after.gauges })
      × Sets m.gauges after.gauges name (record { value = doubles.plus (gauge_before m name) val })
  Adds timer m name val after =
      (after ≡ record m { timers = after.timers })
      × Sets m.timers after.timers name
          (timer_with doubles quants hash eq (timer_before m name) val)

  -- An update of one kind of struct.
  update_start :
      {X : Type 0} (s : Named X) (name : List ℕ) (x : X) (f : X → X)
      → IsNamed hash eq d s
      → Updates hash eq d s name
          (f (or_start (value_of hash eq d s name) x))
          (update_named hash eq (some x) (λ y. some (f y)) s name)
  update_start s name x f v =
      update_named_lem hash eq d s name (some x) (λ y. some (f y))
        (or_start (value_of hash eq d s name) x) (f (or_start (value_of hash eq d s name) x)) v
        (or_start-new _ x) refl

  abbrev Added : MetricType → Metrics D C → List ℕ → D → Type 0
  Added type m name val =
      (after : Metrics D C) × (metrics_add_sample doubles quants hash eq m type name val
        ≡ some (true, after))
      × IsMetrics after
      × Adds type m name val after

  add_counter : (m : Metrics D C) (name : List ℕ) (val : D) → IsMetrics m → Added counter m name val
  unfolding metrics_add_sample metrics_increment_counter counter_add_sample
  add_counter m name val v =
      let up =
        update_start m.counters name (init_counter doubles) (λ c. counter_add_sample doubles c val)
          v.counters_ok in
      (
        record m { counters = up.after },
        rw (metrics_add_sample, metrics_increment_counter, up.runs) refl,
        record {
          counters_ok = up.named;
          timers_ok = v.timers_ok;
          sets_ok = v.sets_ok;
          gauges_ok = v.gauges_ok;
        },
        (refl, up.values),
      )

  set_gauge_of :
      (m : Metrics D C) (name : List ℕ) (val : D) (delta : Bool)
      → IsMetrics m
      → (after : Metrics D C) × (metrics_set_gauge doubles quants hash eq m name val delta
          ≡ some after)
        × IsMetrics after
        × (after ≡ record m { gauges = after.gauges })
        × Sets m.gauges after.gauges name (
            set_gauge doubles quants hash eq val delta
              (or_start (value_of hash eq d m.gauges name) (record { value = doubles.of_nat 0 })))
  unfolding metrics_set_gauge
  set_gauge_of m name val delta v =
      let up =
        update_start m.gauges name (record { value = doubles.of_nat 0 })
          (set_gauge doubles quants hash eq val delta) v.gauges_ok in
      (
        record m { gauges = up.after },
        rw up.runs refl,
        record {
          counters_ok = v.counters_ok;
          timers_ok = v.timers_ok;
          sets_ok = v.sets_ok;
          gauges_ok = up.named;
        },
        refl,
        up.values,
      )

  add_timer :
      (m : Metrics D C) (name : List ℕ) (val : D)
      → IsMetrics m
      → HasBin m name val
      → Added timer m name val
  unfolding metrics_add_sample metrics_add_timer_sample
  add_timer m name val v r =
      let start = timer_before m name in
      let up =
        update_named_lem hash eq d m.timers name (new_timer doubles quants hash eq m name)
          (add_timer_value doubles quants hash eq val) start
          (timer_with doubles quants hash eq start val) v.timers_ok
          (rw (new_timer-started doubles quants hash eq m name r.findable) (or_start-new _ _))
          (add_timer_value-fits doubles quants hash eq start val r.fits) in
      (
        record m { timers = up.after },
        rw (metrics_add_sample, metrics_add_timer_sample, up.runs) refl,
        record {
          counters_ok = v.counters_ok;
          timers_ok = up.named;
          sets_ok = v.sets_ok;
          gauges_ok = v.gauges_ok;
        },
        (refl, up.values),
      )

  add_gauge : (m : Metrics D C) (name : List ℕ) (val : D) → IsMetrics m → Added gauge m name val
  unfolding metrics_add_sample set_gauge
  add_gauge m name val v =
      let (after, runs, ok, same, values) = set_gauge_of m name val false v in
      (after, rw (metrics_add_sample, runs) refl, ok, (same, values))

  add_delta :
      (m : Metrics D C) (name : List ℕ) (val : D) → IsMetrics m → Added gauge_delta m name val
  unfolding metrics_add_sample set_gauge
  add_delta m name val v =
      let (after, runs, ok, same, values) = set_gauge_of m name val true v in
      (after, rw (metrics_add_sample, runs) refl, ok, (same, values))

  -- metrics_add_sample on metrics in order, for every type that is sampled, leaves metrics in order
  -- and reports success. The counter of the name gets the sample; a gauge becomes the value, or for
  -- a change its old value, 0 for a new one, plus the change; a timer gets the sample and, if it
  -- has a histogram, one more in the bin of the value; a key and value is put in front; everything
  -- else is as it was. A new timer has no samples, and the histogram of the longest prefix of its
  -- name. For a timer the tree of histograms is in order, the name is ASCII if there is one, and
  -- the bin of the value is one of the timer's.
  pub metrics_add_sample-Adds :
      (m : Metrics D C) (type : MetricType) (name : List ℕ) (val : D)
      → IsMetrics m
      → Ready type m name val
      → (after : Metrics D C) × (metrics_add_sample doubles quants hash eq m type name val
          ≡ some (true, after))
        × IsMetrics after
        × Adds type m name val after
  unfolding metrics_add_sample metrics_add_kv
  metrics_add_sample-Adds m unknown name val v r = absurd r
  metrics_add_sample-Adds m set name val v r = absurd r
  metrics_add_sample-Adds m counter name val v tt = add_counter m name val v
  metrics_add_sample-Adds m gauge name val v tt = add_gauge m name val v
  metrics_add_sample-Adds m gauge_delta name val v tt = add_delta m name val v
  metrics_add_sample-Adds m timer name val v r = add_timer m name val v r
  metrics_add_sample-Adds m key_val name val v tt = (
    metrics_add_kv doubles quants hash eq m name val,
    refl,
    record {
      counters_ok = v.counters_ok;
      timers_ok = v.timers_ok;
      sets_ok = v.sets_ok;
      gauges_ok = v.gauges_ok;
    },
    refl,
  )

  pub init_metrics-IsMetrics :
      (eps : D) (quantiles : List D) (histograms : Option (Node (HistogramConfig D)))
      (precision : ℕ)
      → IsMetrics (init_metrics doubles quants hash eq eps quantiles histograms precision)
  unfolding init_metrics
  init_metrics-IsMetrics eps quantiles histograms precision = record {
    counters_ok = (no_names-IsNamed hash eq d).0;
    timers_ok = (no_names-IsNamed hash eq d).0;
    sets_ok = (no_names-IsNamed hash eq d).0;
    gauges_ok = (no_names-IsNamed hash eq d).0;
  }
