-- ===== src/Metrics/Sampled.antt =====
-- What a timer of src/metrics.c is after a sample.
use statsite.Base.{
  ℕ, ◌+◌, ◌<◌, ◌≡◌, refl, List, Bool, false, Option, none, some, length, set, get_or, lt→ltb,
  replicate, [], Option-cases, inl, inr,
}
use statsite.Base.Words.{u32, u64}
use statsite.Doubles.{Doubles}
use statsite.Radix.{Node, radix_search}
use statsite.Radix.Valid.{IsNode}
use statsite.Radix.Prefixes.{IsAscii}
use statsite.Radix.Longest.{longest, radix_longest_prefix_lem}
use statsite.Counter.{Counter, new_min, new_max}
use statsite.Timer.{Quantiles, init_timer, timer_add_sample}
use statsite.Metrics.Types.{HistogramConfig}
use statsite.Metrics.{
  Metrics, new_timer, TimerHist, bin_of, bump, count_in, add_to_histogram, add_timer_value,
}

module _ {D C : Type 0} (doubles : Doubles D) (quants : Quantiles D C) (hash : List ℕ → ℕ)
    (eq : List ℕ → List ℕ → Bool) where
  -- The bin of a value in a histogram, if there is one, is inside the counts.
  abbrev pub FitsCounts : Option (HistogramConfig D) → List ℕ → D → Type 0
  FitsCounts none counts val = Unit
  FitsCounts (some conf) counts val = bin_of doubles quants hash eq conf val < length counts

  -- One more in the bin of the value.
  abbrev pub counts_with : Option (HistogramConfig D) → List ℕ → D → List ℕ
  counts_with none counts val = counts
  counts_with (some conf) counts val =
      let bin = bin_of doubles quants hash eq conf val in
      set counts bin (u32 (get_or counts bin 0 + 1))

  -- The counter that has taken a sample. Counter/Spans is about its minimum and maximum.
  abbrev pub counter_with : Counter D → D → Counter D
  counter_with c val = record {
    count = u64 (c.count + 1);
    sum = doubles.plus c.sum val;
    squared_sum = doubles.plus c.squared_sum (doubles.square val);
    min = new_min doubles c val;
    max = new_max doubles c val;
  }

  -- The timer that has taken a sample.
  abbrev pub timer_with : TimerHist D C → D → TimerHist D C
  timer_with t val = record {
    tm = record {
      count = u64 (t.tm.count + 1);
      sum = doubles.plus t.tm.sum val;
      squared_sum = doubles.plus t.tm.squared_sum (doubles.square val);
      finalized = false;
      cm = quants.cm_add_sample t.tm.cm val;
    };
    conf = t.conf;
    counts = counts_with t.conf t.counts val;
  }

  count_in-fits :
      (t : TimerHist D C) (val : D) (conf : Option (HistogramConfig D))
      → FitsCounts conf t.counts val
      → count_in doubles quants hash eq t val conf
        ≡ some (record t { counts = counts_with conf t.counts val })
  unfolding count_in bump
  count_in-fits t val none h = refl
  count_in-fits t val (some conf) h = rw (lt→ltb _ _ h, count_in, bump) refl

  pub add_timer_value-fits :
      (t : TimerHist D C) (val : D)
      → FitsCounts t.conf t.counts val
      → add_timer_value doubles quants hash eq val t ≡ some (timer_with t val)
  unfolding add_timer_value add_to_histogram timer_add_sample
  add_timer_value-fits t val h = rw (count_in-fits t val t.conf h) refl

  -- The histogram for a name: that of its longest prefix that has one.
  abbrev pub histogram_of : Option (Node (HistogramConfig D)) → List ℕ → Option (HistogramConfig D)
  histogram_of none name = none
  histogram_of (some tree) name = longest (radix_search tree) name none

  -- The tree is in order, and the name may be looked for in it.
  abbrev pub CanFind : Option (Node (HistogramConfig D)) → List ℕ → Type 0
  CanFind none name = Unit
  CanFind (some tree) name = IsNode tree × IsAscii name

  abbrev zeros : Option (HistogramConfig D) → List ℕ
  zeros none = []
  zeros (some conf) = replicate conf.num_bins 0

  -- A new timer for a name, with no samples.
  abbrev pub started_timer : Metrics D C → List ℕ → TimerHist D C
  started_timer m name = record {
    tm = init_timer doubles quants m.timer_eps m.quantiles;
    conf = histogram_of m.histograms name;
    counts = zeros (histogram_of m.histograms name);
  }

  pub new_timer-started :
      (m : Metrics D C) (name : List ℕ)
      → CanFind m.histograms name
      → new_timer doubles quants hash eq m name ≡ some (started_timer m name)
  unfolding new_timer
  new_timer-started m name h = elim (Option-cases m.histograms) [
    | inl e ↦ rw e refl
    | inr (tree, e) ↦
        let (order, ascii) = rw e at h in
        rw (e, radix_longest_prefix_lem tree name order ascii)
          (elim (Option-cases (longest (radix_search tree) name none)) [
            | inl f ↦ rw f refl
            | inr (conf, f) ↦ rw f refl
          ])
  ]
