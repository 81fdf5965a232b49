-- ===== src/Metrics/Handler.antt =====
-- The text handler of src/conn_handler.c on the metrics of src/metrics.c.
use statsite.Base.{ℕ, ◌≡◌, ap, ◌∙◌, List, Bool, Option, none, some}
use statsite.Doubles.{Doubles}
use statsite.Timer.{Quantiles}
use statsite.Hashmap.Pairs.{Decides}
use statsite.Metrics.Types.{MetricType}
use statsite.Metrics.{Metrics, metrics_add_sample, metrics_set_update}
use statsite.Metrics.Samples.{IsMetrics, Ready, Adds, metrics_add_sample-Adds}
use statsite.ConnHandler.{MetricsOps, done, count_input}
use statsite.ConnHandler.Ascii.{handle_line}
use statsite.ConnHandler.Numerals.{Numeral, IsNumeral, value}
use statsite.ConnHandler.Wire.{Lacks, IsSample, RateNumeral, sample_line}
use statsite.ConnHandler.Lines.{rated, handle_line-sample_line}

module _ {D C : Type 0} (doubles : Doubles D) (quants : Quantiles D C) (hash : List ℕ → ℕ)
    (eq : List ℕ → List ℕ → Bool) where
  abbrev after_sample : Option (Bool × Metrics D C) → Option (Metrics D C)
  after_sample none = none
  after_sample (some (status, m)) = some m

  abbrev sample_in : MetricType → List ℕ → D → Option (Metrics D C) → Option (Metrics D C)
  sample_in type name val none = none
  sample_in type name val (some m) =
      after_sample (metrics_add_sample doubles quants hash eq m type name val)

  abbrev update_in : List ℕ → List ℕ → Option (Metrics D C) → Option (Metrics D C)
  update_in name val none = none
  update_in name val (some m) = metrics_set_update doubles quants hash eq m name val

  -- The metrics as what the handlers call. `none`: a call has used memory that is not there.
  abbrev pub metrics_ops : MetricsOps D (Option (Metrics D C))
  metrics_ops = record { metrics_add_sample = sample_in; metrics_set_update = update_in }

  module _ (d : Decides eq) where
    -- On metrics in order handle_line of a line that writes a sample as README.md does leaves
    -- metrics in order that differ in that sample only. Under the key a counter has the sample
    -- added, a gauge the value, or its old value with the change added, and a timer the sample,
    -- counted in the bin of the value if it has a histogram; a key and value is put in front of the
    -- others, and every other name has what it had. The value is that of the written decimal
    -- digits, multiplied by 1 over the rate if there is one above 0 and at most 1. The key has no
    -- colon and no null byte, a gauge is set to a value without a sign, only a counter has a rate;
    -- for a timer the tree of histograms is in order, the key is ASCII if there is one, and the bin
    -- of the value is one of the timer's; no counter of inputs is configured.
    pub handle_line-Adds :
        (m : Metrics D C) (type : MetricType) (key : List ℕ) (n : Numeral) (rate : Option Numeral)
        → IsMetrics doubles quants hash eq d m
        → Lacks 0 key
        → Lacks b':' key
        → IsNumeral n
        → IsSample type n
        → RateNumeral type rate
        → Ready doubles quants hash eq d type m key
            (rated doubles metrics_ops none (value doubles n) rate)
        → (after : Metrics D C) × (handle_line doubles metrics_ops none
              (some m)
              (sample_line type key n rate)
            ≡ (done, some after))
          × IsMetrics doubles quants hash eq d after
          × Adds doubles quants hash eq d type m key
              (rated doubles metrics_ops none (value doubles n) rate)
              after
    unfolding count_input
    handle_line-Adds m type key n rate v clean no_colon h s hr r =
        let val = rated doubles metrics_ops none (value doubles n) rate in
        let (after, runs, ok, adds) =
          metrics_add_sample-Adds doubles quants hash eq d m type key val v r in
        (
          after,
          handle_line-sample_line doubles metrics_ops none type key n rate (some m) clean no_colon h
                s hr
              ∙ ap (λ o. (done, after_sample o)) runs,
          ok,
          adds,
        )
