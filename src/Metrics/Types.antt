-- ===== src/Metrics/Types.antt =====
-- The types of src/metrics.h and src/config.h that the metrics share with their clients.
use statsite.Base.{ℕ, List}
use statsite.Doubles.{Doubles}

pub data MetricType : Type 0 where
  unknown key_val gauge counter timer set gauge_delta : MetricType

-- What the metrics use of a histogram's configuration.
pub record HistogramConfig (D : Type 0) : Type 0 where
  pub min_val : D
  pub max_val : D
  pub bin_width : D
  pub num_bins : ℕ

-- The number of bins that src/config.c computes for a histogram.
unfoldable pub configured_bins : {D : Type 0} → Doubles D → (min_val max_val bin_width : D) → ℕ
configured_bins doubles min_val max_val bin_width =
    doubles.truncate
      (doubles.plus (doubles.over (doubles.minus max_val min_val) bin_width) (doubles.of_nat 2))

pub record Gauge (D : Type 0) : Type 0 where
  pub value : D

pub record KeyVal (D : Type 0) : Type 0 where
  pub name : List ℕ
  pub val : D
