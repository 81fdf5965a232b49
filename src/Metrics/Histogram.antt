-- ===== src/Metrics/Histogram.antt =====
-- The histogram of a timer in src/metrics.c: a sample is counted once, in a bin that is there.
use statsite.Base.{ℕ, ◌-◌, ◌<◌, ◌≤◌, ◌≡◌, List, Bool, true, false}
use statsite.Doubles.{Doubles}
use statsite.Timer.{Quantiles}
use statsite.Metrics.Types.{HistogramConfig, configured_bins}

module _ {D : Type 0} (doubles : Doubles D) where
  open doubles use {of_nat, plus, minus, over, less, less_eq, truncate}

  -- What is asked of doubles that are not NaN: rounding keeps their order, and adding 2 takes one that
  -- is not negative at least one whole number higher than adding 1.
  pub record IsGraded : Type 0 where
    pub total : (a b : D) → less_eq a b ≡ false → less_eq b a ≡ true
    pub minus_mono : (a b c : D) → less_eq a b ≡ true → less_eq (minus a c) (minus b c) ≡ true
    pub over_mono :
        (a b w : D)
        → less (of_nat 0) w ≡ true
        → less_eq a b ≡ true
        → less_eq (over a w) (over b w) ≡ true
    pub plus_mono : (a b c : D) → less_eq a b ≡ true → less_eq (plus a c) (plus b c) ≡ true
    pub truncate_mono : (a b : D) → less_eq a b ≡ true → truncate a ≤ truncate b
    pub minus_nonneg : (a b : D) → less a b ≡ false → less (minus a b) (of_nat 0) ≡ false
    pub over_nonneg :
        (a w : D)
        → less (of_nat 0) w ≡ true
        → less a (of_nat 0) ≡ false
        → less (over a w) (of_nat 0) ≡ false
    pub one_counts : (a : D) → less a (of_nat 0) ≡ false → 0 < truncate (plus a (of_nat 1))
    pub two_counts :
        (a : D)
        → less a (of_nat 0) ≡ false
        → truncate (plus a (of_nat 1)) < truncate (plus a (of_nat 2))

-- A histogram that src/config.c accepts.
pub record IsConfigured {D : Type 0} (doubles : Doubles D) (conf : HistogramConfig D) : Type 0 where
  pub range : doubles.less conf.max_val conf.min_val ≡ false
  pub wide : doubles.less (doubles.of_nat 0) conf.bin_width ≡ true
  pub bins : conf.num_bins ≡ configured_bins doubles conf.min_val conf.max_val conf.bin_width

module _ {D C : Type 0} (doubles : Doubles D) (quants : Quantiles D C) (hash : List ℕ → ℕ)
    (eq : List ℕ → List ℕ → Bool) where
  open doubles use {of_nat, plus, minus, over, less, less_eq, truncate}

  -- Where the value belongs: below the range, behind it, or in it.
  abbrev pub InBin : HistogramConfig D → D → ℕ → Type 0
  InBin conf val bin =
      (less val conf.min_val ≡ true → bin ≡ 0)
      × (less val conf.min_val ≡ false → less_eq conf.max_val val ≡ true → bin ≡ conf.num_bins - 1)
      × (less val conf.min_val ≡ false
          → less_eq conf.max_val val ≡ false
          → (0 < bin)
            × (bin < conf.num_bins)
            × (bin ≡ truncate (plus (over (minus val conf.min_val) conf.bin_width) (of_nat 1))))

  module _ (laws : IsGraded doubles) (conf : HistogramConfig D)
      (ok : IsConfigured doubles conf) where
    scaled : D → D
    scaled val = over (minus val conf.min_val) conf.bin_width
