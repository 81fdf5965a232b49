-- ===== src/Timer.antt =====
-- src/timer.c, over an interface for the quantile estimation of src/cm_quantile.c. A query may
-- flush the estimate first, and so returns the timer too.
pub mod Flushed
pub mod Examples
use statsite.Base.{ℕ, ◌+◌, ◌*◌, List, Bool, true, false, Option, none, some, ◌==◌, if◌then◌else◌}
use statsite.Base.Words.{u64, sub64}
use statsite.Doubles.{Doubles}

-- The calls of src/cm_quantile.c on an estimate `C`, and the values at the two ends of its samples.
pub record Quantiles (D C : Type 0) : Type 0 where
  pub init_cm_quantile : D → List D → C
  pub cm_add_sample : C → D → C
  pub cm_flush : C → C
  pub cm_query : C → D → D
  pub first_sample : C → Option D
  pub last_sample : C → Option D

pub record Timer (D C : Type 0) : Type 0 where
  pub count : ℕ
  pub sum : D
  pub squared_sum : D
  pub finalized : Bool
  pub cm : C

module _ {D C : Type 0} (doubles : Doubles D) (quants : Quantiles D C) where
  open doubles use {of_nat, plus, minus, times, over, square, sqrt, is_zero}
  open quants use {init_cm_quantile, cm_add_sample, cm_flush, cm_query, first_sample, last_sample}

  unfoldable pub init_timer : D → List D → Timer D C
  init_timer eps quantiles = record {
    count = 0;
    sum = of_nat 0;
    squared_sum = of_nat 0;
    finalized = true;
    cm = init_cm_quantile eps quantiles;
  }

  unfoldable pub timer_add_sample : Timer D C → D → Timer D C
  timer_add_sample timer sample = record {
    count = u64 (timer.count + 1);
    sum = plus timer.sum sample;
    squared_sum = plus timer.squared_sum (square sample);
    finalized = false;
    cm = cm_add_sample timer.cm sample;
  }

  unfoldable pub finalize_timer : Timer D C → Timer D C
  finalize_timer timer =
      if timer.finalized then timer else record timer { cm = cm_flush timer.cm; finalized = true }

  unfoldable pub timer_query : Timer D C → D → D × Timer D C
  timer_query timer quantile = let done = finalize_timer timer in (cm_query done.cm quantile, done)

  -- The value of a sample, or 0 for NULL.
  abbrev pub value_or_zero : Option D → D
  value_or_zero none = of_nat 0
  value_or_zero (some value) = value

  unfoldable pub timer_min : Timer D C → D × Timer D C
  timer_min timer = let done = finalize_timer timer in (value_or_zero (first_sample done.cm), done)

  unfoldable pub timer_max : Timer D C → D × Timer D C
  timer_max timer = let done = finalize_timer timer in (value_or_zero (last_sample done.cm), done)

  unfoldable pub timer_count : Timer D C → ℕ
  timer_count timer = timer.count

  unfoldable pub timer_mean : Timer D C → D
  timer_mean timer = if timer.count == 0 then of_nat 0 else over timer.sum (of_nat timer.count)

  unfoldable pub timer_stddev : Timer D C → D
  timer_stddev timer =
      let num = minus (times (of_nat timer.count) timer.squared_sum) (square timer.sum) in
      let div = of_nat (u64 (timer.count * sub64 timer.count 1)) in
      if is_zero div then of_nat 0 else sqrt (over num div)

  unfoldable pub timer_sum : Timer D C → D
  timer_sum timer = timer.sum

  unfoldable pub timer_squared_sum : Timer D C → D
  timer_squared_sum timer = timer.squared_sum
