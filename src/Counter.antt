-- ===== src/Counter.antt =====
-- src/counter.c.
pub mod Spans
pub mod Examples
use statsite.Base.{ℕ, zero, suc, ◌+◌, ◌-◌, ◌*◌, List, [], ◌∷◌, Bool, ◌==◌, if◌then◌else◌}
use statsite.Doubles.{Doubles}
use statsite.Base.Words.{u64, sub64}

pub record Counter (D : Type 0) : Type 0 where
  pub count : ℕ
  pub sum : D
  pub squared_sum : D
  pub min : D
  pub max : D

module _ {D : Type 0} (doubles : Doubles D) where
  open doubles use {of_nat, plus, minus, times, over, square, sqrt, less, is_zero}

  unfoldable pub init_counter : Counter D
  init_counter = record {
    count = 0;
    sum = of_nat 0;
    squared_sum = of_nat 0;
    min = of_nat 0;
    max = of_nat 0;
  }

  unfoldable pub new_min : Counter D → D → D
  new_min c sample = if c.count == 0 then sample else (if less sample c.min then sample else c.min)

  unfoldable pub new_max : Counter D → D → D
  new_max c sample =
      if c.count == 0
      then sample
      else (if less sample c.min then c.max else (if less c.max sample then sample else c.max))

  unfoldable pub counter_add_sample : Counter D → D → Counter D
  counter_add_sample c sample = record {
    count = u64 (c.count + 1);
    sum = plus c.sum sample;
    squared_sum = plus c.squared_sum (square sample);
    min = new_min c sample;
    max = new_max c sample;
  }

  unfoldable pub counter_count : Counter D → ℕ
  counter_count c = c.count

  unfoldable pub counter_mean : Counter D → D
  counter_mean c = if c.count == 0 then of_nat 0 else over c.sum (of_nat c.count)

  unfoldable pub counter_stddev : Counter D → D
  counter_stddev c =
      let num = minus (times (of_nat c.count) c.squared_sum) (square c.sum) in
      let div = of_nat (u64 (c.count * sub64 c.count 1)) in
      if is_zero div then of_nat 0 else sqrt (over num div)

  unfoldable pub counter_sum : Counter D → D
  counter_sum c = c.sum

  unfoldable pub counter_squared_sum : Counter D → D
  counter_squared_sum c = c.squared_sum

  unfoldable pub counter_min : Counter D → D
  counter_min c = c.min

  unfoldable pub counter_max : Counter D → D
  counter_max c = c.max
