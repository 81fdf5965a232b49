-- ===== src/Counter/Examples.antt =====
-- A counter for src/counter.c over natural numbers.
use statsite.Base.{ℕ, ◌+◌, ◌-◌, ◌*◌, ◌/◌, ◌≡◌, [], ◌∷◌, arith, ltb, leb, ◌==◌, ◌^◌, get_or}
use statsite.Doubles.{Doubles}
use statsite.Counter.{Counter, init_counter, counter_count, counter_min, counter_max}
use statsite.Counter.Spans.{IsStrict, Within, Among, add_samples, counter_add_sample-Within}

abbrev pub numbers : Doubles ℕ
numbers = record {
  of_nat = λ n. n;
  plus = λ a b. a + b;
  minus = λ a b. a - b;
  times = λ a b. a * b;
  over = λ a b. a / b;
  square = λ a. a * a;
  sqrt = λ a. a;
  less = ltb;
  less_eq = leb;
  is_zero = λ a. a == 0;
  minus_one = 0;
  power_of_ten = λ n. 10 ^ n;
  ceiling = λ a. a;
  truncate = λ a. a;
  of_bytes = λ l. get_or l 0 0;
}

numbers-IsStrict : IsStrict ltb
numbers-IsStrict = record { irrefl = λ x. ground arith; trans = λ x y z p q. ground arith }

abbrev three_samples : Counter ℕ
three_samples = add_samples numbers numbers-IsStrict (init_counter numbers) (5 ∷ 2 ∷ 9 ∷ [])

counter_add_sample-Within_example :
    (counter_count numbers three_samples ≡ 3)
    × Within numbers numbers-IsStrict three_samples 9
    × Among (counter_min numbers three_samples) (5 ∷ 2 ∷ 9 ∷ [])
    × Among (counter_max numbers three_samples) (5 ∷ 2 ∷ 9 ∷ [])
counter_add_sample-Within_example =
    counter_add_sample-Within numbers numbers-IsStrict 5 (2 ∷ 9 ∷ []) 2 0 (omega arith)
      (omega arith)
