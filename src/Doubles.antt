-- ===== src/Doubles.antt =====
-- C's `double`: a type, and the operations on it that the program uses. A development on it takes
-- them as a parameter.
use statsite.Base.{ℕ, Bool, List}

pub record Doubles (D : Type 0) : Type 0 where
  pub of_nat : ℕ → D
  pub plus : D → D → D
  pub minus : D → D → D
  pub times : D → D → D
  pub over : D → D → D
  pub square : D → D
  pub sqrt : D → D
  pub less : D → D → Bool
  pub less_eq : D → D → Bool
  pub is_zero : D → Bool
  pub minus_one : D
  pub power_of_ten : ℕ → D
  pub ceiling : D → ℕ
  -- the conversion to an `int` of a value that is not negative
  pub truncate : D → ℕ
  -- the eight bytes of memory that hold a double
  pub of_bytes : List ℕ → D
