-- ===== src/Timer/Examples.antt =====
-- A timer for src/timer.c over natural numbers, whose estimate is a list of samples and a buffer.
use statsite.Base.{ℕ, ◌≡◌, List, [], ◌∷◌, ◌++◌, Option, none, some}
use statsite.Counter.Examples.{numbers}
use statsite.Timer.{Quantiles, Timer, init_timer, timer_add_sample, finalize_timer}
use statsite.Timer.Flushed.{quantile, least, most, ask_all, ask_all-flushed}

abbrev head_of : List ℕ → Option ℕ
head_of [] = none
head_of (x ∷ xs) = some x

-- The samples, and what is still to be flushed.
abbrev pub listed : Quantiles ℕ (List ℕ × List ℕ)
listed = record {
  init_cm_quantile = λ eps quantiles. ([], []);
  cm_add_sample = λ c x. (c.0, x ∷ c.1);
  cm_flush = λ c. (c.1 ++ c.0, []);
  cm_query = λ c q. q;
  first_sample = λ c. head_of c.0;
  last_sample = λ c. head_of c.0;
}

abbrev one_sample : Timer ℕ (List ℕ × List ℕ)
one_sample = timer_add_sample numbers listed (init_timer numbers listed 1 []) 7

-- The toy estimate answers a quantile by its number.
ask_all-flushed_example :
    ((ask_all numbers listed one_sample (quantile 5 ∷ least ∷ most ∷ [])).0 ≡ 5 ∷ 7 ∷ 7 ∷ [])
    × (finalize_timer numbers listed
          (ask_all numbers listed one_sample (quantile 5 ∷ least ∷ most ∷ [])).1
        ≡ finalize_timer numbers listed one_sample)
unfolding init_timer
ask_all-flushed_example =
    ask_all-flushed numbers listed (init_timer numbers listed 1 []) 7
      (quantile 5 ∷ least ∷ most ∷ [])
