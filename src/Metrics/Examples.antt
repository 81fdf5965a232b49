-- ===== src/Metrics/Examples.antt =====
-- Metrics for src/metrics.c over natural numbers, with the length of a name as its hash.
use statsite.Base.{
  ℕ, ◌+◌, ◌≡◌, refl, ap₂, List, [], ◌∷◌, Bool, true, false, none, some, length, arith, ◌==◌, ◌&&◌,
  ==_self, Bool-cases, inl, inr, ==→eq,
}
use statsite.Counter.{Counter, init_counter, counter_add_sample}
use statsite.Counter.Examples.{numbers}
use statsite.Timer.{init_timer}
use statsite.Timer.Examples.{listed}
use statsite.Hashmap.Pairs.{Decides}
use statsite.Metrics.Structs.{no_names, update_named}
use statsite.Metrics.StructLaws.{Updates, value_of, no_names-IsNamed, update_named_lem}
use statsite.Metrics.Types.{timer, gauge_delta, HistogramConfig}
use statsite.Metrics.{Metrics, TimerHist, init_metrics, metrics_add_sample}
use statsite.Metrics.Samples.{
  IsMetrics, HasBin, Adds, metrics_add_sample-Adds, init_metrics-IsMetrics,
}
use statsite.Metrics.Handler.{metrics_ops, handle_line-Adds}
use statsite.ConnHandler.{done}
use statsite.ConnHandler.Ascii.{handle_line}
use statsite.ConnHandler.Numerals.{Numeral, IsNumeral, value}
use statsite.ConnHandler.Wire.{sample_line}
use statsite.ConnHandler.Lines.{rated}

abbrev same_bytes : List ℕ → List ℕ → Bool
same_bytes [] [] = true
same_bytes [] (y ∷ ys) = false
same_bytes (x ∷ xs) [] = false
same_bytes (x ∷ xs) (y ∷ ys) = x == y && same_bytes xs ys

same_bytes_self : (xs : List ℕ) → same_bytes xs xs ≡ true
same_bytes_self [] = refl
same_bytes_self (x ∷ xs) = rw (==_self x, same_bytes_self xs) refl

same_bytes-eq : (xs ys : List ℕ) → same_bytes xs ys ≡ true → xs ≡ ys
same_bytes-eq [] [] e = refl
same_bytes-eq [] (y ∷ ys) e = absurd (cc)
same_bytes-eq (x ∷ xs) [] e = absurd (cc)
same_bytes-eq (x ∷ xs) (y ∷ ys) e = elim (Bool-cases (x == y)) [
  | inl h ↦ ap₂ ◌∷◌ (==→eq x y h) (same_bytes-eq xs ys (rw h at e))
  | inr h ↦ absurd (cc (rw h at e))
]

same_bytes-Decides : Decides same_bytes
same_bytes-Decides a b = (λ e. same_bytes-eq a b e, λ e. rw e (same_bytes_self b))

abbrev name : List ℕ
name = b'k' ∷ []

abbrev counted : Counter ℕ
counted = counter_add_sample numbers (init_counter numbers) 12

abbrev start : Metrics ℕ (List ℕ × List ℕ)
start = init_metrics numbers listed length same_bytes 1 [] none 12

start-IsMetrics : IsMetrics numbers listed length same_bytes same_bytes-Decides start
start-IsMetrics =
    init_metrics-IsMetrics numbers listed length same_bytes same_bytes-Decides 1 [] none 12

update_named_lem_example :
    Updates length same_bytes same_bytes-Decides no_names name 5
      (update_named length same_bytes (some 2) (λ x. some (x + 3)) no_names name)
update_named_lem_example =
    update_named_lem length same_bytes same_bytes-Decides no_names name (some 2) (λ x. some (x + 3))
      2 5 (no_names-IsNamed length same_bytes same_bytes-Decides).0
      (rw ((no_names-IsNamed length same_bytes same_bytes-Decides).1 name) refl) refl

no_timers : value_of length same_bytes same_bytes-Decides start.timers name ≡ none
unfolding init_metrics
no_timers = (no_names-IsNamed length same_bytes same_bytes-Decides).1 name

name-HasBin : HasBin numbers listed length same_bytes same_bytes-Decides start name 12
unfolding init_metrics
name-HasBin = record { findable = tt; fits = rw no_timers tt }

metrics_add_sample-Adds_example :
    (after : Metrics ℕ (List ℕ × List ℕ)) × (metrics_add_sample numbers listed length same_bytes
        start timer name 12
      ≡ some (true, after))
    × IsMetrics numbers listed length same_bytes same_bytes-Decides after
    × Adds numbers listed length same_bytes same_bytes-Decides timer start name 12 after
metrics_add_sample-Adds_example =
    metrics_add_sample-Adds numbers listed length same_bytes same_bytes-Decides start timer name 12
      start-IsMetrics name-HasBin

abbrev tens : HistogramConfig ℕ
tens = record { min_val = 0; max_val = 10; bin_width = 5; num_bins = 4 }

abbrev with_bins : TimerHist ℕ (List ℕ × List ℕ)
with_bins = record {
  tm = init_timer numbers listed 1 [];
  conf = some tens;
  counts = 0 ∷ 0 ∷ 3 ∷ 0 ∷ [];
}

abbrev twelve : Numeral
twelve = record { negative = false; whole = 1 ∷ 2 ∷ []; fraction = none }

twelve-IsNumeral : IsNumeral twelve
twelve-IsNumeral = record {
  whole_digits = (omega arith, (omega arith, tt));
  fraction_digits = tt;
  not_empty = λ e. cc;
}

abbrev twelve_value : ℕ
twelve_value =
    rated numbers (metrics_ops numbers listed length same_bytes) none (value numbers twelve) none

handle_line-Adds_example :
    (after : Metrics ℕ (List ℕ × List ℕ)) × (handle_line numbers
        (metrics_ops numbers listed length same_bytes)
        none
        (some start)
        (sample_line gauge_delta name twelve none)
      ≡ (done, some after))
    × IsMetrics numbers listed length same_bytes same_bytes-Decides after
    × Adds numbers listed length same_bytes same_bytes-Decides gauge_delta start name twelve_value
        after
handle_line-Adds_example =
    handle_line-Adds numbers listed length same_bytes same_bytes-Decides start gauge_delta name
      twelve none start-IsMetrics (omega arith, tt) (omega arith, tt) twelve-IsNumeral tt tt tt
