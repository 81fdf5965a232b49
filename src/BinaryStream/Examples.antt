-- ===== src/BinaryStream/Examples.antt =====
-- A timer with a histogram for the binary stream, over natural numbers.
use statsite.Base.{
  ℕ, zero, suc, ◌+◌, ◌-◌, ◌^◌, ◌<◌, ◌≡◌, refl, ap, List, [], ◌∷◌, none, some, length,
  length-replicate, get_or, arith, replicate,
}
use statsite.Hll.{Hll}
use statsite.Counter.Examples.{numbers}
use statsite.Timer.{timer_add_sample, init_timer}
use statsite.Timer.Examples.{listed}
use statsite.Metrics.{MetricValue, timer_value}
use statsite.BinaryStream.{stream_formatter_bin}
use statsite.BinaryStream.Sink.{read_results}
use statsite.BinaryStream.Written.{append_bytes, results, finalized}
use statsite.BinaryStream.Roundtrip.{CountsFit, stream_formatter_bin-read_results}
use statsite.BinaryStream.LongName.{stream_formatter_bin-fails}

abbrev name : List ℕ
name = b'k' ∷ []

abbrev no_estimate : Hll → ℕ
no_estimate h = 0

-- A number in the first of eight bytes.
abbrev eight_bytes : ℕ → List ℕ
eight_bytes d = d ∷ replicate 7 0

abbrev timed : MetricValue ℕ (List ℕ × List ℕ)
timed = timer_value (record {
  tm = timer_add_sample numbers listed (init_timer numbers listed 1 []) 7;
  conf = some (record { min_val = 0; max_val = 20; bin_width = 10; num_bins = 4 });
  counts = 0 ∷ 1 ∷ 0 ∷ 0 ∷ [];
})

counts-Fit : (i : ℕ) → get_or (0 ∷ 1 ∷ 0 ∷ 0 ∷ []) i 0 < 2 ^ 32
counts-Fit zero = omega arith
counts-Fit (suc zero) = omega arith
counts-Fit (suc (suc zero)) = omega arith
counts-Fit (suc (suc (suc zero))) = omega arith
counts-Fit (suc (suc (suc (suc i)))) = omega arith

timed-CountsFit : CountsFit timed
unfolding CountsFit
timed-CountsFit = counts-Fit

stream_formatter_bin-read_results_example :
    (output : List ℕ) × (stream_formatter_bin numbers listed no_estimate eight_bytes append_bytes
        1000 name [] timed
      ≡ some (output, finalized numbers listed no_estimate 1000 name timed))
    × (read_results numbers.of_bytes
          (length (results numbers listed no_estimate 1000 name timed))
          output
        ≡ some (results numbers listed no_estimate 1000 name timed))
stream_formatter_bin-read_results_example =
    stream_formatter_bin-read_results numbers listed no_estimate 1000 name (omega arith)
      (omega arith) eight_bytes (λ d. refl) (λ d. refl) timed timed-CountsFit

abbrev long_name : List ℕ
long_name = replicate (2 ^ 16 - 1) b'k'

long_name-Long : length long_name + 1 ≡ 2 ^ 16
long_name-Long = ap (λ n. n + 1) (length-replicate {A = ℕ} (2 ^ 16 - 1) b'k')

stream_formatter_bin-fails_example :
    stream_formatter_bin numbers listed no_estimate eight_bytes append_bytes 1000 long_name [] timed
    ≡ none
stream_formatter_bin-fails_example =
    stream_formatter_bin-fails numbers listed no_estimate eight_bytes append_bytes 1000 long_name
      long_name-Long [] timed
