-- ===== src/BinaryStream/LongName.antt =====
-- A name whose length with its null byte does not fit 16 bits, at the first such length.
use statsite.Base.{ℕ, ◌+◌, ◌%◌, ◌^◌, ◌≡◌, refl, arith, List, Option, none, some, length, ◌>>=◌}
use statsite.Doubles.{Doubles}
use statsite.Hll.{Hll}
use statsite.Timer.{Quantiles}
use statsite.Metrics.{
  MetricValue, key_val_value, counter_value, timer_value, gauge_value, set_value,
}
use statsite.BinaryStream.{
  write_item, stream_bin_writer, stream_counter, stream_timer, stream_formatter_bin,
}

then_none :
    {A B : Type 0} (o : Option A) (f : A → Option B) → ((a : A) → f a ≡ none) → (o >>= f) ≡ none
then_none none f h = refl
then_none (some a) f h = h a

module _ {D C P : Type 0} (doubles : Doubles D) (quants : Quantiles D C) (estimate : Hll → ℕ)
    (to_bytes : D → List ℕ) (fwrite : P → List ℕ → Option P) (tv_sec : ℕ) (name : List ℕ)
    (long : length name + 1 ≡ 2 ^ 16) where
  writer-fails :
      (p : P) (type val_type : ℕ) (v : D)
      → stream_bin_writer to_bytes fwrite p tv_sec type val_type v name ≡ none
  unfolding stream_bin_writer write_item
  writer-fails p type val_type v =
      let wrapped : (length name + 1) % 2 ^ 16 ≡ 0 = omega arith in
      rw wrapped (then_none (write_item fwrite p _) _ (λ prefixed. refl))

  -- stream_formatter_bin fails for every metric whose name has 2 ^ 16 - 1 bytes, however well the
  -- pipe takes what is written.
  pub stream_formatter_bin-fails :
      (p : P) (value : MetricValue D C)
      → stream_formatter_bin doubles quants estimate to_bytes fwrite tv_sec name p value ≡ none
  unfolding stream_formatter_bin stream_counter stream_timer
  stream_formatter_bin-fails p (key_val_value v) = rw (writer-fails p)
  stream_formatter_bin-fails p (gauge_value v) = rw (writer-fails p)
  stream_formatter_bin-fails p (counter_value c) = rw (writer-fails p)
  stream_formatter_bin-fails p (set_value s) = rw (writer-fails p)
  stream_formatter_bin-fails p (timer_value t) = rw (writer-fails p)
