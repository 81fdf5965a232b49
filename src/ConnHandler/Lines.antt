-- ===== src/ConnHandler/Lines.antt =====
-- What src/conn_handler.c makes of the lines of the text protocol.
use statsite.Base.{
  ℕ, ◌≡◌, refl, ◌∙◌, List, [], ◌∷◌, ◌++◌, Option, none, some, arith, false, Bool-cases, inl, inr,
  ne→==_false, ==_self, if◌then◌else◌, ◌&&◌,
}
use statsite.Doubles.{Doubles}
use statsite.ConnHandler.{
  MetricType, unknown, key_val, gauge, counter, timer, set, gauge_delta, MetricsOps, done,
  count_input, add_named, update_set,
}
use statsite.ConnHandler.Text.{c_string, buffer_after_terminator, number, is_digit}
use statsite.ConnHandler.Ascii.{
  gauge_of, type_of, magnify, sampled, store_value, store_line, store_typed, handle_line,
}
use statsite.ConnHandler.Numerals.{
  Numeral, text, value, IsNumeral, AllDigits, digits_text, FractionDigits, point, unsigned_text,
  number_of-text, no_sign,
}
use statsite.ConnHandler.Wire.{
  Lacks, letter, letters_after, value_text, rate_text, sample_line, RateNumeral, IsSample,
}

Lacks-append : (c : ℕ) (xs ys : List ℕ) → Lacks c xs → Lacks c ys → Lacks c (xs ++ ys)
Lacks-append c [] ys hx hy = hy
Lacks-append c (x ∷ xs) ys (h, hx) hy = (h, Lacks-append c xs ys hx hy)

digits-Lacks : (c : ℕ) (s : List ℕ) → is_digit c ≡ false → AllDigits s → Lacks c (digits_text s)
digits-Lacks c [] h all = tt
digits-Lacks c (d ∷ s) h (hd, all) = (ground arith, digits-Lacks c s h all)

pub cut-Lacks :
    (s : List ℕ) (c : ℕ) (rest : List ℕ)
    → Lacks c s
    → buffer_after_terminator (s ++ c ∷ rest) c ≡ some (s ++ 0 ∷ [], rest)
unfolding buffer_after_terminator
cut-Lacks [] c rest h = rw (==_self c, buffer_after_terminator) refl
cut-Lacks (x ∷ s) c rest (hx, h) =
    rw (ne→==_false _ _ hx, cut-Lacks s c rest h, buffer_after_terminator) refl

pub c_string-Lacks : (s rest : List ℕ) → Lacks 0 s → c_string (s ++ 0 ∷ rest) ≡ some s
unfolding c_string
c_string-Lacks [] rest h = refl
c_string-Lacks (x ∷ s) rest (hx, h) =
    rw (ne→==_false _ _ hx, c_string-Lacks s rest h, c_string) refl

unsigned-Lacks : (n : Numeral) → IsNumeral n → Lacks b'|' (unsigned_text n)
unsigned-Lacks n h =
    Lacks-append b'|' (digits_text n.whole) (point n.fraction)
      (digits-Lacks b'|' n.whole refl h.whole_digits) (point-Lacks n.fraction h.fraction_digits)
  where
    point-Lacks : (f : Option (List ℕ)) → FractionDigits f → Lacks b'|' (point f)
    point-Lacks none hf = tt
    point-Lacks (some fs) hf = (omega arith, digits-Lacks b'|' fs refl hf)

text-Lacks : (n : Numeral) → IsNumeral n → Lacks b'|' (text n)
text-Lacks n h = elim (Bool-cases n.negative) [
  | inl e ↦ rw e (omega arith, unsigned-Lacks n h)
  | inr e ↦ rw e (unsigned-Lacks n h)
]

type_of-letter :
    (type : MetricType) (n : Numeral)
    → IsNumeral n
    → IsSample type n
    → type_of (letter type) (value_text type n ++ 0 ∷ []) ≡ some (type, text n ++ 0 ∷ [])
unfolding type_of gauge_of
type_of-letter unknown n h s = absurd s
type_of-letter set n h s = absurd s
type_of-letter counter n h s = refl
type_of-letter timer n h s = refl
type_of-letter key_val n h s = refl
type_of-letter gauge n h s =
    rw
      (
        s,
        no_sign b'+' n.whole n.fraction (inr refl) h.whole_digits,
        no_sign b'-' n.whole n.fraction (inl refl) h.whole_digits,
        gauge_of,
      )
      refl
type_of-letter gauge_delta n h s = elim (Bool-cases n.negative) [
  | inl e ↦ rw e refl
  | inr e ↦ rw e refl
]

value_text-Lacks : (type : MetricType) (n : Numeral) → IsNumeral n → Lacks b'|' (value_text type n)
value_text-Lacks gauge_delta n h = elim (Bool-cases n.negative) [
  | inl e ↦ rw e (omega arith, unsigned-Lacks n h)
  | inr e ↦ rw e (omega arith, unsigned-Lacks n h)
]
value_text-Lacks _ n h = text-Lacks n h

module _ {D M : Type 0} (doubles : Doubles D) (ops : MetricsOps D M)
    (input_counter : Option (List ℕ)) where
  -- A value that stands for those that a rate between 0 and 1 has left out.
  abbrev pub rated : D → Option Numeral → D
  rated val none = val
  rated val (some r) =
      let rate = value doubles r in
      if doubles.less (doubles.of_nat 0) rate && doubles.less_eq rate (doubles.of_nat 1)
      then doubles.times val (doubles.over (doubles.of_nat 1) rate)
      else val

  sampled_rate :
      (type : MetricType) (val : D) (rate : Option Numeral)
      → RateNumeral type rate
      → sampled doubles ops input_counter type val
          (letter type ∷ (letters_after type ++ rate_text rate))
        ≡ number (rated val rate)
  unfolding sampled buffer_after_terminator magnify
  sampled_rate counter val none h = refl
  sampled_rate counter val (some r) h = rw (number_of-text doubles r h, sampled) refl
  sampled_rate unknown val none h = refl
  sampled_rate key_val val none h = refl
  sampled_rate gauge val none h = refl
  sampled_rate timer val none h = refl
  sampled_rate set val none h = refl
  sampled_rate gauge_delta val none h = refl
  sampled_rate unknown val (some r) h = absurd h
  sampled_rate key_val val (some r) h = absurd h
  sampled_rate gauge val (some r) h = absurd h
  sampled_rate timer val (some r) h = absurd h
  sampled_rate set val (some r) h = absurd h
  sampled_rate gauge_delta val (some r) h = absurd h

  store_value_sample :
      (type : MetricType) (key : List ℕ) (n : Numeral) (rate : Option Numeral) (m : M)
      → Lacks 0 key
      → IsNumeral n
      → RateNumeral type rate
      → store_value doubles ops input_counter type
          (key ++ 0 ∷ [])
          (text n ++ 0 ∷ [])
          (letter type ∷ (letters_after type ++ rate_text rate))
          m
        ≡ (done, ops.metrics_add_sample type key (rated (value doubles n) rate) m)
  unfolding store_value add_named
  store_value_sample type key n rate m clean h hr =
      rw
        (
          number_of-text doubles n h,
          sampled_rate type (value doubles n) rate hr,
          c_string-Lacks key [] clean,
          store_value,
        )
        refl

  store_line_sample :
      (type : MetricType) (buf val_str type_str : List ℕ) (n : Numeral) (m : M)
      → IsSample type n
      → store_line doubles ops input_counter type buf val_str type_str m
        ≡ store_value doubles ops input_counter type buf val_str type_str m
  unfolding store_line
  store_line_sample unknown buf val_str type_str n m s = absurd s
  store_line_sample set buf val_str type_str n m s = absurd s
  store_line_sample key_val buf val_str type_str n m s = refl
  store_line_sample gauge buf val_str type_str n m s = refl
  store_line_sample counter buf val_str type_str n m s = refl
  store_line_sample timer buf val_str type_str n m s = refl
  store_line_sample gauge_delta buf val_str type_str n m s = refl

  store_typed_sample :
      (type : MetricType) (key : List ℕ) (n : Numeral) (rate : Option Numeral) (m : M)
      → Lacks 0 key
      → IsNumeral n
      → IsSample type n
      → RateNumeral type rate
      → store_typed doubles ops input_counter
          (key ++ 0 ∷ [])
          (value_text type n ++ 0 ∷ [])
          (letter type ∷ (letters_after type ++ rate_text rate))
          m
        ≡ (
          done,
          ops.metrics_add_sample type key
              (rated (value doubles n) rate)
              (count_input ops (doubles.of_nat 1) input_counter m),
        )
  unfolding store_typed
  store_typed_sample type key n rate m clean h s hr =
      rw (type_of-letter type n h s, store_typed)
        (store_line_sample type (key ++ 0 ∷ []) (text n ++ 0 ∷ [])
            (letter type ∷ (letters_after type ++ rate_text rate)) n _ s
          ∙ store_value_sample type key n rate _ clean h hr)

  -- A line that writes a sample as README.md does, a counter (c), a timer (ms), a key and value
  -- (kv) or a gauge (g), is read back: handle_line counts the input and adds the sample with its
  -- type, its key and the decimal value of its digits, which is multiplied by 1 over the sample
  -- rate if there is one above 0 and at most 1. The key has no colon and no null byte, a gauge is
  -- set to a value without a sign, and only a counter has a rate.
  pub handle_line-sample_line :
      (type : MetricType) (key : List ℕ) (n : Numeral) (rate : Option Numeral) (m : M)
      → Lacks 0 key
      → Lacks b':' key
      → IsNumeral n
      → IsSample type n
      → RateNumeral type rate
      → handle_line doubles ops input_counter m (sample_line type key n rate) ≡ (
        done,
        ops.metrics_add_sample type key
            (rated (value doubles n) rate)
            (count_input ops (doubles.of_nat 1) input_counter m),
      )
  unfolding handle_line
  handle_line-sample_line type key n rate m clean no_colon h s hr =
      rw
        (
          cut-Lacks key b':'
              (value_text type n ++ b'|' ∷ letter type ∷ (letters_after type ++ rate_text rate))
              no_colon,
          cut-Lacks (value_text type n) b'|' (letter type ∷ (letters_after type ++ rate_text rate))
              (value_text-Lacks type n h),
          handle_line,
        )
        (store_typed_sample type key n rate m clean h s hr)

  -- A line that adds a value to a set is read back, if key and value have none of the bytes that
  -- end them.
  pub handle_line-set_line :
      (key val : List ℕ) (m : M)
      → Lacks 0 key
      → Lacks b':' key
      → Lacks 0 val
      → Lacks b'|' val
      → handle_line doubles ops input_counter m (key ++ b':' ∷ (val ++ b'|' ∷ b's' ∷ 0 ∷ [])) ≡ (
        done,
        ops.metrics_set_update key val (count_input ops (doubles.of_nat 1) input_counter m),
      )
  unfolding handle_line store_typed type_of store_line update_set
  handle_line-set_line key val m clean no_colon clean' no_bar =
      rw
        (
          cut-Lacks key b':' (val ++ b'|' ∷ b's' ∷ 0 ∷ []) no_colon,
          cut-Lacks val b'|' (b's' ∷ 0 ∷ []) no_bar,
          c_string-Lacks key [] clean,
          c_string-Lacks val [] clean',
          handle_line,
        )
        refl
