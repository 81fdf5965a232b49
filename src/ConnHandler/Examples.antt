-- ===== src/ConnHandler/Examples.antt =====
-- Commands of the text and the binary protocol for src/conn_handler.c, over natural numbers, with
-- the calls that they lead to as the metrics.
use statsite.Base.{
  ℕ, ◌+◌, ◌≡◌, ◌≢◌, ◌↔◌, refl, List, [], ◌∷◌, ◌++◌, none, some, true, false, arith, replicate,
}
use statsite.Counter.Examples.{numbers}
use statsite.Circbuf.{CircularBuffer, circbuf_used_buf}
use statsite.Circbuf.Valid.{IsValid}
use statsite.Circbuf.Queue.{contents, split_line}
use statsite.Circbuf.Examples.{wrapped, wrapped-IsValid}
use statsite.ConnHandler.{
  MetricType, counter, MetricsOps, Verdict, done, overran, command_loop, count_input, add_named,
  round_of,
}
use statsite.ConnHandler.Text.{
  c_string, buffer_after_terminator, number, no_number, number_of, digits, with_fraction,
  unsigned_double, str2double,
}
use statsite.ConnHandler.Ascii.{
  type_of, sampled, store_value, store_line, store_typed, handle_line, ascii_round,
  handle_ascii_client_connect,
}
use statsite.ConnHandler.Binary.{store_sample, handle_client_connect}
use statsite.ConnHandler.Inputs.{queue_input}
use statsite.ConnHandler.Whole.{on_queue, on_buffer, handle_client_connect_lem}
use statsite.ConnHandler.Chunks.{handle_client_connect_append, handle_ascii_client_connect_drains}
use statsite.ConnHandler.Overrun.{handle_ascii_client_connect_stays, store_sample_overruns}
use statsite.ConnHandler.Numerals.{Numeral, IsNumeral, text, value, number_of-text}
use statsite.ConnHandler.Wire.{sample_line}
use statsite.ConnHandler.Lines.{rated, handle_line-sample_line, handle_line-set_line}

data Call : Type 0 where
  sample : MetricType → List ℕ → ℕ → Call
  update : List ℕ → List ℕ → Call

abbrev Log : Type 0
Log = List Call

abbrev log : MetricsOps ℕ Log
log = record {
  metrics_add_sample = λ type name val m. sample type name val ∷ m;
  metrics_set_update = λ name val m. update name val ∷ m;
}

-- "a:12|c" and a newline
abbrev line : List ℕ
line = b'a' ∷ b':' ∷ b'1' ∷ b'2' ∷ b'|' ∷ b'c' ∷ b'\n' ∷ []

abbrev twelve : Numeral
twelve = record { negative = false; whole = 1 ∷ 2 ∷ []; fraction = none }

abbrev minus_half : Numeral
minus_half = record { negative = true; whole = []; fraction = some (5 ∷ []) }

twelve-IsNumeral : IsNumeral twelve
twelve-IsNumeral = record {
  whole_digits = (omega arith, (omega arith, tt));
  fraction_digits = tt;
  not_empty = λ e. cc;
}

minus_half-IsNumeral : IsNumeral minus_half
minus_half-IsNumeral = record {
  whole_digits = tt;
  fraction_digits = (omega arith, tt);
  not_empty = λ e. cc;
}

-- A sign alone, and a point alone, are numbers to `str2double`; a letter is not.
sign_alone : number_of numbers (b'-' ∷ 0 ∷ []) ≡ number 0
unfolding number_of str2double unsigned_double with_fraction digits
sign_alone = refl

letter_alone : number_of numbers (b'x' ∷ 0 ∷ []) ≡ no_number
unfolding number_of str2double unsigned_double with_fraction digits
letter_alone = refl

reads_line :
    on_queue numbers log none 3 [] (line ++ b'b' ∷ [])
    ≡ some (done, sample counter (b'a' ∷ []) 12 ∷ [], b'b' ∷ [])
unfolding handle_client_connect handle_ascii_client_connect command_loop ascii_round handle_line
    store_typed store_line store_value sampled type_of number_of str2double unsigned_double
    with_fraction digits c_string buffer_after_terminator count_input add_named round_of
reads_line = refl

reads_next :
    on_queue numbers log none 2 (sample counter (b'a' ∷ []) 12 ∷ []) (b'b' ∷ line)
    ≡ some (done, sample counter (b'b' ∷ b'a' ∷ []) 12 ∷ sample counter (b'a' ∷ []) 12 ∷ [], [])
unfolding handle_client_connect handle_ascii_client_connect command_loop ascii_round handle_line
    store_typed store_line store_value sampled type_of number_of str2double unsigned_double
    with_fraction digits c_string buffer_after_terminator count_input add_named round_of
reads_next = refl

ascii_line :
    handle_ascii_client_connect numbers log none queue_input 3 [] (line ++ b'b' ∷ [])
    ≡ some (done, sample counter (b'a' ∷ []) 12 ∷ [], b'b' ∷ [])
unfolding handle_ascii_client_connect command_loop ascii_round handle_line store_typed store_line
    store_value sampled type_of number_of str2double unsigned_double with_fraction digits c_string
    buffer_after_terminator count_input add_named round_of
ascii_line = refl

handle_client_connect_lem_example :
    (v : Verdict) × (m' : Log) × (buf' : CircularBuffer) × (on_buffer numbers log none
        (circbuf_used_buf wrapped + 1)
        []
        wrapped
      ≡ some (v, m', buf'))
    × (on_queue numbers log none (circbuf_used_buf wrapped + 1) [] (contents wrapped)
        ≡ some (v, m', contents buf'))
    × IsValid buf'
handle_client_connect_lem_example =
    handle_client_connect_lem numbers log none [] wrapped wrapped-IsValid

handle_client_connect_append_example :
    on_queue numbers log none 5 [] ((line ++ b'b' ∷ []) ++ line)
    ≡ some (done, sample counter (b'b' ∷ b'a' ∷ []) 12 ∷ sample counter (b'a' ∷ []) 12 ∷ [], [])
handle_client_connect_append_example =
    handle_client_connect_append numbers log none 3 2 [] (line ++ b'b' ∷ []) line refl reads_line
      reads_next

handle_ascii_client_connect_drains_example : split_line b'\n' (b'b' ∷ []) ≡ none
handle_ascii_client_connect_drains_example =
    handle_ascii_client_connect_drains numbers log none 3 [] (line ++ b'b' ∷ []) ascii_line

handle_ascii_client_connect_stays_example :
    handle_ascii_client_connect numbers log none queue_input 3 [] line ≢ some (overran, [], [])
handle_ascii_client_connect_stays_example =
    handle_ascii_client_connect_stays numbers log none 3 [] line

number_of-text_example :
    number_of numbers (text minus_half ++ 0 ∷ []) ≡ number (value numbers minus_half)
number_of-text_example = number_of-text numbers minus_half minus_half-IsNumeral

handle_line-sample_line_example :
    handle_line numbers log
      (some (b'n' ∷ []))
      []
      (sample_line counter (b'k' ∷ []) twelve (some twelve))
    ≡ (
      done,
      sample counter
            (b'k' ∷ [])
            (rated numbers log (some (b'n' ∷ [])) (value numbers twelve) (some twelve))
          ∷ count_input log 1 (some (b'n' ∷ [])) [],
    )
handle_line-sample_line_example =
    handle_line-sample_line numbers log (some (b'n' ∷ [])) counter (b'k' ∷ []) twelve (some twelve)
      [] (omega arith, tt) (omega arith, tt) twelve-IsNumeral tt twelve-IsNumeral

handle_line-set_line_example :
    handle_line numbers log none [] (b'k' ∷ b':' ∷ b'v' ∷ b'|' ∷ b's' ∷ 0 ∷ [])
    ≡ (done, update (b'k' ∷ []) (b'v' ∷ []) ∷ count_input log 1 none [])
handle_line-set_line_example =
    handle_line-set_line numbers log none (b'k' ∷ []) (b'v' ∷ []) [] (omega arith, tt)
      (omega arith, tt) (omega arith, tt) (omega arith, tt)

abbrev no_key : ℕ
no_key = 0

store_sample_overruns_example :
    ((store_sample numbers log none counter no_key [] (replicate 12 0)).0 ≡ overran) ↔ (no_key ≡ 0)
store_sample_overruns_example =
    store_sample_overruns numbers log none counter no_key [] (replicate 12 0) refl refl
