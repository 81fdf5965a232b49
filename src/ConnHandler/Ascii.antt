-- ===== src/ConnHandler/Ascii.antt =====
-- The text protocol of src/conn_handler.c: `handle_ascii_client_connect`.
use statsite.Base.{ℕ, List, [], ◌∷◌, Option, none, some, ◌&&◌, ◌==◌, if◌then◌else◌, get_or, drop}
use statsite.Doubles.{Doubles}
use statsite.ConnHandler.{
  MetricType, key_val, gauge, counter, timer, set, gauge_delta, MetricsOps, Input, Verdict, refused,
  overran, Round, command_loop, count_input, add_named, update_set, line_round,
}
use statsite.ConnHandler.Text.{
  c_string, buffer_after_terminator, Conversion, number, no_number, unbounded, number_of,
}

-- A gauge's value with a sign is a change; a plus is skipped.
unfoldable pub gauge_of : List ℕ → MetricType × List ℕ
gauge_of val_str =
    if get_or val_str 0 0 == b'+'
    then (gauge_delta, drop 1 val_str)
    else (if get_or val_str 0 0 == b'-' then (gauge_delta, val_str) else (gauge, val_str))

-- `switch (*type_str)`: the type, and where the value starts.
unfoldable pub type_of : ℕ → List ℕ → Option (MetricType × List ℕ)
type_of c val_str =
    if c == b'c'
    then some (counter, val_str)
    else (if c == b'm'
        then some (timer, val_str)
        else (if c == b'k'
            then some (key_val, val_str)
            else (if c == b'g'
                then some (gauge_of val_str)
                else (if c == b's' then some (set, val_str) else none))))

module _ {D M : Type 0} (doubles : Doubles D) (ops : MetricsOps D M)
    (input_counter : Option (List ℕ)) where
  open doubles use {of_nat, times, over, less, less_eq}

  unfoldable pub magnify : D → D → D
  magnify val rate =
      if less (of_nat 0) rate && less_eq rate (of_nat 1)
      then times val (over (of_nat 1) rate)
      else val

  -- The value of a counter with its sample rate, and of another metric.
  unfoldable pub sampled : MetricType → D → List ℕ → Conversion D
  sampled counter val type_str = elim (buffer_after_terminator type_str b'@') [
    | none ↦ number val
    | some (_, sample_str) ↦ elim (number_of doubles sample_str) [
      | number rate ↦ number (magnify val rate)
      | no_number ↦ no_number
      | unbounded ↦ unbounded
    ]
  ]
  sampled _ val type_str = number val

  unfoldable pub store_value : MetricType → List ℕ → List ℕ → List ℕ → M → Verdict × M
  store_value type buf val_str type_str m = elim (number_of doubles val_str) [
    | no_number ↦ (refused, m)
    | unbounded ↦ (overran, m)
    | number val ↦ elim (sampled type val type_str) [
      | no_number ↦ (refused, m)
      | unbounded ↦ (overran, m)
      | number v ↦ add_named ops type (c_string buf) v m
    ]
  ]

  unfoldable pub store_line : MetricType → List ℕ → List ℕ → List ℕ → M → Verdict × M
  store_line set buf val_str type_str m = update_set ops (c_string buf) (c_string val_str) m
  store_line type buf val_str type_str m = store_value type buf val_str type_str m

  -- The line behind its bar: `buf` and `val_str` end there.
  unfoldable pub store_typed : List ℕ → List ℕ → List ℕ → M → Verdict × M
  store_typed buf val_str [] m = (overran, m)
  store_typed buf val_str (c ∷ s) m = elim (type_of c val_str) [
    | none ↦ (refused, m)
    | some (type, val) ↦
        store_line type buf val (c ∷ s) (count_input ops (of_nat 1) input_counter m)
  ]

  -- The loop's body, behind the extraction of a line.
  unfoldable pub handle_line : M → List ℕ → Verdict × M
  handle_line m line = elim (buffer_after_terminator line b':') [
    | none ↦ (refused, m)
    | some (buf, after_colon) ↦ elim (buffer_after_terminator after_colon b'|') [
      | none ↦ (refused, m)
      | some (val_str, type_str) ↦ store_typed buf val_str type_str m
    ]
  ]

  module _ {B : Type 0} (input : Input B) where
    open input use {extract_to_terminator}

    unfoldable pub ascii_round : M → B → Round M B
    ascii_round m conn = line_round (handle_line m) m (extract_to_terminator conn b'\n')

    unfoldable pub handle_ascii_client_connect : (fuel : ℕ) → M → B → Option (Verdict × M × B)
    handle_ascii_client_connect fuel m conn = command_loop ascii_round fuel m conn
