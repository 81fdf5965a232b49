-- ===== src/ConnHandler/Wire.antt =====
-- The lines of the text protocol, written out: what src/conn_handler.c is to read back.
use statsite.Base.{ℕ, ◌≡◌, ◌≢◌, List, [], ◌∷◌, ◌++◌, false, Option, none, some, if◌then◌else◌}
use statsite.ConnHandler.{MetricType, unknown, key_val, gauge, counter, timer, set, gauge_delta}
use statsite.ConnHandler.Numerals.{Numeral, text, IsNumeral}

abbrev pub Lacks : ℕ → List ℕ → Type 0
Lacks c [] = Unit
Lacks c (x ∷ s) = (x ≢ c) × Lacks c s

-- A sample: what is written for its type, the value and, for a counter, a sample rate.
abbrev pub letter : MetricType → ℕ
letter counter = b'c'
letter timer = b'm'
letter key_val = b'k'
letter gauge = b'g'
letter gauge_delta = b'g'
letter set = b's'
letter unknown = b'?'

-- The value of a change of a gauge has a sign.
abbrev pub value_text : MetricType → Numeral → List ℕ
value_text gauge_delta n = if n.negative then text n else b'+' ∷ text n
value_text _ n = text n

-- What the README writes behind the letter.
abbrev pub letters_after : MetricType → List ℕ
letters_after timer = b's' ∷ []
letters_after key_val = b'v' ∷ []
letters_after _ = []

abbrev pub rate_text : Option Numeral → List ℕ
rate_text none = 0 ∷ []
rate_text (some r) = b'|' ∷ b'@' ∷ (text r ++ 0 ∷ [])

abbrev pub sample_line : MetricType → List ℕ → Numeral → Option Numeral → List ℕ
sample_line type key n rate =
    key ++ b':' ∷ (value_text type n ++ b'|' ∷ letter type ∷ (letters_after type ++ rate_text rate))

abbrev pub RateNumeral : MetricType → Option Numeral → Type 0
RateNumeral _ none = Unit
RateNumeral counter (some r) = IsNumeral r
RateNumeral _ (some r) = ⊥

-- A gauge is set to a value without a sign.
abbrev pub IsSample : MetricType → Numeral → Type 0
IsSample unknown n = ⊥
IsSample set n = ⊥
IsSample gauge n = n.negative ≡ false
IsSample _ n = Unit
