-- ===== src/BinaryStream/Sink.antt =====
-- The format of README.md for sinks of the binary stream, as a reader of it.
use statsite.Base.{
  ℕ, zero, suc, ◌+◌, ◌-◌, ◌*◌, ◌/◌, ◌^◌, ◌<◌, ◌≡◌, refl, arith, List, [], ◌∷◌, ◌++◌, Bool, true,
  false, Option, none, some, ◌==◌, ◌||◌, ltb, if◌then◌else◌, length, length-append, take, drop,
  take-append, drop-append, take_all, drop_all, ◌>>=◌,
}
use statsite.BinaryStream.{bytes_of}

-- What one command says. A count comes with the values of a histogram only.
pub record Result (D : Type 0) : Type 0 where
  pub timestamp : ℕ
  pub type : ℕ
  pub value_type : ℕ
  pub value : D
  pub key : List ℕ
  pub count : Option ℕ

abbrev pub number : List ℕ → ℕ
number [] = 0
number (b ∷ bytes) = b + 256 * number bytes

pub number-bytes_of : (width n : ℕ) → n < 256 ^ width → number (bytes_of width n) ≡ n
unfolding bytes_of
number-bytes_of zero n lt = omega arith
number-bytes_of (suc width) n lt =
    let below : n / 256 < 256 ^ width = omega arith in
    omega (arith, number-bytes_of width (n / 256) below)

pub length-bytes_of : (width n : ℕ) → length (bytes_of width n) ≡ width
unfolding bytes_of
length-bytes_of zero n = refl
length-bytes_of (suc width) n = omega (arith, length-bytes_of width (n / 256))

-- The next bytes, if there are as many.
unfoldable pub read_bytes : ℕ → List ℕ → Option (List ℕ × List ℕ)
read_bytes n input = if ltb (length input) n then none else some (take n input, drop n input)

pub read_bytes-append :
    (n : ℕ) (xs rest : List ℕ) → length xs ≡ n → read_bytes n (xs ++ rest) ≡ some (xs, rest)
unfolding read_bytes
read_bytes-append n xs rest e =
    let enough : ltb (length (xs ++ rest)) n ≡ false = ground (arith, length-append xs rest) in
    rw (
      enough,
      take-append n xs rest (omega arith),
      drop-append n xs rest (omega arith),
      take_all n xs (omega arith),
      drop_all n xs (omega arith),
    )

abbrev pub has_count : ℕ → Bool
has_count value_type = value_type == 8 || (value_type == 9 || value_type == 10)

unfoldable pub read_count : Bool → List ℕ → Option (Option ℕ × List ℕ)
read_count false input = some (none, input)
read_count true input = do (count, rest) ← read_bytes 4 input; some (some (number count), rest)

module _ {D : Type 0} (of_bytes : List ℕ → D) where
  unfoldable pub read_result : List ℕ → Option (Result D × List ℕ)
  read_result input = do
    (timestamp, input) ← read_bytes 8 input
    (type, input) ← read_bytes 1 input
    (value_type, input) ← read_bytes 1 input
    (key_len, input) ← read_bytes 2 input
    (value, input) ← read_bytes 8 input
    (key, input) ← read_bytes (number key_len) input
    (count, input) ← read_count (has_count (number value_type)) input
    some (
      record {
        timestamp = number timestamp;
        type = number type;
        value_type = number value_type;
        value = of_bytes value;
        key = take (number key_len - 1) key;
        count = count;
      },
      input,
    )

  -- The fuel is the number of commands that are read at most; `none` when they do not end there.
  unfoldable pub read_results : (fuel : ℕ) → List ℕ → Option (List (Result D))
  read_results fuel [] = some []
  read_results zero (b ∷ input) = none
  read_results (suc fuel) (b ∷ input) = do
    (first, rest) ← read_result (b ∷ input)
    others ← read_results fuel rest
    some (first ∷ others)
