-- ===== src/ConnHandler/Text.antt =====
-- The strings of src/conn_handler.c: a pointer is the bytes from it on, up to the end of the
-- command.
use statsite.Base.{
  ◌≡◌, ◌⊎◌, inl, inr, refl, ℕ, suc, ◌-◌, List, [], ◌∷◌, Bool, Option, none, some, ◌&&◌, leb, ◌==◌,
  if◌then◌else◌, get_or, drop, length,
}
use statsite.Doubles.{Doubles}

-- The C string that a pointer points to. `none`: there is no null byte.
unfoldable pub c_string : List ℕ → Option (List ℕ)
c_string [] = none
c_string (c ∷ s) =
    let rest = c_string s in
    if c == 0 then some [] else elim rest [ none ↦ none | some t ↦ some (c ∷ t) ]

-- `buf` with its first `terminator` replaced by a null byte, up to there, and the bytes after it,
-- whose number is `*after_len`. `none` is -1.
unfoldable pub buffer_after_terminator : List ℕ → ℕ → Option (List ℕ × List ℕ)
buffer_after_terminator [] terminator = none
buffer_after_terminator (c ∷ buf) terminator =
    let rest = buffer_after_terminator buf terminator in
    if c == terminator
    then some (0 ∷ [], buf)
    else elim rest [ none ↦ none | some (front, after_term) ↦ some (c ∷ front, after_term) ]

abbrev pub is_digit : ℕ → Bool
is_digit c = leb b'0' c && leb c b'9'

-- What a caller learns of a conversion. `unbounded`: it has read behind the end of the string.
pub data Conversion (D : Type 0) : Type 0 where
  number : D → Conversion D
  no_number unbounded : Conversion D

pub Conversion-cases :
    {D : Type 0} (c : Conversion D)
    → ((val : D) × (c ≡ number val)) ⊎ ((c ≡ no_number) ⊎ (c ≡ unbounded))
Conversion-cases (number val) = inl (val, refl)
Conversion-cases no_number = inr (inl refl)
Conversion-cases unbounded = inr (inr refl)

module _ {D : Type 0} (doubles : Doubles D) where
  open doubles use {of_nat, plus, times, over, minus_one, power_of_ten}

  -- `(val * 10.0) + (*s - '0')`
  abbrev pub shift_in : D → ℕ → D
  shift_in val c = plus (times val (of_nat 10)) (of_nat (c - b'0'))

  -- The loop over the digits: the value, how many they are, and where they end.
  unfoldable pub digits : D → List ℕ → D × ℕ × List ℕ
  digits val [] = (val, 0, [])
  digits val (c ∷ s) =
      let (val', n, end) = digits (shift_in val c) s in
      if is_digit c then (val', suc n, end) else (val, 0, c ∷ s)

  -- The part behind a decimal point.
  unfoldable pub with_fraction : D → List ℕ → D × List ℕ
  with_fraction val s =
      let (frac, n, end) = digits (of_nat 0) (drop 1 s) in
      if get_or s 0 0 == b'.' then (plus val (over frac (power_of_ten n)), end) else (val, s)

  unfoldable pub unsigned_double : List ℕ → D × List ℕ
  unsigned_double s = let (val, _, end) = digits (of_nat 0) s in with_fraction val end

  -- The value, and `*end`.
  unfoldable pub str2double : List ℕ → D × List ℕ
  str2double s =
      if get_or s 0 0 == b'-'
      then (let (val, end) = unsigned_double (drop 1 s) in (times val minus_one, end))
      else unsigned_double s

  -- The test `endptr == s` behind a conversion of `s`.
  abbrev pub tested : List ℕ → D × List ℕ → Conversion D
  tested s (val, []) = unbounded
  tested s (val, c ∷ end) = if length (c ∷ end) == length s then no_number else number val

  unfoldable pub number_of : List ℕ → Conversion D
  number_of s = tested s (str2double s)
