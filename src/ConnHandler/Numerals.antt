-- ===== src/ConnHandler/Numerals.antt =====
-- The numbers that `str2double` of src/conn_handler.c reads, and what it makes of them.
use statsite.Base.{
  ℕ, ◌+◌, ◌<◌, ◌≡◌, ◌≢◌, refl, ap, List, [], ◌∷◌, ◌++◌, Option, none, some, length, length-append,
  append_assoc, get_or, arith, ◌==◌, if◌then◌else◌, Bool, true, false, Bool-cases, inl, inr, ◌⊎◌,
  ne→==_false,
}
use statsite.Doubles.{Doubles}
use statsite.ConnHandler.Text.{
  number, is_digit, shift_in, digits, with_fraction, unsigned_double, str2double, number_of,
}

-- A sign, the digits before the point, and those behind it if there is one. A digit is its value.
pub record Numeral : Type 0 where
  pub negative : Bool
  pub whole : List ℕ
  pub fraction : Option (List ℕ)

abbrev pub AllDigits : List ℕ → Type 0
AllDigits [] = Unit
AllDigits (n ∷ s) = (n < 10) × AllDigits s

-- A digit is written as a byte from '0' on.
abbrev pub digits_text : List ℕ → List ℕ
digits_text [] = []
digits_text (n ∷ s) = (n + 48) ∷ digits_text s

abbrev pub point : Option (List ℕ) → List ℕ
point none = []
point (some fs) = b'.' ∷ digits_text fs

abbrev pub unsigned_text : Numeral → List ℕ
unsigned_text n = digits_text n.whole ++ point n.fraction

abbrev pub text : Numeral → List ℕ
text n = if n.negative then b'-' ∷ unsigned_text n else unsigned_text n

abbrev pub FractionDigits : Option (List ℕ) → Type 0
FractionDigits none = Unit
FractionDigits (some fs) = AllDigits fs

-- Digits where digits stand, and something to read.
pub record IsNumeral (n : Numeral) : Type 0 where
  pub whole_digits : AllDigits n.whole
  pub fraction_digits : FractionDigits n.fraction
  pub not_empty : text n ≢ []

longer : (s : List ℕ) → s ≢ [] → 1 ≢ length (s ++ 0 ∷ [])
longer [] h e = h refl
longer (c ∷ s) h e = absurd (omega (arith, length-append s (0 ∷ [])))

-- Neither sign starts a number without a sign.
pub no_sign :
    (c : ℕ) (ws : List ℕ) (f : Option (List ℕ))
    → (c ≡ b'-') ⊎ (c ≡ b'+')
    → AllDigits ws
    → (get_or ((digits_text ws ++ point f) ++ 0 ∷ []) 0 0 == c) ≡ false
no_sign c [] none s h = ground arith
no_sign c [] (some fs) s h = ground arith
no_sign c (d ∷ ws) f s (hd, h) = ground arith

module _ {D : Type 0} (doubles : Doubles D) where
  open doubles use {of_nat, plus, times, over, minus_one, power_of_ten}

  abbrev pub digits_value : D → List ℕ → D
  digits_value val [] = val
  digits_value val (n ∷ s) = digits_value (plus (times val (of_nat 10)) (of_nat n)) s

  abbrev pub fraction_value : D → Option (List ℕ) → D
  fraction_value val none = val
  fraction_value val (some fs) =
      plus val (over (digits_value (of_nat 0) fs) (power_of_ten (length fs)))

  abbrev pub unsigned_value : Numeral → D
  unsigned_value n = fraction_value (digits_value (of_nat 0) n.whole) n.fraction

  abbrev pub value : Numeral → D
  value n = if n.negative then times (unsigned_value n) minus_one else unsigned_value n

  digits-run :
      (s : List ℕ) (val : D) (c : ℕ) (rest : List ℕ)
      → AllDigits s
      → is_digit c ≡ false
      → digits doubles val (digits_text s ++ c ∷ rest) ≡ (digits_value val s, length s, c ∷ rest)
  unfolding digits
  digits-run [] val c rest all stop = rw (stop, digits) refl
  digits-run (d ∷ s) val c rest (hd, all) stop =
      let byte : is_digit (d + 48) ≡ true = ground arith in
      let back : shift_in doubles val (d + 48) ≡ plus (times val (of_nat 10)) (of_nat d) =
        ap (λ k. plus (times val (of_nat 10)) (of_nat k)) (omega arith) in
      rw
        (byte, back, digits-run s (plus (times val (of_nat 10)) (of_nat d)) c rest all stop, digits)
        refl

  fraction-run :
      (f : Option (List ℕ)) (val : D)
      → FractionDigits f
      → with_fraction doubles val (point f ++ 0 ∷ []) ≡ (fraction_value val f, 0 ∷ [])
  unfolding with_fraction
  fraction-run none val h = refl
  fraction-run (some fs) val h = rw (digits-run fs (of_nat 0) 0 [] h refl, with_fraction) refl

  parts-run :
      (ws : List ℕ) (f : Option (List ℕ))
      → AllDigits ws
      → FractionDigits f
      → unsigned_double doubles ((digits_text ws ++ point f) ++ 0 ∷ [])
        ≡ (fraction_value (digits_value (of_nat 0) ws) f, 0 ∷ [])
  unfolding unsigned_double
  parts-run ws none hw hf =
      rw
        (
          append_assoc (digits_text ws) [] (0 ∷ []),
          digits-run ws (of_nat 0) 0 [] hw refl,
          unsigned_double,
        )
        (fraction-run none _ hf)
  parts-run ws (some fs) hw hf =
      rw
        (
          append_assoc (digits_text ws) (b'.' ∷ digits_text fs) (0 ∷ []),
          digits-run ws (of_nat 0) b'.' (digits_text fs ++ 0 ∷ []) hw refl,
          unsigned_double,
        )
        (fraction-run (some fs) _ hf)

  str2double-text :
      (n : Numeral) → IsNumeral n → str2double doubles (text n ++ 0 ∷ []) ≡ (value n, 0 ∷ [])
  unfolding str2double
  str2double-text n h =
      let run = parts-run n.whole n.fraction h.whole_digits h.fraction_digits in
      elim (Bool-cases n.negative) [
        | inl e ↦ rw (e, run, str2double) refl
        | inr e ↦ rw (e, no_sign b'-' n.whole n.fraction (inl refl) h.whole_digits, str2double) run
      ]

  -- str2double reads a sign, decimal digits, a point and digits, of which some may be left out but
  -- not all, up to the end of the string. Its value is built from the digits: ten times what is
  -- before a digit and the digit; those behind the point are built up alone and divided by a power
  -- of ten with as many zeros, and a minus sign multiplies by minus one.
  pub number_of-text :
      (n : Numeral) → IsNumeral n → number_of doubles (text n ++ 0 ∷ []) ≡ number (value n)
  unfolding number_of
  number_of-text n h =
      let more : (1 == length (text n ++ 0 ∷ [])) ≡ false =
        ne→==_false _ _ (longer (text n) h.not_empty) in
      rw (str2double-text n h, more, number_of) refl
