-- ===== src/ConnHandler/Bounds.antt =====
-- The text handler of src/conn_handler.c reads no byte behind a line.
use statsite.Base.{
  ℕ, ◌<◌, ◌≡◌, ◌≢◌, ◌⊎◌, inl, inr, refl, List, [], ◌∷◌, Option, some, drop, arith, ◌==◌, get_or,
  true, Bool-cases, Option-cases,
}
use statsite.Doubles.{Doubles}
use statsite.ConnHandler.{
  MetricType, counter, set, MetricsOps, overran, count_input, add_named, update_set,
}
use statsite.ConnHandler.Text.{
  c_string, buffer_after_terminator, unbounded, is_digit, shift_in, digits, with_fraction,
  unsigned_double, str2double, tested, number_of, Conversion-cases,
}
use statsite.ConnHandler.Ascii.{
  gauge_of, type_of, sampled, store_value, store_line, store_typed, handle_line,
}

abbrev pub HasNull : List ℕ → Type 0
HasNull [] = ⊥
HasNull (c ∷ s) = (c ≡ 0) ⊎ HasNull s

abbrev pub EndsNull : List ℕ → Type 0
EndsNull [] = ⊥
EndsNull (c ∷ []) = c ≡ 0
EndsNull (c ∷ d ∷ s) = EndsNull (d ∷ s)

EndsNull-HasNull : (s : List ℕ) → EndsNull s → HasNull s
EndsNull-HasNull [] h = h
EndsNull-HasNull (c ∷ []) h = inl h
EndsNull-HasNull (c ∷ d ∷ s) h = inr (EndsNull-HasNull (d ∷ s) h)

pub c_string-HasNull : (s : List ℕ) → HasNull s → (t : List ℕ) × (c_string s ≡ some t)
unfolding c_string
c_string-HasNull [] h = absurd h
c_string-HasNull (c ∷ s) h = elim (Bool-cases (c == 0)) [
  | inl e ↦ ([], rw (e, c_string) refl)
  | inr e ↦ elim h [
    | inl z ↦ absurd (ground arith)
    | inr k ↦ let (t, f) = c_string-HasNull s k in (c ∷ t, rw (e, f, c_string) refl)
  ]
]

-- What a cut leaves before and behind the terminator.
front-HasNull :
    (s : List ℕ) (c : ℕ) {front rest : List ℕ}
    → buffer_after_terminator s c ≡ some (front, rest)
    → HasNull front
unfolding buffer_after_terminator
front-HasNull [] c e = absurd (cc)
front-HasNull (x ∷ s) c e = elim (Bool-cases (x == c)) [
  | inl hit ↦ ground arith
  | inr miss ↦ elim (Option-cases (buffer_after_terminator s c)) [
    | inl f ↦ absurd (ground arith)
    | inr ((front', rest'), f) ↦ ground (arith, front-HasNull s c f)
  ]
]

rest-EndsNull :
    (s : List ℕ) (c : ℕ) {front rest : List ℕ}
    → 0 < c
    → EndsNull s
    → buffer_after_terminator s c ≡ some (front, rest)
    → EndsNull rest
unfolding buffer_after_terminator
rest-EndsNull [] c pos h e = absurd h
rest-EndsNull (x ∷ []) c pos h e = absurd (ground arith)
rest-EndsNull (x ∷ y ∷ s) c pos h e = elim (Bool-cases (x == c)) [
  | inl hit ↦ ground arith
  | inr miss ↦ elim (Option-cases (buffer_after_terminator (y ∷ s) c)) [
    | inl f ↦ absurd (ground arith)
    | inr ((front', rest'), f) ↦ ground (arith, rest-EndsNull (y ∷ s) c pos h f)
  ]
]

drop-HasNull :
    (s : List ℕ) (c : ℕ) → 0 < c → (get_or s 0 0 == c) ≡ true → HasNull s → HasNull (drop 1 s)
drop-HasNull [] c pos e h = absurd h
drop-HasNull (x ∷ s) c pos e h = ground arith

gauge_of-HasNull : (val_str : List ℕ) → HasNull val_str → HasNull (gauge_of val_str).1
unfolding gauge_of
gauge_of-HasNull s h = elim (Bool-cases (get_or s 0 0 == b'+')) [
  | inl e ↦ rw (e, gauge_of) (drop-HasNull s b'+' (omega arith) e h)
  | inr e ↦
      rw (e, gauge_of)
        (elim (Bool-cases (get_or s 0 0 == b'-')) [ inl f ↦ rw f h | inr f ↦ rw f h ])
]

type_of-HasNull :
    (c : ℕ) (val_str : List ℕ) {type : MetricType} {val : List ℕ}
    → type_of c val_str ≡ some (type, val)
    → HasNull val_str
    → HasNull val
unfolding type_of
type_of-HasNull c s e h = ground (arith, gauge_of-HasNull s h)

module _ {D : Type 0} (doubles : Doubles D) where
  open doubles use {of_nat}

  digits-HasNull : (s : List ℕ) (val : D) → HasNull s → HasNull (digits doubles val s).2
  unfolding digits
  digits-HasNull [] val h = absurd h
  digits-HasNull (c ∷ s) val h = elim (Bool-cases (is_digit c)) [
    | inl e ↦ elim h [
      | inl z ↦ absurd (ground arith)
      | inr k ↦ rw (e, digits) (digits-HasNull s (shift_in doubles val c) k)
    ]
    | inr e ↦ rw (e, digits) h
  ]

  fraction-HasNull : (s : List ℕ) (val : D) → HasNull s → HasNull (with_fraction doubles val s).1
  unfolding with_fraction
  fraction-HasNull s val h = elim (Bool-cases (get_or s 0 0 == b'.')) [
    | inl e ↦
        rw (e, with_fraction)
          (digits-HasNull (drop 1 s) (of_nat 0) (drop-HasNull s b'.' (omega arith) e h))
    | inr e ↦ rw (e, with_fraction) h
  ]

  unsigned-HasNull : (s : List ℕ) → HasNull s → HasNull (unsigned_double doubles s).1
  unfolding unsigned_double
  unsigned-HasNull s h = fraction-HasNull _ _ (digits-HasNull s (of_nat 0) h)

  str2double-HasNull : (s : List ℕ) → HasNull s → HasNull (str2double doubles s).1
  unfolding str2double
  str2double-HasNull s h = elim (Bool-cases (get_or s 0 0 == b'-')) [
    | inl e ↦
        rw (e, str2double) (unsigned-HasNull (drop 1 s) (drop-HasNull s b'-' (omega arith) e h))
    | inr e ↦ rw (e, str2double) (unsigned-HasNull s h)
  ]

  tested-bounded : (s : List ℕ) (r : D × List ℕ) → HasNull r.1 → tested doubles s r ≢ unbounded
  tested-bounded s (val, []) h e = h
  tested-bounded s (val, c ∷ end) h e = ground arith

  number_of-bounded : (s : List ℕ) → HasNull s → number_of doubles s ≢ unbounded
  unfolding number_of
  number_of-bounded s h e = tested-bounded s (str2double doubles s) (str2double-HasNull s h) e

module _ {D M : Type 0} (doubles : Doubles D) (ops : MetricsOps D M)
    (input_counter : Option (List ℕ)) where
  add_named-bounded :
      (type : MetricType) (buf : List ℕ) (val : D) (m : M)
      → HasNull buf
      → (add_named ops type (c_string buf) val m).0 ≢ overran
  unfolding add_named
  add_named-bounded type buf val m h e =
      let (key, f) = c_string-HasNull buf h in absurd (ground arith)

  sampled-bounded :
      (type : MetricType) (val : D) (type_str : List ℕ)
      → EndsNull type_str
      → sampled doubles ops input_counter type val type_str ≢ unbounded
  unfolding sampled
  sampled-bounded counter val s h e = elim (Option-cases (buffer_after_terminator s b'@')) [
    | inl f ↦ cc
    | inr ((front, rest), f) ↦
        let inside =
          number_of-bounded doubles rest
            (EndsNull-HasNull rest (rest-EndsNull s b'@' (omega arith) h f)) in
        elim (Conversion-cases (number_of doubles rest)) [
          | inl (rate, g) ↦ absurd (cc)
          | inr (inl g) ↦ absurd (cc)
          | inr (inr g) ↦ absurd (inside g)
        ]
  ]
  sampled-bounded _ val s h e = cc

  store_value-bounded :
      (type : MetricType) (buf val_str type_str : List ℕ) (m : M)
      → HasNull buf
      → HasNull val_str
      → EndsNull type_str
      → (store_value doubles ops input_counter type buf val_str type_str m).0 ≢ overran
  unfolding store_value
  store_value-bounded type buf val_str type_str m hb hv ht e =
      elim (Conversion-cases (number_of doubles val_str)) [
        | inl (val, f) ↦
            elim (Conversion-cases (sampled doubles ops input_counter type val type_str)) [
              | inl (v, g) ↦
                  absurd (add_named-bounded type buf v m hb (rw (f, g, store_value) at e))
              | inr (inl g) ↦ absurd (ground arith)
              | inr (inr g) ↦ absurd (sampled-bounded type val type_str ht g)
            ]
        | inr (inl f) ↦ absurd (ground arith)
        | inr (inr f) ↦ absurd (number_of-bounded doubles val_str hv f)
      ]

  store_line-bounded :
      (type : MetricType) (buf val_str type_str : List ℕ) (m : M)
      → HasNull buf
      → HasNull val_str
      → EndsNull type_str
      → (store_line doubles ops input_counter type buf val_str type_str m).0 ≢ overran
  unfolding store_line update_set
  store_line-bounded set buf val_str type_str m hb hv ht e =
      let (key, f) = c_string-HasNull buf hb in
      let (val, g) = c_string-HasNull val_str hv in absurd (ground arith)
  store_line-bounded _ buf val_str type_str m hb hv ht e =
      store_value-bounded _ buf val_str type_str m hb hv ht e

  store_typed-bounded :
      (buf val_str type_str : List ℕ) (m : M)
      → HasNull buf
      → HasNull val_str
      → EndsNull type_str
      → (store_typed doubles ops input_counter buf val_str type_str m).0 ≢ overran
  unfolding store_typed
  store_typed-bounded buf val_str [] m hb hv ht e = ht
  store_typed-bounded buf val_str (c ∷ s) m hb hv ht e = elim (Option-cases (type_of c val_str)) [
    | inl f ↦ absurd (ground arith)
    | inr ((type, val), f) ↦
        store_line-bounded type buf val (c ∷ s) (count_input ops (doubles.of_nat 1) input_counter m)
          hb (type_of-HasNull c val_str f hv) ht (rw (f, store_typed) at e)
  ]

  pub handle_line-bounded :
      (line : List ℕ) (m : M)
      → EndsNull line
      → (handle_line doubles ops input_counter m line).0 ≢ overran
  unfolding handle_line
  handle_line-bounded line m h e = elim (Option-cases (buffer_after_terminator line b':')) [
    | inl f ↦ absurd (ground arith)
    | inr ((buf, rest), f) ↦ elim (Option-cases (buffer_after_terminator rest b'|')) [
      | inl g ↦ absurd (ground arith)
      | inr ((val_str, type_str), g) ↦
          let h' = rest-EndsNull line b':' (omega arith) h f in
          store_typed-bounded buf val_str type_str m (front-HasNull line b':' f)
            (front-HasNull rest b'|' g) (rest-EndsNull rest b'|' (omega arith) h' g)
            (rw (f, g, handle_line) at e)
    ]
  ]
