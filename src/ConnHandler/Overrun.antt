-- ===== src/ConnHandler/Overrun.antt =====
-- Which commands make the handlers of src/conn_handler.c read behind their end.
use statsite.Base.{
  ℕ, zero, suc, ◌+◌, ◌-◌, ◌≤◌, ◌<◌, ◌≡◌, ◌≢◌, ◌↔◌, inl, inr, refl, ap, ◌∙◌, List, [], ◌∷◌, Option,
  none, some, length, drop, drop_all, get_or, arith, ◌==◌, Bool-cases, Option-cases,
}
use statsite.Doubles.{Doubles}
use statsite.Circbuf.Queue.{split_line, extract-none, extract-some}
use statsite.ConnHandler.{
  MetricType, MetricsOps, Verdict, done, refused, overran, Round, idle, ran, follow, command_loop,
  round_of, add_named,
}
use statsite.ConnHandler.Text.{c_string}
use statsite.ConnHandler.Ascii.{handle_line, ascii_round, handle_ascii_client_connect}
use statsite.ConnHandler.Binary.{store_sample}
use statsite.ConnHandler.Bounds.{HasNull, EndsNull, c_string-HasNull, handle_line-bounded}
use statsite.ConnHandler.Inputs.{queue_input}

module _ {M B : Type 0} where
  abbrev Stays : Round M B → Type 0
  Stays (idle m b) = Unit
  Stays (ran v m b) = v ≢ overran

  module _ (round : M → B → Round M B) (stays : (m : M) (b : B) → Stays (round m b)) where
    follow-Stays :
        (fuel : ℕ) {m' : M} {b' : B} (t : Round M B)
        → ((m : M) (b : B) → command_loop round fuel m b ≢ some (overran, m', b'))
        → Stays t
        → follow (command_loop round fuel) t ≢ some (overran, m', b')
    follow-Stays fuel (idle m b) again s e = cc
    follow-Stays fuel (ran done m b) again s e = again m b e
    follow-Stays fuel (ran refused m b) again s e = cc
    follow-Stays fuel (ran overran m b) again s e = s refl

    command_loop-Stays :
        (fuel : ℕ) (m : M) (b : B) {m' : M} {b' : B}
        → command_loop round fuel m b ≢ some (overran, m', b')
    unfolding command_loop
    command_loop-Stays zero m b e = cc
    command_loop-Stays (suc fuel) m b e =
        follow-Stays fuel (round m b) (λ m1 b1. command_loop-Stays fuel m1 b1) (stays m b) e

  round_of-Stays : (v : Verdict × M) (b : B) → v.0 ≢ overran → Stays (round_of v b)
  unfolding round_of
  round_of-Stays (v, m) b h = h

-- A line that was taken off the queue ends with a null byte.
cons-EndsNull : (x : ℕ) (s : List ℕ) → EndsNull s → EndsNull (x ∷ s)
cons-EndsNull x [] h = absurd h
cons-EndsNull x (y ∷ s) h = h

split_line-EndsNull :
    (c : ℕ) (q : List ℕ) {line rest : List ℕ} → split_line c q ≡ some (line, rest) → EndsNull line
split_line-EndsNull c [] e = absurd (cc)
split_line-EndsNull c (x ∷ q) e = elim (Bool-cases (x == c)) [
  | inl hit ↦ ground arith
  | inr miss ↦ elim (Option-cases (split_line c q)) [
    | inl f ↦ absurd (ground arith)
    | inr ((line', rest'), f) ↦
        let ends = cons-EndsNull x line' (split_line-EndsNull c q f) in ground (arith, ends)
  ]
]

drop-null : (s : List ℕ) (n i : ℕ) → n ≤ i → i < length s → get_or s i 0 ≡ 0 → HasNull (drop n s)
drop-null [] n i le lt e = absurd (omega arith)
drop-null (x ∷ s) zero zero le lt e = inl e
drop-null (x ∷ s) zero (suc i) le lt e = inr (drop-null s zero i (omega arith) (omega arith) e)
drop-null (x ∷ s) (suc n) zero le lt e = absurd (omega arith)
drop-null (x ∷ s) (suc n) (suc i) le lt e = drop-null s n i (omega arith) (omega arith) e

c_string_nil : c_string [] ≡ none
unfolding c_string
c_string_nil = refl

module _ {D M : Type 0} (doubles : Doubles D) (ops : MetricsOps D M)
    (input_counter : Option (List ℕ)) where
  ascii_round-Stays :
      (m : M) (q : List ℕ) → Stays (ascii_round doubles ops input_counter queue_input m q)
  unfolding ascii_round
  ascii_round-Stays m q = elim (Option-cases (split_line b'\n' q)) [
    | inl e ↦ rw (extract-none b'\n' q e) tt
    | inr ((line, rest), e) ↦ rw (extract-some b'\n' q line rest e) (
        round_of-Stays (handle_line doubles ops input_counter m line) rest
          (handle_line-bounded doubles ops input_counter line m (split_line-EndsNull b'\n' q e)))
  ]

  -- Whatever bytes come, the text handler reads no byte behind the end of a line.
  pub handle_ascii_client_connect_stays :
      (fuel : ℕ) (m : M) (q : List ℕ) {m' : M} {q' : List ℕ}
      → handle_ascii_client_connect doubles ops input_counter queue_input fuel m q
        ≢ some (overran, m', q')
  unfolding handle_ascii_client_connect
  handle_ascii_client_connect_stays fuel m q =
      command_loop-Stays (ascii_round doubles ops input_counter queue_input) ascii_round-Stays fuel
        m q

  -- A binary sample that has come as a whole, its last byte null, is read behind its end exactly
  -- when its key has no bytes.
  pub store_sample_overruns :
      (type : MetricType) (key_len : ℕ) (m : M) (cmd : List ℕ)
      → length cmd ≡ 12 + key_len
      → get_or cmd (12 + key_len - 1) 0 ≡ 0
      → ((store_sample doubles ops input_counter type key_len m cmd).0 ≡ overran) ↔ (key_len ≡ 0)
  unfolding store_sample add_named
  store_sample_overruns type zero m cmd size null =
      let none_left : c_string (drop 12 cmd) ≡ none =
        ap c_string (drop_all 12 cmd (omega arith)) ∙ c_string_nil in
      rw (null, none_left, store_sample) (λ _. refl, λ _. refl)
  store_sample_overruns type (suc k) m cmd size null =
      let (key, e) =
        c_string-HasNull (drop 12 cmd)
          (drop-null cmd 12 (12 + suc k - 1) (omega arith) (omega arith) null) in
      rw (null, e, store_sample) (λ f. absurd (cc), λ f. absurd (omega arith))
