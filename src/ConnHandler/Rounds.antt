-- ===== src/ConnHandler/Rounds.antt =====
-- One command of src/conn_handler.c on a queue of bytes: it takes bytes off the queue, and does not
-- depend on what comes behind it.
use statsite.Base.{
  false, ℕ, ◌<◌, ◌≡◌, refl, List, [], ◌∷◌, ◌++◌, Option, none, some, length, length-append,
  length-drop, take, drop, take-append, drop-append, arith, Bool-cases, Option-cases, inl, inr, ltb,
  ltb_false→le, le→ltb_false, ◌==◌, get_or,
}
use statsite.Doubles.{Doubles}
use statsite.Circbuf.Queue.{split_line, extract, extract-none, extract-some}
use statsite.ConnHandler.{
  MetricType, unknown, key_val, gauge, counter, timer, set, gauge_delta, MetricsOps, Verdict, done,
  refused, overran, Round, round_of, line_round, read_round,
}
use statsite.ConnHandler.Ascii.{handle_line, ascii_round}
use statsite.ConnHandler.Binary.{
  binary_magic_byte, binary_type, handle_binary_set, handle_binary_sample, typed_command,
  binary_command, binary_round,
}
use statsite.ConnHandler.Inputs.{queue_input}
use statsite.ConnHandler.Loop.{Shrinks, Extends}

split_line-shorter :
    (c : ℕ) (q : List ℕ) {line rest : List ℕ}
    → split_line c q ≡ some (line, rest)
    → length rest < length q
split_line-shorter c [] e = absurd (cc)
split_line-shorter c (x ∷ q) e = elim (Bool-cases (x == c)) [
  | inl hit ↦ ground arith
  | inr miss ↦ elim (Option-cases (split_line c q)) [
    | inl f ↦ absurd (ground arith)
    | inr ((line', rest'), f) ↦ ground (arith, split_line-shorter c q f)
  ]
]

split_line-append :
    (c : ℕ) (q more : List ℕ) {line rest : List ℕ}
    → split_line c q ≡ some (line, rest)
    → split_line c (q ++ more) ≡ some (line, rest ++ more)
split_line-append c [] more e = absurd (cc)
split_line-append c (x ∷ q) more e = elim (Bool-cases (x == c)) [
  | inl hit ↦ ground arith
  | inr miss ↦ elim (Option-cases (split_line c q)) [
    | inl f ↦ absurd (ground arith)
    | inr ((line', rest'), f) ↦ ground (arith, split_line-append c q more f)
  ]
]

module _ {M : Type 0} (handle : List ℕ → Verdict × M) (m : M) where
  round_of-Shrinks :
      (v : Verdict × M) (q q' : List ℕ) → length q' < length q → Shrinks q (round_of v q')
  unfolding round_of
  round_of-Shrinks (done, m') q q' h = h
  round_of-Shrinks (refused, m') q q' h = tt
  round_of-Shrinks (overran, m') q q' h = tt

  round_of-Extends :
      (v : Verdict × M) (q q' more : List ℕ)
      → Extends m q more (round_of v q') (round_of v (q' ++ more))
  unfolding round_of
  round_of-Extends (done, m') q q' more = refl
  round_of-Extends (refused, m') q q' more = tt
  round_of-Extends (overran, m') q q' more = tt

  line_round-Shrinks : (c : ℕ) (q : List ℕ) → Shrinks q (line_round handle m (extract c q))
  line_round-Shrinks c q = elim (Option-cases (split_line c q)) [
    | inl e ↦ rw (extract-none c q e) tt
    | inr ((line, rest), e) ↦
        rw (extract-some c q line rest e)
          (round_of-Shrinks (handle line) q rest (split_line-shorter c q e))
  ]

  line_round-Extends :
      (c : ℕ) (q more : List ℕ)
      → Extends m q more
          (line_round handle m (extract c q))
          (line_round handle m (extract c (q ++ more)))
  line_round-Extends c q more = elim (Option-cases (split_line c q)) [
    | inl e ↦ rw (extract-none c q e) (refl, refl)
    | inr ((line, rest), e) ↦
        rw
          (
            extract-some c q line rest e,
            extract-some c (q ++ more) line (rest ++ more) (split_line-append c q more e),
          )
          (round_of-Extends (handle line) q rest more)
  ]

  abbrev read : List ℕ → ℕ → Round M (List ℕ)
  read q n = read_round handle m q (queue_input.read_client_bytes q n)

  read-Shrinks : (q : List ℕ) (n : ℕ) → 0 < n → Shrinks q (read q n)
  read-Shrinks q n h = elim (Bool-cases (ltb (length q) n)) [
    | inl few ↦ rw few tt
    | inr enough ↦ rw enough (
        round_of-Shrinks (handle (take n q)) q (drop n q)
          (omega (arith, length-drop n q, ltb_false→le _ _ enough)))
  ]

  read-Extends : (q more : List ℕ) (n : ℕ) → Extends m q more (read q n) (read (q ++ more) n)
  read-Extends q more n = elim (Bool-cases (ltb (length q) n)) [
    | inl few ↦ rw few (refl, refl)
    | inr enough ↦
        let le = ltb_false→le _ _ enough in
        let enough' : ltb (length (q ++ more)) n ≡ false =
          le→ltb_false _ _ (omega (arith, length-append q more)) in
        rw (enough, enough', take-append n q more le, drop-append n q more le)
          (round_of-Extends (handle (take n q)) q (drop n q) more)
  ]

module _ {D M : Type 0} (doubles : Doubles D) (ops : MetricsOps D M)
    (input_counter : Option (List ℕ)) where
  abbrev ascii : M → List ℕ → Round M (List ℕ)
  ascii m q = ascii_round doubles ops input_counter queue_input m q

  abbrev binary : M → List ℕ → Round M (List ℕ)
  binary m q = binary_round doubles ops input_counter queue_input m q

  pub ascii_round-Shrinks : (m : M) (q : List ℕ) → Shrinks q (ascii m q)
  unfolding ascii_round
  ascii_round-Shrinks m q = line_round-Shrinks (handle_line doubles ops input_counter m) m b'\n' q

  pub ascii_round-Extends :
      (more : List ℕ) (m : M) (q : List ℕ) → Extends m q more (ascii m q) (ascii m (q ++ more))
  unfolding ascii_round
  ascii_round-Extends more m q =
      line_round-Extends (handle_line doubles ops input_counter m) m b'\n' q more

  typed-Shrinks :
      (m : M) (q cmd : List ℕ) (t : Option MetricType)
      → Shrinks q (typed_command doubles ops input_counter queue_input m q cmd t)
  unfolding typed_command handle_binary_set handle_binary_sample
  typed-Shrinks m q cmd none = tt
  typed-Shrinks m q cmd (some set) = read-Shrinks _ m q _ (omega arith)
  typed-Shrinks m q cmd (some unknown) = read-Shrinks _ m q _ (omega arith)
  typed-Shrinks m q cmd (some key_val) = read-Shrinks _ m q _ (omega arith)
  typed-Shrinks m q cmd (some gauge) = read-Shrinks _ m q _ (omega arith)
  typed-Shrinks m q cmd (some counter) = read-Shrinks _ m q _ (omega arith)
  typed-Shrinks m q cmd (some timer) = read-Shrinks _ m q _ (omega arith)
  typed-Shrinks m q cmd (some gauge_delta) = read-Shrinks _ m q _ (omega arith)

  typed-Extends :
      (m : M) (q more cmd : List ℕ) (t : Option MetricType)
      → Extends m q more
          (typed_command doubles ops input_counter queue_input m q cmd t)
          (typed_command doubles ops input_counter queue_input m (q ++ more) cmd t)
  unfolding typed_command handle_binary_set handle_binary_sample
  typed-Extends m q more cmd none = tt
  typed-Extends m q more cmd (some set) = read-Extends _ m q more _
  typed-Extends m q more cmd (some unknown) = read-Extends _ m q more _
  typed-Extends m q more cmd (some key_val) = read-Extends _ m q more _
  typed-Extends m q more cmd (some gauge) = read-Extends _ m q more _
  typed-Extends m q more cmd (some counter) = read-Extends _ m q more _
  typed-Extends m q more cmd (some timer) = read-Extends _ m q more _
  typed-Extends m q more cmd (some gauge_delta) = read-Extends _ m q more _

  command-Shrinks :
      (m : M) (q cmd : List ℕ)
      → Shrinks q (binary_command doubles ops input_counter queue_input m q cmd)
  unfolding binary_command
  command-Shrinks m q cmd = elim (Bool-cases (get_or cmd 0 0 == binary_magic_byte)) [
    | inl e ↦ rw e (typed-Shrinks m q cmd (binary_type (get_or cmd 1 0)))
    | inr e ↦ rw e tt
  ]

  command-Extends :
      (m : M) (q more cmd : List ℕ)
      → Extends m q more
          (binary_command doubles ops input_counter queue_input m q cmd)
          (binary_command doubles ops input_counter queue_input m (q ++ more) cmd)
  unfolding binary_command
  command-Extends m q more cmd = elim (Bool-cases (get_or cmd 0 0 == binary_magic_byte)) [
    | inl e ↦ rw e (typed-Extends m q more cmd (binary_type (get_or cmd 1 0)))
    | inr e ↦ rw e tt
  ]

  pub binary_round-Shrinks : (m : M) (q : List ℕ) → Shrinks q (binary m q)
  unfolding binary_round
  binary_round-Shrinks m q = elim (Bool-cases (ltb (length q) 6)) [
    | inl few ↦ rw (few, binary_round) tt
    | inr enough ↦ rw (enough, binary_round) (command-Shrinks m q (take 6 q))
  ]

  pub binary_round-Extends :
      (more : List ℕ) (m : M) (q : List ℕ) → Extends m q more (binary m q) (binary m (q ++ more))
  unfolding binary_round
  binary_round-Extends more m q = elim (Bool-cases (ltb (length q) 6)) [
    | inl few ↦ rw (few, binary_round) (refl, refl)
    | inr enough ↦
        let le = ltb_false→le _ _ enough in
        let enough' : ltb (length (q ++ more)) 6 ≡ false =
          le→ltb_false _ _ (omega (arith, length-append q more)) in
        rw (enough, enough', take-append 6 q more le, binary_round)
          (command-Extends m q more (take 6 q))
  ]
