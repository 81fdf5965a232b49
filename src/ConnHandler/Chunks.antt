-- ===== src/ConnHandler/Chunks.antt =====
-- How src/conn_handler.c handles bytes that come in pieces, and what it leaves.
use statsite.Base.{
  ℕ, ◌+◌, ◌≡◌, refl, sym, ap, ◌∙◌, List, [], ◌∷◌, ◌++◌, Option, none, some, arith, ◌==◌, ◌≢◌, Bool,
  true, false, Bool-cases, Option-cases, inl, inr, append-nil,
}
use statsite.Doubles.{Doubles}
use statsite.Circbuf.Queue.{split_line, extract-some}
use statsite.ConnHandler.{MetricsOps, Verdict, done, Round, idle, round_of, command_loop}
use statsite.ConnHandler.Ascii.{handle_line, ascii_round, handle_ascii_client_connect}
use statsite.ConnHandler.Binary.{
  binary_magic_byte, binary_round, handle_binary_client_connect, handle_client_connect,
}
use statsite.ConnHandler.Inputs.{queue_input}
use statsite.ConnHandler.Loop.{Extends, command_loop_more, command_loop_append, command_loop_drains}
use statsite.ConnHandler.Rounds.{ascii_round-Extends, binary_round-Extends}
use statsite.ConnHandler.Whole.{is_binary, on_queue}

nil-append : (xs ys : List ℕ) → [] ≡ xs ++ ys → (xs ≡ []) × (ys ≡ [])
nil-append [] ys e = (refl, sym e)
nil-append (x ∷ xs) ys e = absurd (cc)

module _ {D M : Type 0} (doubles : Doubles D) (ops : MetricsOps D M)
    (input_counter : Option (List ℕ)) where
  -- The handler that the first byte chooses.
  chosen : Bool → M → List ℕ → Round M (List ℕ)
  chosen true = binary_round doubles ops input_counter queue_input
  chosen false = ascii_round doubles ops input_counter queue_input

  on_queue_cons :
      (fuel : ℕ) (m : M) (c : ℕ) (q : List ℕ)
      → on_queue doubles ops input_counter fuel m (c ∷ q)
        ≡ command_loop (chosen (is_binary (c ∷ q))) fuel m (c ∷ q)
  unfolding handle_client_connect handle_ascii_client_connect handle_binary_client_connect chosen
  on_queue_cons fuel m c q = elim (Bool-cases (c == binary_magic_byte)) [
    | inl e ↦ rw (e, handle_client_connect) refl
    | inr e ↦ rw (e, handle_client_connect) refl
  ]

  chosen-Extends :
      (b : Bool) (more : List ℕ) (m : M) (q : List ℕ)
      → Extends m q more (chosen b m q) (chosen b m (q ++ more))
  unfolding chosen
  chosen-Extends true more m q = binary_round-Extends doubles ops input_counter more m q
  chosen-Extends false more m q = ascii_round-Extends doubles ops input_counter more m q

  on_queue_nil :
      (fuel : ℕ) (m : M) → on_queue doubles ops input_counter fuel m [] ≡ some (done, m, [])
  unfolding handle_client_connect
  on_queue_nil fuel m = refl

  on_queue_more :
      (fuel more : ℕ) (m : M) (q : List ℕ) {r : Verdict × M × List ℕ}
      → on_queue doubles ops input_counter fuel m q ≡ some r
      → on_queue doubles ops input_counter (fuel + more) m q ≡ some r
  on_queue_more fuel more m [] e = on_queue_nil (fuel + more) m ∙ sym (on_queue_nil fuel m) ∙ e
  on_queue_more fuel more m (c ∷ q) e =
      on_queue_cons (fuel + more) m c q
      ∙ command_loop_more (chosen (is_binary (c ∷ q))) fuel more m (c ∷ q)
          (sym (on_queue_cons fuel m c q) ∙ e)

  -- The second call, when bytes are left or have come.
  append_rest :
      (fuel fuel' : ℕ) (m : M) (c : ℕ) (q more l : List ℕ) {m' : M} {q' : List ℕ}
      {r : Verdict × M × List ℕ}
      → l ≡ q' ++ more
      → is_binary l ≡ is_binary (c ∷ q)
      → on_queue doubles ops input_counter fuel m (c ∷ q) ≡ some (done, m', q')
      → on_queue doubles ops input_counter fuel' m' l ≡ some r
      → on_queue doubles ops input_counter (fuel + fuel') m (c ∷ (q ++ more)) ≡ some r
  append_rest fuel fuel' m c q more [] {m'} {q'} {r} split same e f =
      let (no_rest, no_more) = nil-append q' more split in
      let last = sym (on_queue_nil fuel' m') ∙ f in
      let whole = on_queue_more fuel fuel' m (c ∷ q) e in
      rw (no_more, append-nil q) (whole ∙ ap (λ l. some (done, m', l)) no_rest ∙ last)
  append_rest fuel fuel' m c q more (d ∷ l) {m'} {q'} split same e f =
      let second = sym (on_queue_cons fuel' m' d l) ∙ f in
      on_queue_cons (fuel + fuel') m c (q ++ more)
      ∙ command_loop_append (chosen (is_binary (c ∷ q))) more
          (chosen-Extends (is_binary (c ∷ q)) more) fuel fuel' m (c ∷ q)
          (sym (on_queue_cons fuel m c q) ∙ e) (rw (← split, ← same) second)

  -- When handle_client_connect returns 0 for the bytes that have come, and then ends on what it
  -- left and further bytes, it ends in the same way on all of them at once, if the first byte it
  -- then sees chooses the same protocol.
  pub handle_client_connect_append :
      (fuel fuel' : ℕ) (m : M) (q more : List ℕ) {m' : M} {q' : List ℕ} {r : Verdict × M × List ℕ}
      → is_binary (q' ++ more) ≡ is_binary q
      → on_queue doubles ops input_counter fuel m q ≡ some (done, m', q')
      → on_queue doubles ops input_counter fuel' m' (q' ++ more) ≡ some r
      → on_queue doubles ops input_counter (fuel + fuel') m (q ++ more) ≡ some r
  handle_client_connect_append fuel fuel' m [] more {m'} {q'} {r} same e f =
      let first_end = sym (on_queue_nil fuel m) ∙ e in
      let em : m ≡ m' = cc in
      let eq : [] ≡ q' = cc in
      let swap : fuel' + fuel ≡ fuel + fuel' = omega arith in
      rw swap at (on_queue_more fuel' fuel m more (rw (← em, ← eq) at f))
  handle_client_connect_append fuel fuel' m (c ∷ q) more {q' = q'} same e f =
      append_rest fuel fuel' m c q more (q' ++ more) refl same e f

  round_of-ran : (v : Verdict × M) (q q' : List ℕ) {m : M} → round_of v q ≢ idle m q'
  unfolding round_of
  round_of-ran (v, m') q q' e = cc

  -- When the text handler returns 0 there is no complete line left.
  pub handle_ascii_client_connect_drains :
      (fuel : ℕ) (m : M) (q : List ℕ) {m' : M} {q' : List ℕ}
      → handle_ascii_client_connect doubles ops input_counter queue_input fuel m q
        ≡ some (done, m', q')
      → split_line b'\n' q' ≡ none
  unfolding handle_ascii_client_connect ascii_round
  handle_ascii_client_connect_drains fuel m q {m'} {q'} e =
      let stops =
        command_loop_drains (ascii_round doubles ops input_counter queue_input) []
          (ascii_round-Extends doubles ops input_counter []) fuel m q e in
      elim (Option-cases (split_line b'\n' q')) [
        | inl none_left ↦ none_left
        | inr ((line, rest), found) ↦ absurd (
            round_of-ran (handle_line doubles ops input_counter m' line) rest q'
              (rw (extract-some b'\n' q' line rest found) at stops))
      ]
