-- ===== src/ConnHandler/Refine.antt =====
-- A handler of src/conn_handler.c on a connection does what it does on the queue of the
-- connection's bytes.
use statsite.Base.{
  ℕ, zero, suc, ◌≡◌, refl, List, Option, none, some, Option-cases, inl, inr, ◌==◌, get_or,
  Bool-cases,
}
use statsite.Doubles.{Doubles}
use statsite.ConnHandler.{
  MetricType, unknown, key_val, gauge, counter, timer, set, gauge_delta, MetricsOps, Input, Verdict,
  done, refused, overran, Round, idle, ran, follow, command_loop, round_of, line_round, read_round,
}
use statsite.ConnHandler.Ascii.{ascii_round, handle_ascii_client_connect}
use statsite.ConnHandler.Binary.{
  typed_command, binary_type, binary_magic_byte, handle_binary_set, handle_binary_sample,
  binary_command, binary_round, handle_binary_client_connect, handle_client_connect,
}
use statsite.ConnHandler.Inputs.{queue_input, Refines, seen_line, seen_read, LeavesOk}

module _ {M B : Type 0} (IsOk : B → Type 0) (view : B → List ℕ) where
  abbrev pub seen_round : Round M B → Round M (List ℕ)
  seen_round (idle m b) = idle m (view b)
  seen_round (ran v m b) = ran v m (view b)

  abbrev pub RoundOk : Round M B → Type 0
  RoundOk (idle m b) = IsOk b
  RoundOk (ran v m b) = IsOk b

  abbrev pub seen_result : Option (Verdict × M × B) → Option (Verdict × M × List ℕ)
  seen_result none = none
  seen_result (some (v, m, b)) = some (v, m, view b)

  abbrev pub ResultOk : Option (Verdict × M × B) → Type 0
  ResultOk none = Unit
  ResultOk (some (v, m, b)) = IsOk b

  abbrev Same : Round M B → Round M (List ℕ) → Type 0
  Same r q = (seen_round r ≡ q) × RoundOk r

  abbrev pub SameResult : Option (Verdict × M × B) → Option (Verdict × M × List ℕ) → Type 0
  SameResult r q = (seen_result r ≡ q) × ResultOk r

  followed :
      (again : M → B → Option (Verdict × M × B))
      (qagain : M → List ℕ → Option (Verdict × M × List ℕ))
      → ((m : M) (b : B) → IsOk b → SameResult (again m b) (qagain m (view b)))
      → (r : Round M B) → RoundOk r
      → SameResult (follow again r) (follow qagain (seen_round r))
  followed again qagain same (idle m b) ok = (refl, ok)
  followed again qagain same (ran done m b) ok = same m b ok
  followed again qagain same (ran refused m b) ok = (refl, ok)
  followed again qagain same (ran overran m b) ok = (refl, ok)

  module _ (round : M → B → Round M B) (qround : M → List ℕ → Round M (List ℕ))
      (same : (m : M) (b : B) → IsOk b → Same (round m b) (qround m (view b))) where
    loop_refines :
        (fuel : ℕ) (m : M) (b : B)
        → IsOk b
        → SameResult (command_loop round fuel m b) (command_loop qround fuel m (view b))
    unfolding command_loop
    loop_refines zero m b ok = (refl, tt)
    loop_refines (suc fuel) m b ok =
        let (eq, ok') = same m b ok in rw (← eq) (followed _ _ (loop_refines fuel) (round m b) ok')

  -- What follows a call, by what was handed out.
  round_of_refines : (v : Verdict × M) (b : B) → IsOk b → Same (round_of v b) (round_of v (view b))
  unfolding round_of
  round_of_refines (v, m) b ok = (refl, ok)

  line_round_refines :
      (handle : List ℕ → Verdict × M) (m : M) (o : Option (List ℕ) × B)
      → IsOk o.1
      → Same (line_round handle m o) (line_round handle m (seen_line IsOk view o))
  line_round_refines handle m (none, b) ok = (refl, ok)
  line_round_refines handle m (some line, b) ok = round_of_refines (handle line) b ok

  read_round_refines :
      (handle : List ℕ → Verdict × M) (m : M) (b : B) (o : Option (List ℕ × B))
      → IsOk b
      → LeavesOk IsOk view o
      → Same (read_round handle m b o) (read_round handle m (view b) (seen_read IsOk view o))
  read_round_refines handle m b none ok leaves = (refl, ok)
  read_round_refines handle m b (some (cmd, b')) ok leaves = round_of_refines (handle cmd) b' leaves

module _ {D M B : Type 0} (doubles : Doubles D) (ops : MetricsOps D M)
    (input_counter : Option (List ℕ)) (input : Input B) (IsOk : B → Type 0) (view : B → List ℕ)
    (laws : Refines IsOk view input) where
  ascii_round_refines :
      (m : M) (b : B)
      → IsOk b
      → Same IsOk view
          (ascii_round doubles ops input_counter input m b)
          (ascii_round doubles ops input_counter queue_input m (view b))
  unfolding ascii_round
  ascii_round_refines m b ok =
      let (eq, ok') = laws.extracts b b'\n' ok in rw (← eq) (line_round_refines IsOk view _ m _ ok')

  read_refines :
      (handle : List ℕ → Verdict × M) (m : M) (b : B) (n : ℕ)
      → IsOk b
      → Same IsOk view
          (read_round handle m b (input.read_client_bytes b n))
          (read_round handle m (view b) (queue_input.read_client_bytes (view b) n))
  read_refines handle m b n ok =
      let (eq, leaves) = laws.reads b n ok in
      rw (← eq) (read_round_refines IsOk view handle m b _ ok leaves)

  typed_refines :
      (m : M) (b : B) (cmd : List ℕ) (t : Option MetricType)
      → IsOk b
      → Same IsOk view
          (typed_command doubles ops input_counter input m b cmd t)
          (typed_command doubles ops input_counter queue_input m (view b) cmd t)
  unfolding typed_command handle_binary_set handle_binary_sample
  typed_refines m b cmd none ok = (refl, ok)
  typed_refines m b cmd (some set) ok = read_refines _ m b _ ok
  typed_refines m b cmd (some unknown) ok = read_refines _ m b _ ok
  typed_refines m b cmd (some key_val) ok = read_refines _ m b _ ok
  typed_refines m b cmd (some gauge) ok = read_refines _ m b _ ok
  typed_refines m b cmd (some counter) ok = read_refines _ m b _ ok
  typed_refines m b cmd (some timer) ok = read_refines _ m b _ ok
  typed_refines m b cmd (some gauge_delta) ok = read_refines _ m b _ ok

  binary_command_refines :
      (m : M) (b : B) (cmd : List ℕ)
      → IsOk b
      → Same IsOk view
          (binary_command doubles ops input_counter input m b cmd)
          (binary_command doubles ops input_counter queue_input m (view b) cmd)
  unfolding binary_command
  binary_command_refines m b cmd ok = elim (Bool-cases (get_or cmd 0 0 == binary_magic_byte)) [
    | inl e ↦ rw e (typed_refines m b cmd (binary_type (get_or cmd 1 0)) ok)
    | inr e ↦ rw e (refl, ok)
  ]

  binary_round_refines :
      (m : M) (b : B)
      → IsOk b
      → Same IsOk view
          (binary_round doubles ops input_counter input m b)
          (binary_round doubles ops input_counter queue_input m (view b))
  unfolding binary_round
  binary_round_refines m b ok =
      rw (← laws.peeks b 6 ok, binary_round)
        (elim (Option-cases (input.peek_client_bytes b 6)) [
          | inl e ↦ rw (e, binary_round) (refl, ok)
          | inr (cmd, e) ↦ rw (e, binary_round) (binary_command_refines m b cmd ok)
        ])

  pub handle_client_connect_refines :
      (fuel : ℕ) (m : M) (b : B)
      → IsOk b
      → SameResult IsOk view
          (handle_client_connect doubles ops input_counter input fuel m b)
          (handle_client_connect doubles ops input_counter queue_input fuel m (view b))
  unfolding handle_client_connect handle_ascii_client_connect handle_binary_client_connect
  handle_client_connect_refines fuel m b ok =
      rw (← laws.peeks_byte b ok, handle_client_connect)
        (elim (Option-cases (input.peek_client_byte b)) [
          | inl e ↦ rw (e, handle_client_connect) (refl, ok)
          | inr (c, e) ↦ elim (Bool-cases (c == binary_magic_byte)) [
            | inl bin ↦
                rw (e, bin, handle_client_connect)
                  (loop_refines IsOk view _ _ binary_round_refines fuel m b ok)
            | inr text ↦
                rw (e, text, handle_client_connect)
                  (loop_refines IsOk view _ _ ascii_round_refines fuel m b ok)
          ]
        ])
