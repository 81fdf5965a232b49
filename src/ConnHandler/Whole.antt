-- ===== src/ConnHandler/Whole.antt =====
-- `handle_client_connect` of src/conn_handler.c on a connection's circular buffer.
use statsite.Base.{
  ℕ, ◌+◌, ◌<◌, ◌≡◌, refl, sym, List, [], ◌∷◌, Option, none, some, length, arith, ◌==◌, Bool, false,
  Bool-cases, inl, inr,
}
use statsite.Doubles.{Doubles}
use statsite.Circbuf.{CircularBuffer, circbuf_used_buf}
use statsite.Circbuf.Valid.{IsValid, used-contents}
use statsite.Circbuf.Queue.{contents}
use statsite.ConnHandler.{MetricsOps, Verdict, done}
use statsite.ConnHandler.Ascii.{handle_ascii_client_connect}
use statsite.ConnHandler.Binary.{
  binary_magic_byte, handle_binary_client_connect, handle_client_connect,
}
use statsite.ConnHandler.Inputs.{queue_input, circbuf_input, circbuf_input-Refines}
use statsite.ConnHandler.Refine.{SameResult, handle_client_connect_refines}
use statsite.ConnHandler.Loop.{command_loop_ends}
use statsite.ConnHandler.Rounds.{ascii_round-Shrinks, binary_round-Shrinks}

-- Whether the first byte chooses the binary protocol.
abbrev pub is_binary : List ℕ → Bool
is_binary [] = false
is_binary (c ∷ q) = c == binary_magic_byte

module _ {D M : Type 0} (doubles : Doubles D) (ops : MetricsOps D M)
    (input_counter : Option (List ℕ)) where
  abbrev pub on_queue : ℕ → M → List ℕ → Option (Verdict × M × List ℕ)
  on_queue fuel m q = handle_client_connect doubles ops input_counter queue_input fuel m q

  abbrev pub on_buffer : ℕ → M → CircularBuffer → Option (Verdict × M × CircularBuffer)
  on_buffer fuel m buf = handle_client_connect doubles ops input_counter circbuf_input fuel m buf

  on_queue_ends :
      (fuel : ℕ) (m : M) (q : List ℕ)
      → length q < fuel
      → (r : Verdict × M × List ℕ) × (on_queue fuel m q ≡ some r)
  unfolding handle_client_connect handle_ascii_client_connect handle_binary_client_connect
  on_queue_ends fuel m [] h = ((done, m, []), refl)
  on_queue_ends fuel m (c ∷ q) h = elim (Bool-cases (c == binary_magic_byte)) [
    | inl e ↦
        rw (e, handle_client_connect)
          (command_loop_ends _ (binary_round-Shrinks doubles ops input_counter) fuel m (c ∷ q) h)
    | inr e ↦
        rw (e, handle_client_connect)
          (command_loop_ends _ (ascii_round-Shrinks doubles ops input_counter) fuel m (c ∷ q) h)
  ]

  answers :
      (r : Option (Verdict × M × CircularBuffer)) {v : Verdict × M × List ℕ}
      → (seen : Option (Verdict × M × List ℕ)) → seen ≡ some v
      → SameResult IsValid contents r seen
      → (v : Verdict) × (m' : M) × (buf' : CircularBuffer) × (r ≡ some (v, m', buf'))
        × (seen ≡ some (v, m', contents buf'))
        × IsValid buf'
  answers none seen e (same, ok) = absurd (cc)
  answers (some (v, m', buf')) seen e (same, ok) = (v, m', buf', refl, sym same, ok)

  -- On a valid buffer handle_client_connect ends, with as many turns of its loop as the buffer
  -- holds bytes and one, and leaves a valid buffer. What it returns, what it makes of the metrics
  -- and what bytes it leaves depends on the bytes that the buffer holds only: it is what the
  -- handler does on a queue of them.
  pub handle_client_connect_lem :
      (m : M) (buf : CircularBuffer)
      → IsValid buf
      → let fuel = circbuf_used_buf buf + 1 in
        (v : Verdict) × (m' : M) × (buf' : CircularBuffer) × (on_buffer fuel m buf
          ≡ some (v, m', buf'))
        × (on_queue fuel m (contents buf) ≡ some (v, m', contents buf'))
        × IsValid buf'
  handle_client_connect_lem m buf v =
      let fuel = circbuf_used_buf buf + 1 in
      let (r, ends) = on_queue_ends fuel m (contents buf) (omega (arith, used-contents buf v)) in
      answers (on_buffer fuel m buf) _ ends (
        handle_client_connect_refines doubles ops input_counter circbuf_input IsValid contents
          circbuf_input-Refines fuel m buf v)
