-- ===== src/ConnHandler/Binary.antt =====
-- The binary protocol of src/conn_handler.c, and the choice between the two protocols.
use statsite.Base.{
  ℕ, ◌+◌, ◌-◌, ◌*◌, List, Option, none, some, not, ◌==◌, if◌then◌else◌, get_or, take, drop,
}
use statsite.Doubles.{Doubles}
use statsite.ConnHandler.{
  MetricType, key_val, gauge, counter, timer, set, gauge_delta, MetricsOps, Input, Verdict, done,
  refused, Round, idle, ran, command_loop, count_input, add_named, update_set, read_round,
}
use statsite.ConnHandler.Text.{c_string}
use statsite.ConnHandler.Ascii.{handle_ascii_client_connect}

abbrev pub binary_magic_byte : ℕ
binary_magic_byte = 170

abbrev pub max_binary_header_size : ℕ
max_binary_header_size = 12

abbrev pub min_binary_header_size : ℕ
min_binary_header_size = 6

-- `*(uint16_t*)(cmd + i)`, on a little-endian machine.
abbrev pub u16_at : List ℕ → ℕ → ℕ
u16_at cmd i = get_or cmd i 0 + 256 * get_or cmd (i + 1) 0

-- `switch (cmd[1])`
unfoldable pub binary_type : ℕ → Option MetricType
binary_type t =
    if t == 1
    then some key_val
    else (if t == 2
        then some counter
        else (if t == 3
            then some timer
            else (if t == 4
                then some set
                else (if t == 5 then some gauge else (if t == 6 then some gauge_delta else none)))))

module _ {D M : Type 0} (doubles : Doubles D) (ops : MetricsOps D M)
    (input_counter : Option (List ℕ)) where
  open doubles use {of_nat, of_bytes}

  -- A sample with a key of `key_len` bytes, once it is there as a whole.
  unfoldable pub store_sample : MetricType → ℕ → M → List ℕ → Verdict × M
  store_sample type key_len m cmd =
      if not (get_or cmd (max_binary_header_size + key_len - 1) 0 == 0)
      then (refused, m)
      else add_named ops type (c_string (drop max_binary_header_size cmd))
          (of_bytes (take 8 (drop 4 cmd))) (count_input ops (of_nat 1) input_counter m)

  -- A set command with a key and a value of these lengths, once it is there as a whole.
  unfoldable pub store_set : ℕ → ℕ → M → List ℕ → Verdict × M
  store_set key_len set_len m cmd =
      if not (get_or cmd (min_binary_header_size + key_len - 1) 0 == 0)
      then (refused, m)
      else (if not (get_or cmd (min_binary_header_size + (key_len + set_len) - 1) 0 == 0)
          then (refused, m)
          else update_set ops (c_string (drop min_binary_header_size cmd))
              (c_string (drop (min_binary_header_size + key_len) cmd))
              (count_input ops (of_nat 1) input_counter m))

  module _ {B : Type 0} (input : Input B) where
    open input use {peek_client_byte, peek_client_bytes, read_client_bytes}

    unfoldable pub handle_binary_set : M → B → List ℕ → Round M B
    handle_binary_set m conn header =
        read_round (store_set (u16_at header 2) (u16_at header 4) m) m conn
          (read_client_bytes conn (min_binary_header_size + (u16_at header 2 + u16_at header 4)))

    unfoldable pub handle_binary_sample : MetricType → M → B → List ℕ → Round M B
    handle_binary_sample type m conn header =
        read_round (store_sample type (u16_at header 2) m) m conn
          (read_client_bytes conn (max_binary_header_size + u16_at header 2))

    -- What the type of the command asks for.
    unfoldable pub typed_command : M → B → List ℕ → Option MetricType → Round M B
    typed_command m conn cmd none = ran refused m conn
    typed_command m conn cmd (some set) = handle_binary_set m conn cmd
    typed_command m conn cmd (some type) = handle_binary_sample type m conn cmd

    unfoldable pub binary_command : M → B → List ℕ → Round M B
    binary_command m conn cmd =
        if not (get_or cmd 0 0 == binary_magic_byte)
        then ran refused m conn
        else typed_command m conn cmd (binary_type (get_or cmd 1 0))

    unfoldable pub binary_round : M → B → Round M B
    binary_round m conn = elim (peek_client_bytes conn min_binary_header_size) [
      | none ↦ idle m conn
      | some cmd ↦ binary_command m conn cmd
    ]

    unfoldable pub handle_binary_client_connect : (fuel : ℕ) → M → B → Option (Verdict × M × B)
    handle_binary_client_connect fuel m conn = command_loop binary_round fuel m conn

    unfoldable pub handle_client_connect : (fuel : ℕ) → M → B → Option (Verdict × M × B)
    handle_client_connect fuel m conn = elim (peek_client_byte conn) [
      | none ↦ some (done, m, conn)
      | some magic ↦
          if magic == binary_magic_byte
          then handle_binary_client_connect fuel m conn
          else handle_ascii_client_connect doubles ops input_counter input fuel m conn
    ]
