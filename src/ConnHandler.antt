-- ===== src/ConnHandler.antt =====
-- src/conn_handler.c: the handlers that turn the bytes of a connection into calls of
-- src/metrics.c. What they use of the connection and of the metrics are interfaces.
pub mod Text
pub mod Ascii
pub mod Binary
pub mod Inputs
pub mod Refine
pub mod Loop
pub mod Rounds
pub mod Whole
pub mod Chunks
pub mod Bounds
pub mod Overrun
pub mod Numerals
pub mod Wire
pub mod Lines
pub mod Examples
pub use statsite.Metrics.Types.{
  MetricType, unknown, key_val, gauge, counter, timer, set, gauge_delta,
}
use statsite.Base.{ℕ, zero, suc, List, Option, none, some}

-- The calls of src/metrics.c on the metrics `M` that are current.
pub record MetricsOps (D M : Type 0) : Type 0 where
  pub metrics_add_sample : MetricType → List ℕ → D → M → M
  pub metrics_set_update : List ℕ → List ℕ → M → M

-- The calls of src/networking.c on a connection `B`; `none` is -1. A pointer that they hand out is
-- the bytes it points to.
pub record Input (B : Type 0) : Type 0 where
  pub extract_to_terminator : B → ℕ → Option (List ℕ) × B
  pub peek_client_byte : B → Option ℕ
  pub peek_client_bytes : B → ℕ → Option (List ℕ)
  pub read_client_bytes : B → ℕ → Option (List ℕ × B)

-- What a handler returns, 0 or -1. `overran`: it has read behind the end of a command.
pub data Verdict : Type 0 where
  done refused overran : Verdict

-- One turn of a handler's loop: no command is complete, which ends the loop with 0, or one was
-- handled.
pub data Round (M B : Type 0) : Type 0 where
  idle : M → B → Round M B
  ran : Verdict → M → B → Round M B

-- What follows a round: a handler goes on after a command that was done.
abbrev pub follow :
    {M B : Type 0} → (M → B → Option (Verdict × M × B)) → Round M B → Option (Verdict × M × B)
follow again (idle m b) = some (done, m, b)
follow again (ran done m b) = again m b
follow again (ran refused m b) = some (refused, m, b)
follow again (ran overran m b) = some (overran, m, b)

-- `while (1)` of a handler. `none`: the fuel ran out.
unfoldable pub command_loop :
    {M B : Type 0} → (M → B → Round M B) → (fuel : ℕ) → M → B → Option (Verdict × M × B)
command_loop round zero m b = none
command_loop round (suc fuel) m b = follow (command_loop round fuel) (round m b)

-- The commands' use of the metrics.
module _ {D M : Type 0} (ops : MetricsOps D M) where
  open ops use {metrics_add_sample, metrics_set_update}

  -- `GLOBAL_CONFIG->input_counter`, if it is set, counts an input.
  unfoldable pub count_input : D → Option (List ℕ) → M → M
  count_input one none m = m
  count_input one (some name) m = metrics_add_sample counter name one m

  unfoldable pub add_named : MetricType → Option (List ℕ) → D → M → Verdict × M
  add_named type none val m = (overran, m)
  add_named type (some key) val m = (done, metrics_add_sample type key val m)

  unfoldable pub update_set : Option (List ℕ) → Option (List ℕ) → M → Verdict × M
  update_set (some key) (some val) m = (done, metrics_set_update key val m)
  update_set _ _ m = (overran, m)

unfoldable pub round_of : {M B : Type 0} → Verdict × M → B → Round M B
round_of (v, m) b = ran v m b

-- What follows a call for a whole command: there is none yet, or it is handled.
abbrev pub read_round :
    {M B : Type 0} → (List ℕ → Verdict × M) → M → B → Option (List ℕ × B) → Round M B
read_round handle m conn none = idle m conn
read_round handle m conn (some (cmd, conn')) = round_of (handle cmd) conn'

abbrev pub line_round :
    {M B : Type 0} → (List ℕ → Verdict × M) → M → Option (List ℕ) × B → Round M B
line_round handle m (none, conn) = idle m conn
line_round handle m (some line, conn) = round_of (handle line) conn
