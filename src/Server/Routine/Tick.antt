-- ===== src/Server/Routine/Tick.antt =====
-- One step of the state machine in `RoutineTick` of src/server/routine.c, for each of the three types
-- of routine. The sockets that wait are kept by src/server/mltiplex, whose three calls are a record
-- of operations on a state `D`.
pub mod Invariant
pub mod Cases
pub mod Serving
pub mod Runs
pub mod Rounds
pub mod Turns
mod RoundTests
mod Tests
use newth.Prelude.{
  ℕ, Bool, true, false, not, ◌&&◌, ◌||◌, Option, none, some, ltb, ◌==◌, if◌then◌else◌, bit_and,
}
use newth.Platform.Stream.{Stream, platform_memory_stream_tell}
use newth.Platform.Socket.{Net}
use newth.Server.SendBuffer.{SendBuffer, soc_buf_err_full, soc_buf_err_fail, send_buffer_flush}
use newth.Server.Http.Writer.{Connection}
use newth.Server.Routine.Directory.{directory_routine_continue}
use newth.Server.Routine.{
  RoutineKind, type_routine, type_routine_dir, type_routine_file, RoutineState, Routine,
  file_routine_continue,
}

pub record Multiplex (D : Type 0) : Type 0 where
  pub server_deferred_socket_add : ℕ → D → D
  pub server_deferred_socket_remove : ℕ → D → D
  pub server_deferred_socket_exists : ℕ → D → Bool

-- The state bit that is set, where just one is: the cases of the switch.
pub data Phase : Type 0 where
  continuing deferring flushing finishing failing unlisted : Phase

abbrev pub one_of : Bool → Bool → Bool → Bool → Bool → Phase
one_of true false false false false = continuing
one_of false true false false false = deferring
one_of false false true false false = flushing
one_of false false false true false = finishing
one_of false false false false true = failing
one_of _ _ _ _ _ = unlisted

abbrev pub phase : RoutineState → Phase
phase s = one_of s.state_continue s.state_defer s.state_flush s.state_finish s.state_fail

-- `STATE_DEFER | TYPE_ROUTINE_FILE` and its like
abbrev pub in_phase : RoutineKind → Bool → Bool → Bool → RoutineState
in_phase kind defer finish fail = record {
  kind = kind;
  state_continue = false;
  state_defer = defer;
  state_flush = false;
  state_finish = finish;
  state_fail = fail;
}

-- `options & flag`
abbrev pub has_option : SendBuffer → ℕ → Bool
has_option buffer flag = not (bit_and buffer.options flag == 0)

abbrev pub is_some : Option Stream → Bool
is_some none = false
is_some (some s) = true

-- What a step leaves: the routine, or `none` where it is deleted, and whether it had failed then.
pub record Stepped (D : Type 0) : Type 0 where
  pub kept : Option Routine
  pub had_failed : Bool
  pub net : Net
  pub deferred : D

module _ {D : Type 0} (multiplex : Multiplex D) (sb_data_size : ℕ) where
  abbrev pub keep : Routine → Net → D → Stepped D
  keep self net d = record { kept = some self; had_failed = false; net = net; deferred = d }

  -- The cases `STATE_FINISH` and `STATE_FAIL`
  unfoldable pub finish_step : Routine → Net → D → Stepped D
  finish_step self net d = record {
    kept = none;
    had_failed = self.state.state_fail;
    net = net;
    deferred = multiplex.server_deferred_socket_remove self.socket_buffer.client_socket d;
  }

  -- The case `STATE_DEFER` after the flush
  unfoldable pub after_defer_flush : Routine → ℕ × SendBuffer × Net → D → Stepped D
  after_defer_flush self (sent, buffer, net) d =
      let flushed = record self { socket_buffer = buffer } in
      if sent == 0 || has_option buffer soc_buf_err_fail
      then keep
          (record flushed { state = record self.state { state_fail = true; state_defer = false } })
          net d
      else if has_option buffer soc_buf_err_full
      then keep flushed net d
      else keep
          (record flushed { state = record self.state { state_flush = true; state_defer = false } })
          net d

  -- The case `STATE_DEFER`
  unfoldable pub defer_step : Routine → Net → D → Stepped D
  unfolding after_defer_flush
  defer_step self net d =
      if multiplex.server_deferred_socket_exists self.socket_buffer.client_socket d
      then keep self net d
      else if has_option self.socket_buffer soc_buf_err_fail
      then keep
          (record self { state = record self.state { state_fail = true; state_defer = false } }) net
          d
      else after_defer_flush self (send_buffer_flush sb_data_size self.socket_buffer net) d

  -- The case `STATE_FLUSH` after the flush
  unfoldable pub after_flush : Routine → ℕ × SendBuffer × Net → D → Stepped D
  after_flush self (sent, buffer, net) d =
      let flushed = record self { socket_buffer = buffer } in
      if sent == 0 && has_option buffer soc_buf_err_fail
      then keep
          (record flushed { state = record self.state { state_fail = true; state_flush = false } })
          net d
      else keep flushed net d

  -- The case `STATE_FLUSH`
  unfoldable pub flush_step : Routine → Net → D → Stepped D
  unfolding after_flush
  flush_step self net d =
      if is_some self.socket_buffer.buffer
      then after_flush self (send_buffer_flush sb_data_size self.socket_buffer net) d
      else keep
          (record self { state = record self.state { state_continue = true; state_flush = false } })
          net d

  -- `serverDeferredSocketAdd` and `STATE_DEFER | TYPE_ROUTINE_FILE`
  abbrev pub defer_file : Routine → Net → D → Stepped D
  defer_file self net d =
      keep (record self { state = in_phase type_routine_file true false false }) net
        (multiplex.server_deferred_socket_add self.socket_buffer.client_socket d)

  abbrev pub is_long : ℕ → Option Stream → Bool
  is_long limit none = false
  is_long limit (some s) = ltb limit (platform_memory_stream_tell s)

  -- The case `STATE_CONTINUE | TYPE_ROUTINE_FILE` after `FileRoutineContinue`. A failed routine falls
  -- through to the case `STATE_FAIL`.
  unfoldable pub after_file_continue : ℕ × Routine × Net → D → Stepped D
  unfolding finish_step platform_memory_stream_tell
  after_file_continue (n, self, net) d =
      if not (n == 0) || has_option self.socket_buffer soc_buf_err_full
      then (if is_long sb_data_size self.socket_buffer.buffer
          then defer_file self net d
          else keep self net d)
      else if has_option self.socket_buffer soc_buf_err_fail
      then finish_step (record self { state = in_phase type_routine_file false false true }) net d
      else if is_some self.socket_buffer.buffer
      then defer_file self net d
      else keep (record self { state = in_phase type_routine_file false true false }) net d

  abbrev connection : Routine → Net → Connection
  connection self net = record { socket_buffer = self.socket_buffer; net = net }

  -- The case `STATE_CONTINUE | TYPE_ROUTINE_DIR` after `DirectoryRoutineContinue`
  unfoldable pub after_dir_continue : ℕ → Routine → Net → D → Stepped D
  unfolding finish_step
  after_dir_continue n self net d = if n == 0 then finish_step self net d else keep self net d

  -- The case `STATE_CONTINUE`, by the routine's type
  unfoldable pub continue_step : RoutineKind → Routine → Net → D → Option (Stepped D)
  unfolding after_file_continue after_dir_continue
  continue_step type_routine self net d = some (
      keep
        (record self { state = record self.state { state_finish = true; state_continue = false } })
        net d)
  continue_step type_routine_file self net d = elim (file_routine_continue sb_data_size self net) [
    | none ↦ none
    | some r ↦ some (after_file_continue r d)
  ]
  continue_step type_routine_dir self net d =
      elim (directory_routine_continue sb_data_size self.web_path self.of_dir
        (connection self net)) [
          | none ↦ none
          | some ((n, dir), c) ↦ some (
              after_dir_continue n (record self { socket_buffer = c.socket_buffer; of_dir = dir })
                c.net d)
        ]

  -- The switch of `RoutineTick`; a state that is no case of it stays as it is.
  unfoldable pub phase_step : Phase → Routine → Net → D → Option (Stepped D)
  unfolding continue_step defer_step flush_step finish_step
  phase_step continuing self net d = continue_step self.state.kind self net d
  phase_step deferring self net d = some (defer_step self net d)
  phase_step flushing self net d = some (flush_step self net d)
  phase_step finishing self net d = some (finish_step self net d)
  phase_step failing self net d = some (finish_step self net d)
  phase_step unlisted self net d = some (keep self net d)

  unfoldable pub routine_step : Routine → Net → D → Option (Stepped D)
  unfolding phase_step
  routine_step self net d = phase_step (phase self.state) self net d
