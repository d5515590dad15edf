-- ===== src/Server/Routine/Tick/Invariant.antt =====
-- The invariant of a file routine between two ticks of `RoutineTick`.
use newth.Prelude.{◌≡◌, ◌⊎◌, Bool, true, false, Option, none, some, [], Bytes}
use newth.Platform.Socket.{Net}
use newth.Server.SendBuffer.{SendBuffer, soc_buf_err_fail}
use newth.Server.SendBuffer.Order.{pending}
use newth.Server.Routine.{type_routine_file, RoutineState, Routine}
use newth.Server.Routine.Window.{window, IsValidRoutine, delivery}
use newth.Server.Routine.Tick.{Stepped, in_phase}

abbrev pub continuing_file : RoutineState
continuing_file = record (in_phase type_routine_file false false false) { state_continue = true }

abbrev pub deferring_file : RoutineState
deferring_file = in_phase type_routine_file true false false

abbrev pub flushing_file : RoutineState
flushing_file = record (in_phase type_routine_file false false false) { state_flush = true }

abbrev pub finishing_file : RoutineState
finishing_file = in_phase type_routine_file false true false

abbrev pub failing_file : RoutineState
failing_file = in_phase type_routine_file false false true

-- Only a failed socket leaves a flag on the send buffer.
abbrev pub KnownOptions : SendBuffer → Type 0
KnownOptions buffer = (buffer.options ≡ 0) ⊎ (buffer.options ≡ soc_buf_err_fail)

abbrev pub Carries : Bytes → Routine → Net → Type 0
Carries total self net =
    IsValidRoutine self × (delivery self net ≡ total) × KnownOptions self.socket_buffer

-- A routine that is about to finish has nothing left to send.
abbrev pub Placed : Routine → Type 0
Placed self =
    (self.state ≡ continuing_file)
    ⊎ (self.state ≡ deferring_file)
    ⊎ (self.state ≡ flushing_file)
    ⊎ ((self.state ≡ finishing_file) × (window self ≡ []) × (pending self.socket_buffer ≡ []))
    ⊎ (self.state ≡ failing_file)

-- The invariant of a file routine between two ticks: `total` is all that is to be on the wire.
abbrev pub Serves : Bytes → Routine → Net → Type 0
Serves total self net = Carries total self net × Placed self

abbrev pub Keeps : Bytes → Option Routine → Bool → Net → Type 0
Keeps total none had_failed net = (had_failed ≡ true) ⊎ (net.wire ≡ total)
Keeps total (some self) had_failed net = Serves total self net

-- A routine that is deleted has failed or has sent everything.
unfoldable pub KeepsStep : {D : Type 0} → Bytes → Stepped D → Type 0
KeepsStep total st = Keeps total st.kept st.had_failed st.net

-- A tick does not fail.
abbrev pub Outcome : {D : Type 0} → Bytes → Option (Stepped D) → Type 0
Outcome total none = ⊥
Outcome total (some st) = KeepsStep total st
