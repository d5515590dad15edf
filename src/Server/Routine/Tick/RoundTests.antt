-- ===== src/Server/Routine/Tick/RoundTests.antt =====
-- Runs of the loop of `RoutineTick`.
use newth.Prelude.{
  ℕ, ◌≡◌, refl, Bool, true, false, Option, none, some, List, [], ◌∷◌, length, map, codes,
}
use newth.Platform.Stream.{Stream, platform_memory_stream_seek}
use newth.Server.SendBuffer.{send_buffer_new}
use newth.Server.Routine.{file_routine_new}
use newth.Server.Routine.Tick.{Multiplex, finish_step, flush_step, phase_step, routine_step}
use newth.Server.Routine.Tick.Invariant.{failing_file}
use newth.Server.Routine.Tick.Rounds.{Entry, Ticked, routine_tick}
use newth.Server.Routine.Tick.Turns.{ticked, turns, routine_tick-turns}

abbrev no_waiting : Multiplex Unit
no_waiting = record {
  server_deferred_socket_add = λ s d. d;
  server_deferred_socket_remove = λ s d. d;
  server_deferred_socket_exists = λ s d. false;
}

abbrev file : Stream
file = record { contents = codes "abcdefgh"; pos = 0 }

abbrev fresh : ℕ → Entry
fresh socket = record {
  routine = file_routine_new (send_buffer_new socket 0) file 2 6 (codes "/a");
  net = record { replies = []; wire = [] };
}

abbrev failed : ℕ → Entry
failed socket = record (fresh socket) {
  routine = record (fresh socket).routine { state = failing_file };
}

abbrev three : List Entry
three = failed 3 ∷ fresh 4 ∷ fresh 5 ∷ []

abbrev in_place : ℕ → Bool
in_place n = true

abbrev moved : ℕ → Bool
moved n = false

routine_tick-turns_example :
    routine_tick no_waiting 512 in_place three tt
    ≡ ticked (turns no_waiting 512 in_place true false 0 three tt)
routine_tick-turns_example = routine_tick-turns no_waiting 512 in_place three tt

abbrev left_and_flushing : Option (Ticked Unit) → Option (ℕ × List Bool)
left_and_flushing none = none
left_and_flushing (some t) = some (length t.ended, map (λ e. e.routine.state.state_flush) t.array)

-- The second routine, behind the deleted one, has no turn and is still flushing.
second_waits :
    left_and_flushing (routine_tick no_waiting 512 in_place three tt) ≡ some (1, true ∷ false ∷ [])
unfolding routine_tick file_routine_new send_buffer_new platform_memory_stream_seek routine_step
    phase_step finish_step flush_step
second_waits = refl

-- Where the array moves, the third is read through the old pointer.
third_lost : left_and_flushing (routine_tick no_waiting 512 moved three tt) ≡ none
unfolding routine_tick file_routine_new send_buffer_new platform_memory_stream_seek routine_step
    phase_step finish_step flush_step
third_lost = refl
