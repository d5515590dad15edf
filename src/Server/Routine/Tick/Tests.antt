-- ===== src/Server/Routine/Tick/Tests.antt =====
-- Runs of the ticks of a file routine, with the sockets that wait as a list.
use mathlib.Core.Option
use newth.Prelude.{
  ℕ, ◌≡◌, refl, Bool, true, false, Option, none, some, List, [], ◌∷◌, ◌==◌, if◌then◌else◌, Bytes,
  codes, arith,
}
use newth.Platform.Stream.{
  Stream, platform_memory_stream_seek, platform_memory_stream_tell, platform_memory_stream_new,
  fread, fwrite,
}
use newth.Platform.Socket.{Net, Reply, send, answer}
use newth.Server.SendBuffer.{
  send_buffer_new, send_buffer_write_data, send_buffer_flush, flush_loop, after_send, direct_send,
  keep_rest,
}
use newth.Server.Routine.{
  Routine, file_routine_new, file_routine_continue, after_file_read, after_file_write,
}
use newth.Server.Routine.Tick.{
  Multiplex, Stepped, finish_step, after_defer_flush, defer_step, after_flush, flush_step,
  after_file_continue, continue_step, phase_step, routine_step,
}
use newth.Server.Routine.Tick.Invariant.{Outcome}
use newth.Server.Routine.Tick.Runs.{routine_ticks, routine_ticks-file_routine_new}

without : ℕ → List ℕ → List ℕ
without s [] = []
without s (t ∷ waiting) = let rest = without s waiting in if s == t then rest else t ∷ rest

waits : ℕ → List ℕ → Bool
waits s [] = false
waits s (t ∷ waiting) = let rest = waits s waiting in if s == t then true else rest

abbrev waiting_list : Multiplex (List ℕ)
waiting_list = record {
  server_deferred_socket_add = ◌∷◌;
  server_deferred_socket_remove = without;
  server_deferred_socket_exists = waits;
}

abbrev file : Stream
file = record { contents = codes "abcdefgh"; pos = 0 }

-- The bytes 2 to 5 of the file.
abbrev window_routine : Routine
window_routine = file_routine_new (send_buffer_new 3 0) file 2 6 (codes "/a")

abbrev ready : Net
ready = record { replies = Reply.room 2 ∷ Reply.room 9 ∷ Reply.room 9 ∷ []; wire = codes "> " }

abbrev same : List ℕ → List ℕ
same waiting = waiting

abbrev woken : List ℕ → List ℕ
woken waiting = []

abbrev five_ticks : List (List ℕ → List ℕ)
five_ticks = same ∷ same ∷ same ∷ same ∷ woken ∷ []

abbrev nine_ticks : List (List ℕ → List ℕ)
nine_ticks = same ∷ same ∷ same ∷ same ∷ woken ∷ woken ∷ woken ∷ woken ∷ woken ∷ []

abbrev sent_and_kept : Option (Stepped (List ℕ)) → Option (Bytes × Option ℕ × Bool)
sent_and_kept = Option.map {B = Bytes × Option ℕ × Bool} λ st.
    (st.net.wire, Option.map {B = ℕ} (λ r. r.socket_buffer.client_socket) st.kept, st.had_failed)

-- The first send takes two bytes of three; the rest waits for the socket.
ninth_tick :
    sent_and_kept (routine_ticks waiting_list 3 nine_ticks window_routine ready [])
    ≡ some (codes "> cdef", none, false)
unfolding routine_ticks file_routine_new file_routine_continue after_file_read after_file_write
    send_buffer_new send_buffer_write_data send_buffer_flush flush_loop after_send direct_send
    keep_rest send answer fread fwrite platform_memory_stream_seek platform_memory_stream_tell
    platform_memory_stream_new finish_step after_defer_flush defer_step after_flush flush_step
    after_file_continue continue_step phase_step routine_step without waits
ninth_tick = refl

routine_ticks-file_routine_new_example :
    Outcome (codes "> cdef") (routine_ticks waiting_list 3 five_ticks window_routine ready [])
unfolding send_buffer_new
routine_ticks-file_routine_new_example =
    routine_ticks-file_routine_new waiting_list 3 (omega arith) five_ticks (send_buffer_new 3 0)
      file 2 6 (codes "/a") ready [] (omega arith) refl refl
