-- ===== src/Server/Routine/Tests.antt =====
-- Runs of the file routine, and its theorem at a concrete input.
use mathlib.Core.Option
use newth.Prelude.{ℕ, Bytes, ◌≡◌, refl, some, [], ◌∷◌, codes, arith}
use newth.Platform.Stream.{platform_memory_stream_seek, fread}
use newth.Platform.Socket.{Net, Reply, send, answer}
use newth.Server.SendBuffer.{send_buffer_new, send_buffer_write_data}
use newth.Server.Routine.{
  Routine, file_routine_new, file_routine_continue, routine_array_add, routine_array_del_socket,
}
use newth.Server.Routine.Array.{
  socket_of, NoSocket, OneForSocket, others, routine_array_del_socket-others,
  routine_array_del_socket-add,
}
use newth.Server.Routine.Window.{IsValidRoutine, Continues, file_routine_continue-Continues}

-- The bytes 2 to 5 of a file.
abbrev routine : Routine
routine =
    file_routine_new (send_buffer_new 3 0) (record { contents = codes "abcdefgh"; pos = 0 }) 2 6
      (codes "/a")

abbrev ready : Net
ready = record { replies = Reply.room 9 ∷ Reply.room 2 ∷ []; wire = codes "> " }

-- With blocks of three bytes the first call sends three of them.
first_call :
    Option.map {B = ℕ × Bytes} (λ r. (r.0, r.2.wire)) (file_routine_continue 3 routine ready)
    ≡ some (3, codes "> cde")
unfolding file_routine_continue file_routine_new send_buffer_write_data send answer fread
    platform_memory_stream_seek send_buffer_new
first_call = refl

valid : IsValidRoutine routine
unfolding file_routine_new send_buffer_new platform_memory_stream_seek
valid = (omega arith, refl)

file_routine_continue-Continues_example :
    Continues 3 (omega arith) routine ready (file_routine_continue 3 routine ready)
file_routine_continue-Continues_example =
    file_routine_continue-Continues 3 (omega arith) routine ready valid

abbrev on_socket : ℕ → Routine
on_socket n = record routine { socket_buffer = send_buffer_new n 0 }

sockets : OneForSocket (on_socket 3 ∷ on_socket 5 ∷ [])
unfolding send_buffer_new
sockets = ((ground arith, tt), (tt, tt))

new_socket : NoSocket (socket_of (on_socket 4)) (on_socket 3 ∷ on_socket 5 ∷ [])
unfolding send_buffer_new
new_socket = (ground arith, (ground arith, tt))

routine_array_del_socket-others_example :
    routine_array_del_socket (on_socket 3 ∷ on_socket 5 ∷ []) 5
    ≡ others 5 (on_socket 3 ∷ on_socket 5 ∷ [])
routine_array_del_socket-others_example =
    routine_array_del_socket-others (on_socket 3 ∷ on_socket 5 ∷ []) 5 sockets

deleted_again :
    let self = on_socket 3 ∷ on_socket 5 ∷ [] in
    OneForSocket (routine_array_add self (on_socket 4))
    × (routine_array_del_socket (routine_array_add self (on_socket 4)) (socket_of (on_socket 4))
        ≡ self)
deleted_again =
    routine_array_del_socket-add (on_socket 3 ∷ on_socket 5 ∷ []) (on_socket 4) sockets new_socket
