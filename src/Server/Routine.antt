-- ===== src/Server/Routine.antt =====
-- src/server/routine.c: the array of routines, and the routine that sends a window of a file through a
-- send buffer. The opened file is a stream, as the temporary ones are.
pub mod Window
pub mod Array
pub mod Directory
pub mod Tick
mod Tests
use newth.Prelude.{
  ℕ, ◌+◌, ◌-◌, Bool, true, false, min, Option, none, some, List, [], ◌∷◌, ◌++◌, suc, Bytes, length,
  take, drop, ltb, ◌==◌, if◌then◌else◌,
}
use newth.Platform.Stream.{Stream, Seek, platform_memory_stream_seek, fread}
use newth.Platform.Socket.{Net}
use newth.Server.SendBuffer.{SendBuffer, send_buffer_write_data}

-- The type bits of `enum state`
pub data RoutineKind : Type 0 where
  type_routine type_routine_dir type_routine_file : RoutineKind

-- The bits of `enum state`
pub record RoutineState : Type 0 where
  pub kind : RoutineKind
  pub state_continue : Bool
  pub state_defer : Bool
  pub state_flush : Bool
  pub state_finish : Bool
  pub state_fail : Bool

pub record FileRoutine : Type 0 where
  pub file : Stream
  pub start : ℕ
  pub end : ℕ

-- What the platform shows of an entry of a directory
pub record DirEntry : Type 0 where
  pub name : Bytes
  pub is_hidden : Bool
  pub is_directory : Bool

-- The entries that are still to be read, and how many were listed.
pub record DirectoryRoutine : Type 0 where
  pub count : ℕ
  pub directory : List DirEntry

-- The members of the union `type` are two fields; the state's kind says which one is in use.
pub record Routine : Type 0 where
  pub state : RoutineState
  pub socket_buffer : SendBuffer
  pub web_path : Bytes
  pub of_file : FileRoutine
  pub of_dir : DirectoryRoutine

-- `FILENAME_MAX` of the GNU library
abbrev pub filename_max : ℕ
filename_max = 4096

-- `FileRoutineNew`
unfoldable pub file_routine_new : SendBuffer → Stream → ℕ → ℕ → Bytes → Routine
file_routine_new socket_buffer file start end web_path = record {
  state = record {
    kind = type_routine_file;
    state_continue = false;
    state_defer = false;
    state_flush = true;
    state_finish = false;
    state_fail = false;
  };
  socket_buffer = socket_buffer;
  web_path = take (filename_max - 1) web_path;
  of_file = record {
    file = platform_memory_stream_seek file (Seek.from_start start);
    start = start;
    end = end;
  };
  of_dir = record { count = 0; directory = [] };
}

-- `DirectoryRoutineNew`, for a path that is shorter than `filename_max`
unfoldable pub directory_routine_new : SendBuffer → List DirEntry → Bytes → Routine
directory_routine_new socket_buffer dir web_path = record {
  state = record {
    kind = type_routine_dir;
    state_continue = false;
    state_defer = false;
    state_flush = true;
    state_finish = false;
    state_fail = false;
  };
  socket_buffer = socket_buffer;
  web_path = web_path;
  of_file = record { file = record { contents = []; pos = 0 }; start = 0; end = 0 };
  of_dir = record { count = 0; directory = dir };
}

-- `FileRoutineContinue` once `got`, which stood at `position`, went to the send buffer: the file is
-- rewound when not all of it was taken.
unfoldable pub after_file_write :
    Routine → ℕ → Bytes → Stream → ℕ × SendBuffer × Net → ℕ × Routine × Net
after_file_write self position got file (n, socket_buffer, net) = (
  n,
  record self {
    socket_buffer = socket_buffer;
    of_file = record self.of_file {
      file =
          if ltb n (length got)
          then platform_memory_stream_seek file (Seek.from_start (position + n))
          else file;
    };
  },
  net,
)

-- `FileRoutineContinue` once `got` is read
unfoldable pub after_file_read : Routine → ℕ → Bytes × Stream → Net → ℕ × Routine × Net
unfolding after_file_write
after_file_read self position (got, file) net =
    if length got == 0
    then (
      0,
      record self {
        state = record self.state { state_continue = false; state_flush = true };
        of_file = record self.of_file { file = file };
      },
      net,
    )
    else after_file_write self position got file (send_buffer_write_data self.socket_buffer got net)

-- `FileRoutineContinue`. Behind the end of the window the size of the read is negative, which as a
-- `size_t` overruns the buffer: `none`.
unfoldable pub file_routine_continue : ℕ → Routine → Net → Option (ℕ × Routine × Net)
unfolding after_file_read
file_routine_continue sb_data_size self net =
    let file = self.of_file.file in
    if ltb self.of_file.end file.pos
    then none
    else some (
        after_file_read self file.pos (fread (min (self.of_file.end - file.pos) sb_data_size) file)
          net)

-- `RoutineArrayAdd`
unfoldable pub routine_array_add : List Routine → Routine → List Routine
routine_array_add self routine = self ++ (routine ∷ [])

-- `RoutineArrayDelIdx`; closing the file is left out.
unfoldable pub routine_array_del_idx : List Routine → ℕ → List Routine
routine_array_del_idx self idx = take idx self ++ drop (suc idx) self

-- The loop of `RoutineArrayDelSocket`
unfoldable pub find_socket : List Routine → ℕ → ℕ → Option ℕ
find_socket [] socket i = none
find_socket (routine ∷ self) socket i =
    let rest = find_socket self socket (suc i) in
    if routine.socket_buffer.client_socket == socket then some i else rest

-- `RoutineArrayDelSocket`
unfoldable pub routine_array_del_socket : List Routine → ℕ → List Routine
unfolding find_socket routine_array_del_idx
routine_array_del_socket self socket = elim (find_socket self socket 0) [
  | none ↦ self
  | some i ↦ routine_array_del_idx self i
]
