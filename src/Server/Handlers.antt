-- ===== src/Server/Handlers.antt =====
-- src/server/server.c: what the server does with a request. A handler makes a send buffer of its own for the
-- socket; `none` is a read or write out of bounds. Of the platform it uses the record `FileSystem`. The calls of
-- the event handlers are left out.
pub mod Receiving
pub mod Head
pub mod Serving
mod Tests
use newth.Prelude.{
  ℕ, ◌+◌, ◌-◌, Bool, true, false, not, ◌&&◌, ◌||◌, Option, none, some, List, [], ◌∷◌, ◌++◌, ◌==◌,
  if◌then◌else◌, Bytes, codes, length, take, ltb, leb, at,
}
use newth.Prelude.Int.{ℤ, pos, ◌-ℤ◌, ltb_ℤ, eq_ℤ}
use newth.Platform.Stream.{Stream}
use newth.Platform.Socket.{Net}
use newth.Client.Uri.{back_over_dividers, skip_dividers}
use newth.Server.SendBuffer.{SendBuffer, send_buffer_new}
use newth.Server.Http.Writer.{Connection, M, pure, ◌>>=◌, ◌>>◌, flush}
use newth.Server.Http.Write.{
  http_header_write_response, http_header_write_date, http_header_write_file_name,
  http_header_write_last_modified, http_header_write_accept_ranges,
  http_header_write_content_length, http_header_write_range, http_header_write_end,
  http_header_write_content_type, http_header_write_chunked_encoding, http_header_handle_error,
  http_body_write_chunk,
}
use newth.Server.Http.Html.{html_header_write, html_bread_crumb_write, html_list_start}
use newth.Server.Routine.{
  Routine, RoutineState, DirEntry, FileRoutine, DirectoryRoutine, type_routine, file_routine_new,
  directory_routine_new, routine_array_add, filename_max,
}
use newth.Server.Routine.Directory.{text_of}
use newth.Server.Request.{
  HttpType, PlatformTimeStruct, TimeOrder, RangeRead, http_client_read_type,
  http_header_read_if_modified_since, http_header_read_range, platform_time_struct_compare,
}

-- What the platform says of a path
pub record FileStat : Type 0 where
  pub st_size : ℕ
  pub is_directory : Bool
  pub is_file : Bool
  pub modified : PlatformTimeStruct
  pub modified_text : Bytes

-- The calls of the platform: `platformFileStat`, `platformFileOpen`, `platformDirOpen` with the entries that
-- are read, `platformGetCurrentTime` and `platformTimeGetFromHttpStr`.
pub record FileSystem : Type 0 where
  pub file_stat : Bytes → Option FileStat
  pub file_open : Bytes → Option Stream
  pub dir_open : Bytes → Option (List DirEntry)
  pub current_time : Bytes
  pub time_get_from_http_str : Bytes → Option PlatformTimeStruct

-- The answer of a handler, `globalRoutineArray` and the sockets
pub record Served : Type 0 where
  pub answer : ℕ
  pub routines : List Routine
  pub net : Net

-- `platformPathCombine` of src/platform/posix01.c, for a first path that is not empty
unfoldable pub platform_path_combine : Bytes → Bytes → Bytes
unfolding back_over_dividers skip_dividers
platform_path_combine path1 path2 =
    let idx = back_over_dividers path1 (length path1 - 1) in
    let lone_dot = at path1 0 == b'.' && length path1 == 1 in
    let first : Bytes =
      if ltb 0 idx || lone_dot
      then take (idx + 1) path1 ++ (b'/' ∷ [])
      else if at path1 0 == b'/' && at path1 1 == b'/'
      then take 1 path1
      else path1 in
    first ++ skip_dividers path2

-- `platformPathWebToSystem`: `none` is the answer 500. The place that is tested for a divider is the end of the
-- text, or behind it.
unfoldable pub platform_path_web_to_system : Bytes → Bytes → Option Bytes
unfolding platform_path_combine
platform_path_web_to_system root_path web_path =
    let len = length root_path + length web_path + 1 in
    let internal = platform_path_combine root_path web_path in
    let cut =
      if ltb 1 len && at internal (len - 1) == b'/' then take (len - 1) internal else internal in
    if leb filename_max len then none else some cut

abbrev pub Window : Type 0
Window = Bool × ℤ × ℤ

-- The window of the file that `handleFile` serves: whether it is all of it, its start and its end. An end of 0
-- or behind the end of the file is the end of the file.
unfoldable pub file_window : RangeRead → ℕ → Window
file_window none st_size = (true, pos 0, pos st_size)
file_window (some (start, finish)) st_size =
    let kept = ltb_ℤ finish (pos st_size) && not (eq_ℤ finish (pos 0)) in
    (false, start, if kept then finish else pos st_size)

-- The length of the answer, and its place in the file when a range was asked for
unfoldable pub window_head : ℕ → ℕ → Window → M ℕ
window_head sb_data_size st_size (true, start, finish) =
    http_header_write_content_length (pos st_size)
window_head sb_data_size st_size (false, start, finish) = do
  http_header_write_content_length (finish -ℤ start)
  http_header_write_range sb_data_size start finish (pos st_size)

abbrev pub status_code : Window → ℕ
status_code (whole, start, finish) = if whole then 200 else 206

-- The head of the answer of `handleFile`
unfoldable pub file_head : ℕ → Bytes → Bytes → FileStat → Window → M ℕ
unfolding window_head
file_head sb_data_size time web_path st window = do
  http_header_write_response (status_code window)
  http_header_write_date time
  http_header_write_file_name web_path
  http_header_write_last_modified st.modified_text
  http_header_write_accept_ranges
  window_head sb_data_size st.st_size window
  http_header_write_end

-- The routine that `handleFile` leaves. `none` also stands for a window with a negative number, of which a
-- `FileRoutine` of the model has none.
unfoldable pub file_routine_for : SendBuffer → Stream → Window → Bytes → Option Routine
file_routine_for socket_buffer fp (whole, pos start, pos finish) web_path =
    some (file_routine_new socket_buffer fp start finish web_path)
file_routine_for socket_buffer fp (whole, start, finish) web_path = none

abbrev pub is_head : HttpType → Bool
is_head HttpType.http_head = true
is_head type = false

abbrev pub new_connection : ℕ → Net → Connection
new_connection client_socket net = record {
  socket_buffer = send_buffer_new client_socket 0;
  net = net;
}

unfoldable pub after_file_head :
    HttpType → Stream → Window → Bytes → List Routine → Option (ℕ × Connection) → Option Served
unfolding file_routine_for
after_file_head type fp window web_path routines none = none
after_file_head type fp window web_path routines (some (n, c)) =
    let body : Option Served = elim (file_routine_for c.socket_buffer fp window web_path) [
      | none ↦ none
      | some r ↦ some (record { answer = 0; routines = routine_array_add routines r; net = c.net })
    ] in
    if is_head type then some (record { answer = 0; routines = routines; net = c.net }) else body

-- `RoutineNew`, for a path that is shorter than `filename_max`
unfoldable pub routine_new : SendBuffer → Bytes → Routine
routine_new socket_buffer web_path = record {
  state = record {
    kind = type_routine;
    state_continue = false;
    state_defer = false;
    state_flush = true;
    state_finish = false;
    state_fail = false;
  };
  socket_buffer = socket_buffer;
  web_path = web_path;
  of_file = record { file = record { contents = []; pos = 0 }; start = 0; end = 0 };
  of_dir = record { count = 0; directory = [] };
}

module _ (fs : FileSystem) (sb_data_size client_socket : ℕ) where
  -- `handleFile`
  unfoldable pub handle_file :
      Bytes → Bytes → Bytes → HttpType → FileStat → List Routine → Net → Option Served
  unfolding file_window file_head after_file_head
  handle_file header web_path absolute_path type st routines net =
      elim (fs.file_open absolute_path) [
        | none ↦ some (record { answer = 1; routines = routines; net = net })
        | some fp ↦ elim (http_header_read_range header (pos st.st_size)) [
          | none ↦ none
          | some range ↦
              let window = file_window range st.st_size in
              after_file_head type fp window web_path routines (
                file_head sb_data_size fs.current_time web_path st window
                  (new_connection client_socket net))
        ]
      ]

  -- The head of the answer of `handleDir`
  unfoldable pub dir_head : FileStat → M ℕ
  dir_head st = do
    http_header_write_response 200
    http_header_write_date fs.current_time
    http_header_write_last_modified st.modified_text
    http_header_write_content_type sb_data_size (codes "text/html") []
    http_header_write_chunked_encoding
    http_header_write_end

  abbrev pub fail_write : M Bool
  fail_write c = none

  -- The page of `handleDir` up to the list: whether it went out
  unfoldable pub dir_page : Bytes → M Bool
  dir_page web_path =
      let title : Bytes = if length web_path == 0 then b'/' ∷ [] else web_path in
      let listing : M Bool = elim (html_bread_crumb_write none title) [
        | none ↦ fail_write
        | some buf ↦ http_body_write_chunk (text_of (html_list_start buf)) >>= λ n.
            if n == 0 then pure false else (flush sb_data_size >> pure true)
      ] in
      http_body_write_chunk (text_of (html_header_write none title)) >>= λ n.
      if n == 0 then pure false else (flush sb_data_size >> listing)

  -- The handling of `type == httpHead`: an abort where nothing is flushed, and the page also for a head.
  unfoldable pub dir_answer : Bytes → HttpType → FileStat → M Bool
  unfolding dir_head dir_page
  dir_answer web_path type st = dir_head st >>= λ _.
      if is_head type
      then (flush sb_data_size >>= λ n. if n == 0 then pure false else dir_page web_path)
      else dir_page web_path

  abbrev pub of_code : List Routine → Option (ℕ × Connection) → Option Served
  of_code routines none = none
  of_code routines (some (n, c)) = some (record { answer = n; routines = routines; net = c.net })

  unfoldable pub after_dir_answer :
      List DirEntry → Bytes → List Routine → Option (Bool × Connection) → Option Served
  after_dir_answer dir web_path routines none = none
  after_dir_answer dir web_path routines (some (false, c)) =
      some (record { answer = 1; routines = routines; net = c.net })
  after_dir_answer dir web_path routines (some (true, c)) = some (record {
    answer = 0;
    routines = routine_array_add routines (directory_routine_new c.socket_buffer dir web_path);
    net = c.net;
  })

  -- `handleDir`
  unfoldable pub handle_dir :
      Bytes → Bytes → HttpType → FileStat → List Routine → Net → Option Served
  unfolding dir_answer after_dir_answer
  handle_dir web_path absolute_path type st routines net = elim (fs.dir_open absolute_path) [
    | none ↦ of_code routines (
        http_header_handle_error sb_data_size fs.current_time 404
          (new_connection client_socket net))
    | some dir ↦
        after_dir_answer dir web_path routines
          (dir_answer web_path type st (new_connection client_socket net))
  ]

  -- The answer 304
  unfoldable pub not_modified : Bytes → List Routine → Net → Option Served
  unfolding routine_new
  not_modified web_path routines net =
      let head : M ℕ = http_header_write_response 304 >>= λ _.
      http_header_write_date fs.current_time >>= λ _. http_header_write_end in
      elim (head (new_connection client_socket net)) [
        | none ↦ none
        | some (n, c) ↦ some (record {
          answer = 0;
          routines = routine_array_add routines (routine_new c.socket_buffer web_path);
          net = c.net;
        })
      ]

  abbrev pub type_number : HttpType → ℕ
  type_number HttpType.http_get = 0
  type_number HttpType.http_head = 1
  type_number HttpType.http_post = 2
  type_number HttpType.http_unknown = 3

  -- Whether the client has the file as it is: `platformTimeStructCompare(&tm, &mt) <= 0`
  unfoldable pub is_current : Bytes → FileStat → Bool
  is_current header st = elim (http_header_read_if_modified_since header) [
    | none ↦ false
    | some date ↦ elim (fs.time_get_from_http_str date) [
      | none ↦ false
      | some tm ↦ elim (platform_time_struct_compare tm st.modified) [
        | TimeOrder.first_is_older ↦ false
        | _ ↦ true
      ]
    ]
  ]

  -- `handlePath` for a path that is there
  unfoldable pub handle_found :
      Bytes → Bytes → Bytes → FileStat → List Routine → Net → Option Served
  unfolding is_current not_modified handle_file handle_dir
  handle_found header web_path absolute_path st routines net =
      let type = http_client_read_type header in
      if is_current header st
      then not_modified web_path routines net
      else if st.is_directory
      then handle_dir web_path absolute_path type st routines net
      else if st.is_file
      then handle_file header web_path absolute_path type st routines net
      else some (record { answer = type_number type; routines = routines; net = net })

  -- The answer 404 of `handlePath`
  unfoldable pub not_found : List Routine → Net → Option Served
  not_found routines net =
      of_code routines (
        http_header_handle_error sb_data_size fs.current_time 404
          (new_connection client_socket net))

  -- `handlePath`
  unfoldable pub handle_path : Bytes → Bytes → Bytes → List Routine → Net → Option Served
  unfolding platform_path_web_to_system handle_found not_found
  handle_path root header web_path routines net = elim (platform_path_web_to_system root web_path) [
    | none ↦ not_found routines net
    | some absolute_path ↦ elim (fs.file_stat absolute_path) [
      | none ↦ not_found routines net
      | some st ↦ handle_found header web_path absolute_path st routines net
    ]
  ]
