-- ===== src/Server/Handlers/Tests.antt =====
-- Runs of the server's handlers.
use newth.Prelude.{
  ℕ, ◌≡◌, refl, true, false, none, some, [], ◌∷◌, ◌++◌, Bytes, codes, length, arith, take,
  starts_with, split_on, split_at, Bool, zero, suc, ◌<◌, ◌&&◌, not,
}
use newth.Prelude.Scan.{atol}
use newth.Prelude.Int.{pos, eq_ℤ}
use newth.Platform.Stream.{Stream}
use newth.Platform.Socket.{Net, Reply}
use newth.Platform.Receive.{Inbound}
use newth.Hex.{hex_convert_string_to_ascii}
use newth.Server.Routine.Tick.{Multiplex}
use newth.Server.Request.{
  HttpType, PlatformTimeStruct, http_client_read_uri, http_client_read_type, http_header_read_range,
}
use newth.Server.Handlers.{
  FileStat, FileSystem, file_window, platform_path_web_to_system, handle_file,
}
use newth.Server.Handlers.Head.{file_page}
use newth.Server.Handlers.Serving.{Answers, handle_file-Answers}
use newth.Server.Handlers.Receiving.{ends_head, answer_message, handle_connection}
use newth.Server.Handlers.Receiving.Whole.{handle_connection-answer_message}

abbrev file : Stream
file = record { contents = codes "abcdefgh"; pos = 0 }

abbrev day : PlatformTimeStruct
day = record { tm_year = 124; tm_mon = 1; tm_mday = 3; tm_hour = 4; tm_min = 5; tm_sec = 6 }

abbrev stat : FileStat
stat = record {
  st_size = 8;
  is_directory = false;
  is_file = true;
  modified = day;
  modified_text = codes "Sat, 03 Feb 2024 04:05:06 GMT";
}

abbrev one_file : FileSystem
one_file = record {
  file_stat = λ path. some stat;
  file_open = λ path. some file;
  dir_open = λ path. none;
  current_time = codes "Sun, 04 Feb 2024 04:05:06 GMT";
  time_get_from_http_str = λ date. none;
}

abbrev quiet : Net
quiet = record { replies = []; wire = [] }

abbrev ranged_request : Bytes
ranged_request = codes "GET /a HTTP/1.1\r\nRange: bytes=2-6\r\n\r\n"

abbrev plain_request : Bytes
plain_request = codes "GET /a%20b HTTP/1.1\r\n\r\n"

read_range : http_header_read_range ranged_request (pos 8) ≡ some (some (pos 2, pos 6))
unfolding http_header_read_range split_on split_at atol
read_range = refl

read_type : http_client_read_type (codes "head /a HTTP/1.1") ≡ HttpType.http_head
unfolding http_client_read_type
read_type = refl

system_path : platform_path_web_to_system (codes "/srv/") (codes "/a/b") ≡ some (codes "/srv/a/b")
unfolding platform_path_web_to_system
system_path = refl

abbrev no_waiting : Multiplex Unit
no_waiting = record {
  server_deferred_socket_add = λ s d. d;
  server_deferred_socket_remove = λ s d. d;
  server_deferred_socket_exists = λ s d. false;
}

handle_file-Answers_example :
    Answers no_waiting 512
      (file_page one_file.current_time (codes "/a") stat 4 (false, pos 2, pos 6) ++ codes "cdef")
      []
      (handle_file one_file 512 3 ranged_request
        (codes "/a")
        (codes "/srv/a")
        HttpType.http_get
        stat
        []
        quiet)
unfolding file_window eq_ℤ
handle_file-Answers_example =
    handle_file-Answers no_waiting 512 one_file 3 ranged_request (codes "/a") (codes "/srv/a") stat
      [] quiet file (some (pos 2, pos 6)) refl read_range (omega arith) refl (omega arith)
      (omega arith) (omega arith) (omega arith)

abbrev all_false : ℕ → (ℕ → Bool) → Bool
all_false zero f = true
all_false (suc n) f = not (f zero) && all_false n (λ k. f (suc k))

all_false-at : (n : ℕ) (f : ℕ → Bool) → all_false n f ≡ true → (k : ℕ) → k < n → f k ≡ false
all_false-at zero f h k less = absurd (omega (arith, less))
all_false-at (suc n) f h zero less = ground (arith, h)
all_false-at (suc n) f h (suc k) less =
    all_false-at n (λ j. f (suc j)) (ground (arith, h)) k (omega (arith, less))

ends_last : all_false (length plain_request) (λ k. ends_head (take k plain_request)) ≡ true
unfolding ends_head starts_with
ends_last = refl

abbrev slow : Inbound
slow = record {
  replies = Reply.room 8 ∷ Reply.would_block ∷ Reply.room 12 ∷ [];
  stream = plain_request;
}

handle_connection-answer_message_example :
    handle_connection one_file 512 3 (codes "/srv") slow [] quiet
    ≡ answer_message one_file 512 3 (codes "/srv") plain_request [] quiet
unfolding ends_head starts_with
handle_connection-answer_message_example =
    handle_connection-answer_message one_file 512 3 (codes "/srv") slow [] quiet (omega arith)
      (refl, all_false-at (length plain_request) (λ k. ends_head (take k plain_request)) ends_last)
      tt (omega arith)

plain_path : http_client_read_uri plain_request ≡ some (some (codes "/a b"))
unfolding http_client_read_uri split_at split_on hex_convert_string_to_ascii
plain_path = refl
