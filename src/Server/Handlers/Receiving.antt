-- ===== src/Server/Handlers/Receiving.antt =====
-- src/server/server.c: `handleConnection`, which gathers a request from its socket and answers it. How much of the
-- stream each call of `recv` finds is a list of replies; when none is left all of the stream is there, and behind
-- its end the peer has closed.
pub mod Whole
use newth.Prelude.{
  c_string, ℕ, suc, ◌+◌, ◌-◌, ◌<◌, ◌≡◌, refl, sym, ap, ◌∙◌, min, Bool, true, false, ◌&&◌, Option,
  none, some, List, [], ◌∷◌, ◌++◌, ◌==◌, if◌then◌else◌, inl, inr, arith, Bytes, length,
  length-append, length-take, length-drop, take, drop, take_all, take-append-drop, append_assoc,
  leb, ltb, at, starts_with, split_at, lt→ltb, ◌⊎◌,
}
use newth.Platform.Socket.{Net, Reply}
use newth.Platform.Receive.{Inbound}
use newth.Client.Io.{http_eol}
use newth.Server.Http.Writer.{M, ◌>>=◌, flush}
use newth.Server.Http.Write.{
  http_header_write_response, http_header_write_date, http_header_write_content_length,
  http_header_write_end,
}
use newth.Prelude.Int.{pos}
use newth.Server.Request.{http_client_read_uri}
use newth.Server.Routine.{Routine}
use newth.Server.Routine.Directory.{bufsiz}
use newth.Server.Handlers.{FileSystem, Served, new_connection, of_code, handle_path}

-- `messageSize >= 4 && strncmp(&buffer[messageSize - 4], HTTP_EOL HTTP_EOL, 4) == 0`
unfoldable pub ends_head : Bytes → Bool
ends_head message =
    leb 4 (length message) && starts_with (http_eol ++ http_eol) (drop (length message - 4) message)

-- What the loop of `handleConnection` ends with: an error of the socket, too many bytes, or a message
pub data Gathered : Type 0 where
  broken_off : Gathered
  too_large : Gathered
  message_of : Bytes → Gathered

-- A call of `recv` that gave nothing, where `go_on` is the loop from the next count of such calls on
abbrev pub idle : ℕ → Bytes → (ℕ → Gathered) → Gathered
idle r message go_on =
    let rest = go_on (r + 1) in if ltb (r + 1) 50 then rest else Gathered.message_of message

-- The loop once `got` was received: `message` has it already.
unfoldable pub after_received : ℕ → Bytes → Bytes → (ℕ → Gathered) → Gathered
unfolding ends_head
after_received r [] [] go_on = Gathered.broken_off
after_received r [] message go_on = idle r message go_on
after_received r got message go_on =
    let rest = go_on 0 in
    if leb (bufsiz - 1) (length message)
    then Gathered.too_large
    else if ends_head message
    then Gathered.message_of message
    else rest

-- The loop of `handleConnection`. With no reply left, what follows the last bytes is 50 calls with nothing.
unfoldable pub gather : List Reply → ℕ → Bytes → Bytes → Gathered
unfolding after_received
gather [] r message stream =
    let got = take (bufsiz - length message - 1) stream in
    after_received r got (message ++ got) λ r. Gathered.message_of (message ++ got)
gather (Reply.room m ∷ replies) r message stream =
    let n = min (bufsiz - length message - 1) (suc m) in
    let got = take n stream in
    after_received r got (message ++ got) λ r. gather replies r (message ++ got) (drop n stream)
gather (Reply.would_block ∷ replies) r message stream =
    idle r message λ r. gather replies r message stream
gather (Reply.broken ∷ replies) r message stream = Gathered.broken_off

module _ (fs : FileSystem) (sb_data_size client_socket : ℕ) where
  -- The answer 431
  unfoldable pub header_too_large : List Routine → Net → Option Served
  header_too_large routines net =
      let head : M ℕ = http_header_write_response 431 >>= λ _.
      http_header_write_date fs.current_time >>= λ _.
      http_header_write_content_length (pos 0) >>= λ _.
      http_header_write_end >>= λ _. flush sb_data_size in
      elim (head (new_connection client_socket net)) [
        | none ↦ none
        | some (_, c) ↦ some (record { answer = 1; routines = routines; net = c.net })
      ]

  -- `handleConnection` once the loop has ended with a message
  unfoldable pub answer_message : Bytes → Bytes → List Routine → Net → Option Served
  unfolding handle_path
  answer_message root [] routines net = some (record { answer = 1; routines = routines; net = net })
  answer_message root message routines net =
      let request = c_string (take (length message - 1) message) in
      elim (http_client_read_uri request) [
        | none ↦ none
        | some none ↦ some (record { answer = 50; routines = routines; net = net })
        | some (some uri_path) ↦
            let path =
              handle_path fs sb_data_size client_socket root request uri_path routines net in
            if at uri_path 0 == b'/'
            then path
            else some (record { answer = 1; routines = routines; net = net })
      ]

  unfoldable pub after_gather : Bytes → Gathered → List Routine → Net → Option Served
  unfolding header_too_large answer_message
  after_gather root Gathered.broken_off routines net =
      some (record { answer = 1; routines = routines; net = net })
  after_gather root Gathered.too_large routines net = header_too_large routines net
  after_gather root (Gathered.message_of message) routines net =
      answer_message root message routines net

  -- `handleConnection`
  unfoldable pub handle_connection : Bytes → Inbound → List Routine → Net → Option Served
  unfolding after_gather gather
  handle_connection root inbound routines net =
      after_gather root (gather inbound.replies 0 [] inbound.stream) routines net
