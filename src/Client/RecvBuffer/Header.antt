-- ===== src/Client/RecvBuffer/Header.antt =====
-- src/client/io.c: `ioHttpResponseHeaderRead` takes the head of an answer off a receive buffer, and
-- `ioHttpResponseHeaderFind` reads a value out of it. Memory is given when it is asked for.
pub mod Read
pub mod Value
use newth.Prelude.{
  c_string, ℕ, ◌+◌, ◌++◌, Option, none, some, [], ◌∷◌, ◌==◌, if◌then◌else◌, Bytes, length, drop,
  split_at, split_on, at,
}
use newth.Client.Io.{http_eol}
use newth.Client.RecvBuffer.{
  RecvError, RecvBuffer, content, recv_buffer_set_length_token, recv_buffer_fetch,
  recv_buffer_ditch, platform_string_find_needle_raw,
}
use newth.Client.RecvBuffer.Search.{recv_buffer_find_and_fetch}

-- The messages of `ioHttpResponseHeaderRead`, those of the receive buffer included.
pub data HeaderError : Type 0 where
  of_buffer : RecvError → HeaderError
  no_token_found : HeaderError

-- The empty line that ends a head
abbrev pub header_end : Bytes
header_end = http_eol ++ http_eol

-- An error, or the head with the end of its last line; and the buffer
abbrev pub HeadRead : Type 0
HeadRead = (Option HeaderError × Bytes) × RecvBuffer

-- `strstr` in the copied data, and the end of the head there
unfoldable pub cut_header : Bytes → RecvBuffer → HeadRead
unfolding c_string
cut_header text self = elim (split_on header_end (c_string text)) [
  | none ↦ ((some HeaderError.no_token_found, []), self)
  | some (head, rest) ↦ ((none, head ++ http_eol), recv_buffer_ditch self (length head + 4))
]

unfoldable pub after_fetch : Option (Option RecvError × Bytes) → RecvBuffer → Option HeadRead
unfolding cut_header
after_fetch none self = none
after_fetch (some (some e, text)) self = some ((some (HeaderError.of_buffer e), []), self)
after_fetch (some (none, text)) self = some (cut_header text self)

unfoldable pub after_find : Option (Option RecvError × RecvBuffer) → Option HeadRead
unfolding after_fetch
after_find none = none
after_find (some (some e, self)) = some ((some (HeaderError.of_buffer e), []), self)
after_find (some (none, self)) =
    after_fetch (recv_buffer_fetch self 0 (length (content self) + 1)) self

-- `ioHttpResponseHeaderRead` with a `header` that is not NULL
unfoldable pub io_http_response_header_read : ℕ → RecvBuffer → Option HeadRead
unfolding after_find
io_http_response_header_read sb_data_size socket = after_find (
    recv_buffer_find_and_fetch sb_data_size (recv_buffer_set_length_token socket header_end 4)
      header_end 4096)

-- `while (*s == ' ')`; the text ends before its `\r`.
unfoldable pub skip_spaces : Bytes → Bytes
skip_spaces [] = []
skip_spaces (c ∷ text) = let rest = skip_spaces text in if c == b' ' then rest else c ∷ text

-- `ioHttpResponseHeaderFind`: the value behind the first place where `header` stands. `none` is "Header not found".
unfoldable pub io_http_response_header_find : Bytes → Bytes → Option Bytes
unfolding skip_spaces
io_http_response_header_find header_file header =
    elim (platform_string_find_needle_raw header_file header) [
      | none ↦ none
      | some i ↦ elim (split_at b':' (drop i header_file)) [
        | none ↦ none
        | some (_, s) ↦ elim (split_at b'\r' s) [
          | none ↦ none
          | some (line, e) ↦ if at e 1 == b'\n' then some (skip_spaces (drop 1 line)) else none
        ]
      ]
    ]
