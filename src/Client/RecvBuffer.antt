-- ===== src/Client/RecvBuffer.antt =====
-- src/client/recvbufr.c: the buffer that the client's answers are read into, and how it knows where an
-- answer ends. Memory is given when it is asked for; lengths are taken not to be negative.
pub mod Find
pub mod Append
pub mod Search
pub mod Existing
pub mod Header
mod Tests
use newth.Prelude.{
  ℕ, zero, suc, ◌+◌, ◌-◌, Bool, true, false, ◌||◌, min, Option, none, some, [], ◌∷◌, ◌++◌, ◌==◌,
  if◌then◌else◌, Bytes, length, drop, take, ltb, leb, to_upper, at,
}
use newth.Platform.Receive.{Inbound}

-- The messages that the functions return; `none` is NULL.
pub data RecvError : Type 0 where
  err_request_completed : RecvError
  err_no_data_to_be_retrieved : RecvError
  err_no_buffered_data : RecvError
  err_malformed_chunk_encoding : RecvError
  err_illegal_hex_character : RecvError
  err_token_bigger_then_buffer_limits : RecvError
  err_exceeded_maximum_allowed_buffer_size : RecvError
  socket_error : RecvError

-- The option bit that is set, with its member of the union `length`. The `next` of a chunk is -1 as `none`.
pub data LengthMode : Type 0 where
  length_unknown : (escape limit : ℕ) → LengthMode
  length_chunk : (next : Option ℕ) → (total : ℕ) → LengthMode
  length_known : (escape total : ℕ) → LengthMode
  length_token : (text : Bytes) → (count : ℕ) → LengthMode
  length_complete : LengthMode

-- `len` is the length of `buffer`, and 0 where nothing is allocated.
pub record RecvBuffer : Type 0 where
  pub buffer : Option Bytes
  pub max : ℕ
  pub mode : LengthMode
  pub inbound : Inbound

abbrev pub content_of : Option Bytes → Bytes
content_of none = []
content_of (some buffer) = buffer

abbrev pub content : RecvBuffer → Bytes
content self = content_of self.buffer

-- `recvBufferNew` with options 0
unfoldable pub recv_buffer_new : Inbound → RecvBuffer
recv_buffer_new inbound = record {
  buffer = none;
  max = 0;
  mode = length_unknown 0 0;
  inbound = inbound;
}

-- `BufferAppend`
unfoldable pub buffer_append : RecvBuffer → Bytes → RecvBuffer
buffer_append self buf =
    let len = length (content self) + length buf in
    record self {
      buffer = some (content self ++ buf);
      max = if ltb self.max len then len else self.max;
    }

-- `toupper` on both sides, for the bytes of the first text.
unfoldable pub same_start : Bytes → Bytes → Bool
same_start [] haystack = true
same_start (n ∷ needle) [] = false
same_start (n ∷ needle) (c ∷ haystack) =
    let rest = same_start needle haystack in if to_upper c == to_upper n then rest else false

unfoldable pub find_needle_from : ℕ → Bytes → Bytes → Option ℕ
unfolding same_start
find_needle_from i [] needle = none
find_needle_from i (c ∷ haystack) needle =
    let next = find_needle_from (suc i) haystack needle in
    if same_start needle (c ∷ haystack) then some i else next

-- `platformStringFindNeedleRaw`: an index in place of a pointer.
unfoldable pub platform_string_find_needle_raw : Bytes → Bytes → Option ℕ
unfolding find_needle_from
platform_string_find_needle_raw haystack needle =
    if length haystack == 0 || length needle == 0 || ltb (length haystack) (length needle)
    then none
    else find_needle_from 0 haystack needle

-- `DataIncrement` on the mode, with the data `text`: whether they have ended. It is called in the modes
-- without chunks only.
unfoldable pub data_increment : LengthMode → Bytes → ℕ → Bool × LengthMode
unfolding platform_string_find_needle_raw
data_increment (length_known escape total) text added =
    if leb total (escape + added)
    then (true, length_complete)
    else (false, length_known (escape + added) total)
data_increment (length_token needle count) text added =
    elim (platform_string_find_needle_raw text needle) [
      | some i ↦ (true, length_complete)
      | none ↦ (false, length_token needle (count + added))
    ]
data_increment (length_unknown escape limit) text added =
    (leb limit (escape + added), length_unknown (escape + added) limit)
data_increment (length_chunk next total) text added = (true, length_chunk next total)
data_increment length_complete text added = (true, length_complete)

abbrev pub Appended : Type 0
Appended = Option RecvError × RecvBuffer

-- `recvBufferClear`
unfoldable pub recv_buffer_clear : RecvBuffer → RecvBuffer
recv_buffer_clear self = record self {
  buffer = none;
  max = elim self.buffer [ none ↦ self.max | some b ↦ 0 ];
}

-- `recvBufferDitch`
unfoldable pub recv_buffer_ditch : RecvBuffer → ℕ → RecvBuffer
recv_buffer_ditch self len =
    if len == 0
    then self
    else if ltb len (length (content self))
    then record self { buffer = some (drop len (content self)) }
    else record self { buffer = none }

-- `recvBufferFetch`: an error, or the text without its terminator. Behind the end of the data it copies
-- what is no data: `none`.
unfoldable pub recv_buffer_fetch : RecvBuffer → ℕ → ℕ → Option (Option RecvError × Bytes)
recv_buffer_fetch self pos len = elim self.buffer [
  | none ↦ some (some err_no_buffered_data, [])
  | some buffer ↦
      if len == 0
      then some (some err_no_buffered_data, [])
      else if ltb (length buffer) pos
      then (if len == 1 then some (none, []) else none)
      else if ltb (length buffer - pos) len
      then some (none, take (length buffer - pos) (drop pos buffer))
      else some (none, take (len - 1) (drop pos buffer))
]

-- The inner loop of `recvBufferFind`; `none` is a read behind the data.
unfoldable pub match_token : Bytes → Bytes → Option Bool
match_token [] p = some true
match_token (t ∷ token) [] = none
match_token (t ∷ token) (c ∷ p) =
    let rest = match_token token p in if to_upper c == to_upper t then rest else some false

-- The outer loop of `recvBufferFind`, which leaves out the last byte of the data; `found` is `pos + i`.
unfoldable pub find_token_from : ℕ → Bytes → ℕ → ℕ → Bytes → Option (Option ℕ)
unfolding match_token
find_token_from len token found i [] = some none
find_token_from len token found i (c ∷ p) =
    let next = find_token_from len token (suc found) (suc i) p in
    let matched : Option (Option ℕ) = elim (match_token token (c ∷ p)) [
      | none ↦ none
      | some b ↦ if b then some (some found) else next
    ] in
    if length p == 0
    then some none
    else if to_upper c == to_upper (at token 0)
    then (if ltb len (i + length token) then some none else matched)
    else next

-- `recvBufferFind`. At the very end of the data the bound of its loop wraps: `none`.
unfoldable pub recv_buffer_find : RecvBuffer → ℕ → Bytes → Option (Option ℕ)
unfolding find_token_from
recv_buffer_find self pos token = elim self.buffer [
  | none ↦ some none
  | some buffer ↦
      if ltb (length buffer) pos
      then some none
      else if length buffer == pos
      then none
      else find_token_from (length buffer) token pos 0 (drop pos buffer)
]

-- `recvBufferSetLengthComplete`
unfoldable pub recv_buffer_set_length_complete : RecvBuffer → RecvBuffer
recv_buffer_set_length_complete self = record self { mode = length_complete }

-- `recvBufferSetLengthKnown`
unfoldable pub recv_buffer_set_length_known : RecvBuffer → ℕ → RecvBuffer
recv_buffer_set_length_known self length = record self { mode = length_known 0 length }

-- `recvBufferSetLengthUnknown`
unfoldable pub recv_buffer_set_length_unknown : RecvBuffer → ℕ → RecvBuffer
recv_buffer_set_length_unknown self limit = record self { mode = length_unknown 0 limit }

-- `recvBufferSetLengthToken`
unfoldable pub recv_buffer_set_length_token : RecvBuffer → Bytes → ℕ → RecvBuffer
recv_buffer_set_length_token self text length = record self { mode = length_token text length }
