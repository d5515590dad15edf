-- ===== src/Client/RecvBuffer/Append.antt =====
-- src/client/recvbufr.c: `recvBufferAppend`, with and without the encoding by chunks, and the searches
-- that read on until a token is there. A block is `SB_DATA_SIZE` bytes; what a peek has shown is there
-- when it is taken from the socket.
pub mod Lengths
pub mod Loop
use newth.Prelude.{
  c_string, ℕ, zero, suc, ◌+◌, ◌-◌, ◌^◌, Bool, true, false, ◌&&◌, ◌||◌, min, Option, none, some, [],
  ◌∷◌, ◌++◌, ◌==◌, if◌then◌else◌, Bytes, length, drop, take, ltb, leb, split_on,
}
use newth.Platform.Receive.{Inbound, Received, recv, peek}
use newth.Client.Io.{http_eol, io_http_body_chunk_hex_to_size}
use newth.Client.RecvBuffer.{
  RecvError, LengthMode, RecvBuffer, Appended, content, buffer_append, data_increment,
  recv_buffer_set_length_complete, recv_buffer_find, recv_buffer_ditch,
}

-- What `recvBufferAppend` does with the result of `recv`; `next` is the next round of the loop.
unfoldable pub after_recv :
    Received × Inbound → Bool → RecvBuffer → (ℕ → RecvBuffer → Appended) → Appended
unfolding data_increment buffer_append
after_recv (Received.failed, inbound) started self next =
    (some RecvError.socket_error, record self { inbound = inbound })
after_recv (Received.received got, inbound) started self next =
    let taken = record self { inbound = inbound } in
    let self' = buffer_append taken got in
    let (finished, mode) = data_increment self'.mode (content self') (length got) in
    let more =
      if finished
      then (none, record self' { mode = mode })
      else next (length got) (record self' { mode = mode }) in
    if length got == 0
    then (if started then (none, taken) else (some RecvError.err_no_data_to_be_retrieved, taken))
    else more

-- What `AppendWait` takes of bytes that a peek has shown
abbrev pub consume : ℕ → Inbound → Inbound
consume l inbound = record inbound { stream = drop l inbound.stream }

-- The digits of the next size and how many bytes of `b` they end after; `none` is a malformed encoding.
unfoldable pub chunk_head : Bool → Bytes → Option (Bytes × ℕ)
unfolding c_string
chunk_head first b =
    let ends : ℕ → Bytes → Option (Bytes × ℕ) = λ skipped text. elim (split_on http_eol text) [
      | none ↦ none
      | some (hex, rest) ↦ some (hex, skipped + length hex + 2)
    ] in
    if first then ends 0 (c_string b) else elim (split_on http_eol (c_string b)) [
      | none ↦ none
      | some (before, rest) ↦ ends (length before + 2) (drop 2 rest)
    ]

abbrev pub is_first : Option ℕ → Bool
is_first none = true
is_first (some n) = false

module _ (sb_data_size : ℕ) where
  -- The loop of `recvBufferAppend`, with `n` bytes left to read. Each round reads a byte or returns, so
  -- fuel `n` is enough.
  unfoldable pub append_loop : ℕ → ℕ → Bool → RecvBuffer → Appended
  unfolding after_recv
  append_loop zero n started self = (none, self)
  append_loop (suc fuel) n started self =
      if n == 0
      then (none, self)
      else after_recv (recv (min n sb_data_size) self.inbound) started self
          (λ got self'. append_loop fuel (n - got) true self')

  -- What the loop of `recvBufferAppendChunk` does with `s` bytes that it asked for in a chunk with `next`
  -- bytes left. No more than those are asked for, so its branch for more is never taken.
  unfoldable pub after_chunk_peek :
      Received × Inbound → ℕ → ℕ → ℕ → ℕ → RecvBuffer → (ℕ → ℕ → RecvBuffer → Appended) → Appended
  unfolding buffer_append
  after_chunk_peek (Received.failed, inbound) s len next total self more =
      (some RecvError.socket_error, record self { inbound = inbound })
  after_chunk_peek (Received.received got, inbound) s len next total self more =
      let l = length got in
      let self' = record (buffer_append (record self { inbound = consume l inbound }) got) {
        mode = LengthMode.length_chunk (some (next - l)) total;
      } in
      let on = more (len - l) (next - l) self' in if ltb l s then (none, self') else on

  -- The rest of the parse once the digits are read. A size from 2 ^ 63 on is negative there.
  unfoldable pub after_chunk_size :
      Option ℕ → ℕ → Inbound → ℕ → RecvBuffer → (ℕ → RecvBuffer → Appended) → Appended
  unfolding recv_buffer_set_length_complete
  after_chunk_size none j inbound total self more =
      (some RecvError.err_illegal_hex_character, record self { inbound = inbound })
  after_chunk_size (some l) j inbound total self more =
      let taken = record self { inbound = consume j inbound } in
      let on = more l (record taken { mode = LengthMode.length_chunk (some l) total }) in
      if ltb 0 l && ltb l (2 ^ 63) then on else (none, recv_buffer_set_length_complete taken)

  -- The parse of the next size in `recvBufferAppendChunk`
  unfoldable pub after_head_peek :
      Received × Inbound → Bool → ℕ → RecvBuffer → (ℕ → RecvBuffer → Appended) → Appended
  unfolding chunk_head after_chunk_size
  after_head_peek (Received.failed, inbound) first total self more =
      (some RecvError.socket_error, record self { inbound = inbound })
  after_head_peek (Received.received b, inbound) first total self more =
      let waiting = record self { inbound = inbound } in
      let parsed : Appended = elim (chunk_head first b) [
        | none ↦ (some RecvError.err_malformed_chunk_encoding, waiting)
        | some (hex, j) ↦
            after_chunk_size (io_http_body_chunk_hex_to_size hex) j inbound total self more
      ] in
      if ltb (length b) (if first then 3 else 5) then (none, waiting) else parsed

  -- `recvBufferAppendChunk` from its loop on, or from the parse where `next` is `none`. A step reads a
  -- byte or returns, so fuel above the length of the stream is enough.
  unfoldable pub chunk_loop : ℕ → ℕ → Option ℕ → ℕ → RecvBuffer → Appended
  unfolding after_chunk_peek after_head_peek
  chunk_loop zero len next total self = (none, self)
  chunk_loop (suc fuel) len next total self =
      let parse =
        after_head_peek (peek 19 self.inbound) (is_first next) total self
          (λ l self'. chunk_loop fuel len (some l) total self') in
      elim next [
        | none ↦ parse
        | some m ↦
            if len == 0
            then (none, self)
            else if m == 0
            then parse
            else (let s = min (min m len) sb_data_size in
                after_chunk_peek (peek s self.inbound) s len m total self
                  (λ len' m' self'. chunk_loop fuel len' (some m') total self'))
      ]

  -- `recvBufferAppend` once there is a buffer
  unfoldable pub append_by : LengthMode → ℕ → RecvBuffer → Appended
  unfolding append_loop chunk_loop
  append_by (LengthMode.length_chunk next total) len self =
      chunk_loop (suc (length self.inbound.stream)) len next total self
  append_by _ len self = append_loop len len false self

  abbrev pub is_complete : LengthMode → Bool
  is_complete LengthMode.length_complete = true
  is_complete _ = false

  -- `recvBufferAppend`
  unfoldable pub recv_buffer_append : RecvBuffer → ℕ → Appended
  unfolding append_by
  recv_buffer_append self len =
      let ready : RecvBuffer = elim self.buffer [
        | none ↦ record self { buffer = some []; max = sb_data_size }
        | some b ↦ self
      ] in
      if is_complete self.mode
      then (some RecvError.err_request_completed, self)
      else append_by self.mode len ready
