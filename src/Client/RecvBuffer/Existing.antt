-- ===== src/Client/RecvBuffer/Existing.antt =====
-- src/client/recvbufr.c: `recvBufferSetLengthChunk`, which takes the sizes of the chunks out of what is in
-- the buffer already.
use newth.Prelude.{
  c_string, ℕ, zero, suc, ◌+◌, ◌-◌, Bool, true, false, Option, none, some, ◌++◌, ◌==◌,
  if◌then◌else◌, Bytes, length, drop, take, ltb, split_on,
}
use newth.Platform.Receive.{Inbound, Received, recv, peek}
use newth.Client.Io.{http_eol, io_http_body_chunk_hex_to_size}
use newth.Client.RecvBuffer.{
  LengthMode, RecvBuffer, content, recv_buffer_fetch, recv_buffer_clear,
  recv_buffer_set_length_unknown,
}

-- Whether the socket was closed, and the buffer
abbrev pub ChunkSet : Type 0
ChunkSet = Bool × RecvBuffer

-- The end at `HttpChunkParseExistingBuffer_abort`
unfoldable pub abort_chunks : RecvBuffer → ChunkSet
unfolding recv_buffer_clear recv_buffer_set_length_unknown
abort_chunks self = (true, recv_buffer_set_length_unknown (recv_buffer_clear self) 0)

-- The text of a size is taken out at `total`, where it and its line ends are `i` bytes long: `none` is a
-- move outside the data.
unfoldable pub take_out : ℕ → ℕ → RecvBuffer → Option RecvBuffer
take_out total i self =
    let b = content self in
    if ltb (length b) (total + i)
    then none
    else some (record self { buffer = some (take total b ++ drop (total + i) b) })

-- The size line in what was fetched is read. A malformed size leaves all as it is, so that the loop goes
-- round again.
unfoldable pub after_size_line :
    Bytes → ℕ → RecvBuffer → (ℕ → RecvBuffer → Option ChunkSet) → Option ChunkSet
unfolding take_out
after_size_line hex total self again =
    let same = again total self in
    let i = length hex + (if total == 0 then 2 else 4) in
    elim (io_http_body_chunk_hex_to_size hex) [
      | none ↦ same
      | some s ↦ elim (take_out total i self) [ none ↦ none | some self' ↦ again (total + s) self' ]
    ]

-- The line goes on in what is still to come: it is shown over the fetched text, and taken as far as its end.
unfoldable pub after_overlap :
    Received × Inbound → Bytes → RecvBuffer → (RecvBuffer → Option ChunkSet) → Option ChunkSet
unfolding abort_chunks
after_overlap (Received.failed, inbound) fetched self again =
    some (abort_chunks (record self { inbound = inbound }))
after_overlap (Received.received got, inbound) fetched self again =
    let shown = c_string (got ++ drop (length got) fetched) in
    elim (split_on http_eol shown) [
      | none ↦ some (abort_chunks (record self { inbound = inbound }))
      | some (p, _) ↦
          let n = length p + 2 in
          let taken = (recv n inbound).1 in
          let len = length (content self) + n in
          again (record self {
            buffer = some (content self ++ take n shown);
            max = if ltb self.max len then len else self.max;
            inbound = taken;
          })
    ]

-- The loop of `HttpChunkParseExistingBuffer`; `none` is a fault or a loop that goes on for longer than its
-- fuel.
unfoldable pub parse_chunks : ℕ → ℕ → RecvBuffer → Option ChunkSet
unfolding after_size_line after_overlap
parse_chunks zero total self = none
parse_chunks (suc fuel) total self =
    let line : Option ChunkSet =
      elim (recv_buffer_fetch self (if total == 0 then total else total + 2) 20) [
        | none ↦ none
        | some (e, fetched) ↦
            let hex = c_string fetched in
            elim (split_on http_eol hex) [
              | some (size, _) ↦
                  after_size_line size total self (λ total' self'. parse_chunks fuel total' self')
              | none ↦
                  after_overlap (peek 19 self.inbound) fetched self
                    (λ self'. parse_chunks fuel total self')
            ]
      ] in
    if ltb total (length (content self))
    then line
    else some (
      false,
      record self { mode = LengthMode.length_chunk (some (total - length (content self))) total },
    )

-- `recvBufferSetLengthChunk`
unfoldable pub recv_buffer_set_length_chunk : ℕ → RecvBuffer → Option ChunkSet
unfolding parse_chunks
recv_buffer_set_length_chunk fuel self =
    if length (content self) == 0
    then some (false, record self { mode = LengthMode.length_chunk none 0 })
    else parse_chunks fuel 0 self
