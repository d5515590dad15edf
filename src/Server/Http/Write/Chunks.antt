-- ===== src/Server/Http/Write/Chunks.antt =====
-- The chunked body: what the server frames, the client can measure.
use newth.Prelude.{ℕ, ◌+◌, ◌<◌, ◌≡◌, some, ◌++◌, Bytes, length, print_number}
use newth.Client.Io.{http_eol, size_mod, io_http_body_chunk_hex_to_size}
use newth.Client.Io.Chunk.{io_http_body_chunk_hex_to_size-print_number}
use newth.Server.Http.Writer.Appends.{
  Appends, write_text-Appends, bind-Appends, bind_nil-Appends, pure-Appends,
}
use newth.Server.Http.Write.{http_body_write_chunk}

-- A chunk of the body, as RFC 7230 has it: the size in hexadecimal, the bytes, and two line ends.
abbrev pub chunk : Bytes → Bytes → Bytes
chunk size buffer = (size ++ http_eol) ++ (buffer ++ http_eol)

pub http_body_write_chunk-framed :
    (buffer : Bytes)
    → Appends (chunk (print_number 16 (length buffer)) buffer) (http_body_write_chunk buffer)
unfolding http_body_write_chunk
http_body_write_chunk-framed buffer =
    bind-Appends (print_number 16 (length buffer) ++ http_eol) (buffer ++ http_eol) _ _
      (write_text-Appends (print_number 16 (length buffer) ++ http_eol))
      λ r. bind-Appends buffer http_eol _ _ (write_text-Appends buffer) λ s.
        bind_nil-Appends http_eol _ _ (write_text-Appends http_eol)
          λ t. pure-Appends {A = ℕ} (r + s + t)

-- `httpBodyWriteChunk` frames every buffer shorter than 2 ^ 64 as one chunk whose size line is read
-- back by the client's `ioHttpBodyChunkHexToSize` as the length of the buffer; nothing else is
-- appended to the traffic unless the socket fails.
pub http_body_write_chunk-Appends :
    (buffer : Bytes)
    → length buffer < size_mod
    → (size : Bytes) × Appends (chunk size buffer) (http_body_write_chunk buffer)
      × (io_http_body_chunk_hex_to_size size ≡ some (length buffer))
http_body_write_chunk-Appends buffer h = (
  print_number 16 (length buffer),
  http_body_write_chunk-framed buffer,
  io_http_body_chunk_hex_to_size-print_number (length buffer) h,
)
