-- ===== src/Server/Http/Write.antt =====
-- src/server/http.c: response headers and bodies, in the default build, where
-- `HTTP_HEADER_CONNECTION_NO_REUSE_WRITE` is empty. The callbacks of src/server/event.c only watch.
pub mod Chunks
pub mod Heads
use newth.Prelude.{
  ℕ, ◌+◌, ◌-◌, ◌^◌, Option, none, some, List, [], ◌∷◌, ◌++◌, ◌==◌, if◌then◌else◌, Bytes, codes,
  length, ltb, print_number, drop, split_at,
}
use newth.Prelude.Int.{ℤ, pos, negsuc, ◌-ℤ◌, eq_ℤ}
use newth.Client.Io.{http_eol, http_res}
use newth.Server.Http.Writer.{M, pure, ◌>>=◌, ◌>>◌, write_text, printf, flush}

-- `%lu` of a file offset, which is signed: a negative one wraps.
unfoldable pub print_offset : ℤ → Bytes
print_offset (pos n) = print_number 10 n
print_offset (negsuc n) = print_number 10 (2 ^ 64 - (n + 1))

-- `httpHeaderGetResponse`
unfoldable pub http_header_get_response : ℕ → Bytes
http_header_get_response response =
    if response == 200
    then codes "200 OK"
    else if response == 204
    then codes "204 No Content"
    else if response == 206
    then codes "206 Partial Content"
    else if response == 304
    then codes "304 Not Modified"
    else if response == 404
    then codes "404 Not Found"
    else if response == 431
    then codes "431 Request Header Fields Too Large"
    else codes "500 Internal Server Error"

-- `httpHeaderWriteResponseStr`
unfoldable pub http_header_write_response_str : Bytes → M ℕ
http_header_write_response_str response =
    let len = length http_res + length response + length http_eol + 2 in
    printf len (http_res ++ (b' ' ∷ (response ++ http_eol)))

-- `httpHeaderWriteResponse`
unfoldable pub http_header_write_response : ℕ → M ℕ
unfolding http_header_write_response_str
http_header_write_response response =
    http_header_write_response_str (http_header_get_response response)

-- `httpHeaderWriteAcceptRanges`
unfoldable pub http_header_write_accept_ranges : M ℕ
http_header_write_accept_ranges = write_text (codes "Accept-Ranges: bytes" ++ http_eol)

-- `httpHeaderWriteRange`
unfoldable pub http_header_write_range : ℕ → ℤ → ℤ → ℤ → M ℕ
http_header_write_range sb_data_size start finish file_length =
    let last = if eq_ℤ finish file_length then finish -ℤ pos 1 else finish in
    printf sb_data_size (
      codes "Content-Range: bytes "
      ++ (print_offset start
          ++ (b'-' ∷ (print_offset last ++ (b'/' ∷ (print_offset file_length ++ http_eol))))))

-- `httpHeaderWriteConnectionClose`
unfoldable pub http_header_write_connection_close : M ℕ
http_header_write_connection_close = write_text (codes "Connection: close" ++ http_eol)

-- `httpHeaderWriteDate`, where `time` is what `platformGetCurrentTime` gives
unfoldable pub http_header_write_date : Bytes → M ℕ
http_header_write_date time = printf 40 (codes "Date: " ++ (time ++ http_eol))

-- `httpHeaderWriteLastModified`, where `time` is what `platformGetTime` gives
unfoldable pub http_header_write_last_modified : Bytes → M ℕ
http_header_write_last_modified time = printf 50 (codes "Last-Modified: " ++ (time ++ http_eol))

-- `httpHeaderWriteChunkedEncoding`
unfoldable pub http_header_write_chunked_encoding : M ℕ
http_header_write_chunked_encoding = write_text (codes "Transfer-Encoding: chunked" ++ http_eol)

-- `httpHeaderWriteContentLength`
unfoldable pub http_header_write_content_length : ℤ → M ℕ
http_header_write_content_length n =
    printf 80 (codes "Content-Length: " ++ (print_offset n ++ http_eol))

-- `httpHeaderWriteContentType`
unfoldable pub http_header_write_content_type : ℕ → Bytes → Bytes → M ℕ
http_header_write_content_type sb_data_size type char_set =
    let len = length type + length char_set + length (codes "Content-Type: ;" ++ http_eol) + 1 in
    if ltb len sb_data_size
    then printf len (codes "Content-Type: " ++ (type ++ (codes "; " ++ (char_set ++ http_eol))))
    else pure 0

-- `httpHeaderWriteEnd`
unfoldable pub http_header_write_end : M ℕ
http_header_write_end = write_text http_eol

-- The text behind the last '/' of a path, or the whole path: `strrchr(path, '/')`.
unfoldable pub base_name_from : Bytes → Bytes → Bytes
base_name_from name [] = name
base_name_from name (c ∷ path) = base_name_from (if c == b'/' then path else name) path

-- `httpHeaderWriteFileName`
unfoldable pub http_header_write_file_name : Bytes → M ℕ
unfolding base_name_from
http_header_write_file_name path =
    let name = base_name_from path path in
    printf (length name + 40)
      (codes "Content-Disposition: filename=\"" ++ (name ++ (b'"' ∷ http_eol)))

-- `httpBodyWriteText`
unfoldable pub http_body_write_text : Bytes → M ℕ
http_body_write_text text = write_text text

-- `httpBodyWriteChunk`
unfoldable pub http_body_write_chunk : Bytes → M ℕ
http_body_write_chunk buffer = do
  r ← write_text (print_number 16 (length buffer) ++ http_eol)
  s ← write_text buffer
  t ← write_text http_eol
  pure (r + s + t)

-- `httpBodyWriteChunkEnding`
unfoldable pub http_body_write_chunk_ending : ℕ → M ℕ
http_body_write_chunk_ending sb_data_size = do
  n ← write_text (b'0' ∷ (http_eol ++ http_eol))
  if n == 0 then pure 0 else flush sb_data_size

-- The end of `httpHeaderHandleError`: 1 when the body or the flush comes to nothing.
unfoldable pub finish_error : ℕ → Bytes → M ℕ
unfolding http_body_write_text
finish_error sb_data_size message = do
  n ← http_body_write_text message
  if n == 0 then pure 1 else (flush sb_data_size >>= λ f. pure (if f == 0 then 1 else 0))

-- `httpHeaderHandleError`
unfoldable pub http_header_handle_error : ℕ → Bytes → ℕ → M ℕ
unfolding http_header_write_response_str http_header_write_date finish_error
http_header_handle_error sb_data_size time error = do
  let message = http_header_get_response error
  http_header_write_response_str message
  http_header_write_date time
  http_header_write_content_length (pos (length message))
  http_header_write_end
  finish_error sb_data_size message
