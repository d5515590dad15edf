-- ===== src/Server/Http/Write/Heads.antt =====
-- The header writers stay inside the memory that they format into, but for one.
use newth.Prelude.{
  ℕ, ◌+◌, ◌≤◌, ◌<◌, ◌^◌, print_number, length-print_number, ◌≡◌, inl, inr, none, [], ◌∷◌, ◌++◌,
  arith, Bytes, codes, length, length-append, Bool-cases, lt→ltb, ◌==◌, if◌then◌else◌,
}
use newth.Prelude.Int.{pos}
use newth.Client.Io.{http_eol, http_res}
use newth.Platform.Socket.{Net}
use newth.Server.Http.Writer.Appends.{
  Appends, streamless, write_text-Appends, printf-Appends, printf_overflows, bind-Appends,
  bind_nil-Appends, flush-Appends, pure-Appends,
}
use newth.Server.Http.Write.{
  http_header_get_response, http_header_write_response_str, http_header_write_date,
  http_header_write_last_modified, http_header_write_content_type, http_header_write_content_length,
  http_header_write_end, http_body_write_text, finish_error, http_header_handle_error,
  http_header_write_file_name, base_name_from, print_offset,
}

-- The status line goes out whole, whatever the response text is.
pub http_header_write_response_str-Appends :
    (response : Bytes)
    → Appends
        (http_res ++ (b' ' ∷ (response ++ http_eol)))
        (http_header_write_response_str response)
unfolding http_header_write_response_str
http_header_write_response_str-Appends response =
    printf-Appends _ _ (omega (arith, length-append response http_eol))

pub http_header_write_date-Appends :
    (time : Bytes)
    → length time ≤ 29
    → Appends (codes "Date: " ++ (time ++ http_eol)) (http_header_write_date time)
unfolding http_header_write_date
http_header_write_date-Appends time h =
    printf-Appends _ _ (omega (arith, length-append time http_eol))

-- `httpHeaderWriteContentType` allocates one byte too few: on a buffer with no stream, whatever the
-- type and the character set, the text and its terminator do not fit and the write leaves the memory,
-- unless the header is too long to be written at all.
pub http_header_write_content_type_overflows :
    (sb_data_size idx client_socket options : ℕ) (net : Net) (type char_set : Bytes)
    → length type + length char_set + 18 < sb_data_size
    → http_header_write_content_type sb_data_size type char_set
        (streamless idx client_socket options net)
      ≡ none
unfolding http_header_write_content_type
http_header_write_content_type_overflows sb_data_size idx client_socket options net type char_set
      h =
    rw (lt→ltb (length type + length char_set + 17 + 1) sb_data_size (omega arith)) (
      printf_overflows (length type + length char_set + 17 + 1)
        (codes "Content-Type: " ++ (type ++ (codes "; " ++ (char_set ++ http_eol)))) idx
        client_socket options net
        (omega (
          arith,
          length-append type (codes "; " ++ (char_set ++ http_eol)),
          length-append char_set http_eol,
        )))

pub http_header_write_content_length-Appends :
    (n : ℕ)
    → n < 2 ^ 64
    → Appends
        (codes "Content-Length: " ++ (print_offset (pos n) ++ http_eol))
        (http_header_write_content_length (pos n))
unfolding http_header_write_content_length print_offset
http_header_write_content_length-Appends n h =
    printf-Appends _ _
      (omega (arith, length-append (print_number 10 n) http_eol, length-print_number n h))

pub http_header_write_last_modified-Appends :
    (time : Bytes)
    → length time ≤ 29
    → Appends (codes "Last-Modified: " ++ (time ++ http_eol)) (http_header_write_last_modified time)
unfolding http_header_write_last_modified
http_header_write_last_modified-Appends time h =
    printf-Appends _ _ (omega (arith, length-append time http_eol))

-- The file name header goes out whole, whatever the path is: the name is what follows the last '/'.
pub http_header_write_file_name-Appends :
    (path : Bytes)
    → Appends
        (codes "Content-Disposition: filename=\""
          ++ (base_name_from path path ++ (b'"' ∷ http_eol)))
        (http_header_write_file_name path)
unfolding http_header_write_file_name
http_header_write_file_name-Appends path =
    printf-Appends _ _ (omega (arith, length-append (base_name_from path path) (b'"' ∷ http_eol)))

-- Every response text that the server knows is short.
length-http_header_get_response : (error : ℕ) → length (http_header_get_response error) ≤ 35
unfolding http_header_get_response
length-http_header_get_response error = ground arith

-- What a client receives for an error: the head, and the response text as the body.
abbrev pub error_page : Bytes → ℕ → Bytes
error_page time error =
    let message = http_header_get_response error in
    (http_res ++ (b' ' ∷ (message ++ http_eol)))
    ++ ((codes "Date: " ++ (time ++ http_eol))
        ++ ((codes "Content-Length: " ++ (print_offset (pos (length message)) ++ http_eol))
            ++ (http_eol ++ message)))

finish_error-Appends :
    (sb_data_size : ℕ) (message : Bytes)
    → 0 < sb_data_size
    → Appends message (finish_error sb_data_size message)
unfolding finish_error http_body_write_text
finish_error-Appends sb_data_size message h =
    bind_nil-Appends message _ _ (write_text-Appends message) λ n. elim (Bool-cases (n == 0)) [
      | inl nothing ↦ rw nothing (pure-Appends {A = ℕ} 1)
      | inr some_sent ↦ rw some_sent (
          bind_nil-Appends [] _ _ (flush-Appends sb_data_size h)
            λ f. pure-Appends {A = ℕ} (if f == 0 then 1 else 0))
    ]

-- `httpHeaderHandleError` ends without a write out of bounds and with a valid buffer; unless the socket
-- fails, the traffic grows by exactly the error page, head and body, for a time of at most 29 bytes.
pub http_header_handle_error-Appends :
    (sb_data_size : ℕ) (time : Bytes) (error : ℕ)
    → 0 < sb_data_size
    → length time ≤ 29
    → Appends (error_page time error) (http_header_handle_error sb_data_size time error)
unfolding http_header_handle_error http_header_write_end
http_header_handle_error-Appends sb_data_size time error size_pos h =
    let message = http_header_get_response error in
    bind-Appends _ _ _ _ (http_header_write_response_str-Appends message) λ _.
      bind-Appends _ _ _ _ (http_header_write_date-Appends time h) λ _.
        bind-Appends _ _ _ _
          (http_header_write_content_length-Appends (length message)
            (omega (arith, length-http_header_get_response error)))
          λ _.
            bind-Appends _ _ _ _ (write_text-Appends http_eol)
              λ _. finish_error-Appends sb_data_size message size_pos
