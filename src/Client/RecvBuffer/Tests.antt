-- ===== src/Client/RecvBuffer/Tests.antt =====
-- Runs of the receive buffer, and its theorems at concrete inputs.
use newth.Prelude.{
  ℕ, zero, suc, ◌<◌, ◌≡◌, refl, drop, split_on, true, false, none, some, [], ◌∷◌, ◌++◌, Option,
  codes, arith, Bytes,
}
use newth.Platform.Socket.{Reply}
use newth.Platform.Receive.{Inbound, recv, peek}
use newth.Client.Io.{http_eol, io_http_body_chunk_hex_to_size}
use newth.Client.RecvBuffer.{
  RecvBuffer, content, recv_buffer_find, platform_string_find_needle_raw, same_start, length_known,
  length_chunk,
}
use newth.Client.RecvBuffer.Find.{First, recv_buffer_find-First}
use newth.Client.RecvBuffer.Append.{recv_buffer_append}
use newth.Client.RecvBuffer.Header.{
  header_end, io_http_response_header_read, io_http_response_header_find,
}
use newth.Client.RecvBuffer.Header.Read.{Comes, io_http_response_header_read-Comes}
use newth.Client.RecvBuffer.Header.Value.{from_value, io_http_response_header_find-value}

abbrev slow : Inbound
slow = record {
  replies = Reply.room 1 ∷ Reply.would_block ∷ Reply.room 9 ∷ [];
  stream = codes "hello, world";
}

abbrev wants_five : RecvBuffer
wants_five = record { buffer = none; max = 0; mode = length_known 0 5; inbound = slow }

-- Blocks go in whole: the last one brings more than the five bytes.
reads_blocks : content (recv_buffer_append 4 wants_five 8).1 ≡ codes "hello,"
unfolding recv_buffer_append recv
reads_blocks = refl

abbrev chunked : RecvBuffer
chunked = record {
  buffer = none;
  max = 0;
  mode = length_chunk none 0;
  inbound = record {
    replies = [];
    stream =
        codes "5"
        ++ (http_eol
            ++ (codes "hello"
                ++ (http_eol
                    ++ (codes "2"
                        ++ (http_eol
                            ++ (codes ", " ++ (http_eol ++ (codes "0" ++ header_end))))))));
  };
}

reads_chunks : content (recv_buffer_append 4 chunked 20).1 ≡ codes "hello, "
unfolding recv_buffer_append peek io_http_body_chunk_hex_to_size recv split_on
reads_chunks = refl

abbrev filled : RecvBuffer
filled = record wants_five { buffer = some (codes "say Hello, hello"); max = 16 }

finds : recv_buffer_find filled 0 (codes "hello") ≡ some (some 4)
unfolding recv_buffer_find
finds = refl

recv_buffer_find-First_example :
    (r : Option ℕ) × (recv_buffer_find filled 0 (codes "hello") ≡ some r)
    × (platform_string_find_needle_raw (content filled) (codes "hello") ≡ r)
    × First (content filled) (codes "hello") r
recv_buffer_find-First_example =
    recv_buffer_find-First filled (codes "hello") (omega arith) (omega arith)

abbrev answered : RecvBuffer
answered = record {
  buffer = none;
  max = 0;
  mode = length_known 0 0;
  inbound = record {
    replies = Reply.room 20 ∷ Reply.would_block ∷ [];
    stream =
        codes "HTTP/1.1 200 OK" ++ (http_eol ++ (codes "A: b" ++ (header_end ++ codes "body")));
  };
}

io_http_response_header_read-Comes_example :
    Comes answered (io_http_response_header_read 8 answered)
io_http_response_header_read-Comes_example =
    io_http_response_header_read-Comes 8 answered (omega arith) tt

abbrev head : Bytes
head = codes "A: b" ++ http_eol

-- The places before the header
not_before :
    (j : ℕ)
    → j < 6
    → same_start
        (codes "Date")
        (drop j (head ++ (codes "Date" ++ (b':' ∷ b' ' ∷ from_value (codes "now") head))))
      ≡ false
unfolding same_start
not_before zero h = refl
not_before (suc zero) h = refl
not_before (suc (suc zero)) h = refl
not_before (suc (suc (suc zero))) h = refl
not_before (suc (suc (suc (suc zero)))) h = refl
not_before (suc (suc (suc (suc (suc zero))))) h = refl
not_before (suc (suc (suc (suc (suc (suc j)))))) h = absurd (omega (arith, h))

date_here :
    same_start (codes "Date") (codes "Date" ++ (b':' ∷ b' ' ∷ from_value (codes "now") head)) ≡ true
unfolding same_start
date_here = refl

io_http_response_header_find-value_example :
    io_http_response_header_find
      (head ++ (codes "Date" ++ (b':' ∷ b' ' ∷ from_value (codes "now") head)))
      (codes "Date")
    ≡ some (codes "now")
io_http_response_header_find-value_example =
    io_http_response_header_find-value head (codes "Date") (codes "Date") (codes "now") head
      (omega arith) (omega arith) (omega arith) (omega arith) (date_here, not_before)
