-- ===== src/Client/Io/Tests.antt =====
-- Runs of the request and chunk functions, and their theorems at concrete inputs.
use newth.Prelude.{◌≡◌, refl, some, none, codes, arith, print_number, split_on, split_at}
use newth.Client.Io.{
  io_http_body_chunk_hex_to_size, io_http_request_generate_get, io_http_response_header_essential,
}
use newth.Client.Io.Chunk.{
  reduced, base_sixteen, io_http_body_chunk_hex_to_size-print_number,
  io_http_body_chunk_hex_to_size_lem,
}

sizes :
    (io_http_body_chunk_hex_to_size (codes "fF0") ≡ some 4080)
    × (io_http_body_chunk_hex_to_size (codes "10000000000000002") ≡ some 2)
    × (io_http_body_chunk_hex_to_size (codes "0x1") ≡ none)
unfolding io_http_body_chunk_hex_to_size
sizes = (refl, refl, refl)

request : io_http_request_generate_get (codes "/a") none ≡ codes "GET /a HTTP/1.1\r\n\r\n"
unfolding io_http_request_generate_get
request = refl

status_line :
    io_http_response_header_essential (codes "HTTP/1.1 200 OK\r\nDate: x\r\n")
    ≡ some (codes "HTTP/1.1", codes "200 OK")
unfolding io_http_response_header_essential split_on split_at
status_line = refl

io_http_body_chunk_hex_to_size-print_number_example :
    io_http_body_chunk_hex_to_size (print_number 16 48879) ≡ some 48879
io_http_body_chunk_hex_to_size-print_number_example =
    io_http_body_chunk_hex_to_size-print_number 48879 (omega arith)

io_http_body_chunk_hex_to_size_lem_example :
    io_http_body_chunk_hex_to_size (codes "2Af") ≡ reduced (base_sixteen 0 (codes "2Af"))
io_http_body_chunk_hex_to_size_lem_example = io_http_body_chunk_hex_to_size_lem (codes "2Af")
