-- ===== src/Client/Io.antt =====
-- src/client/io.c: requests, response headers and the sizes of chunks.
pub mod Chunk
mod Tests
use newth.Prelude.{
  ℕ, zero, suc, ◌+◌, ◌-◌, ◌*◌, ◌/◌, ◌%◌, ◌^◌, Bool, true, false, ◌&&◌, ◌||◌, Option, none, some,
  List, [], ◌∷◌, ◌++◌, ◌==◌, if◌then◌else◌, Bytes, codes, within, to_upper, split_at, split_on, at,
  drop, bit_and, bit_or,
}

abbrev pub http_eol : Bytes
http_eol = b'\r' ∷ b'\n' ∷ []

abbrev pub http_res : Bytes
http_res = codes "HTTP/1.1"

-- The range of `size_t`.
abbrev pub size_mod : ℕ
size_mod = 2 ^ 64

-- `IsValidHexCharacter`: the cases of the switch.
unfoldable pub is_valid_hex_character : ℕ → Bool
is_valid_hex_character c = within b'0' b'9' (to_upper c) || within b'A' b'F' (to_upper c)

-- The value of one character in `ioHttpBodyChunkHexToSize`.
unfoldable pub hex_digit : ℕ → ℕ
hex_digit c = bit_or (bit_and c 0xF + c / 2 ^ 6) (bit_and (c / 2 ^ 3) 0x8)

-- The loop of `ioHttpBodyChunkHexToSize`: `*value << 4` has four zero bits, into which the digit is
-- put. `none` is `ErrIllegalHexCharacter`.
unfoldable pub hex_to_size_from : ℕ → Bytes → Option ℕ
unfolding is_valid_hex_character hex_digit
hex_to_size_from value [] = some value
hex_to_size_from value (c ∷ hex) =
    let next = hex_to_size_from ((value * 16 + hex_digit c) % size_mod) hex in
    if is_valid_hex_character c then next else none

unfoldable pub io_http_body_chunk_hex_to_size : Bytes → Option ℕ
unfolding hex_to_size_from
io_http_body_chunk_hex_to_size hex = hex_to_size_from 0 hex

-- `ioHttpRequestGenerateSend`
unfoldable pub io_http_request_generate_send : Bytes → Bytes → Option Bytes → Bytes
io_http_request_generate_send type path none =
    type ++ (b' ' ∷ (path ++ (b' ' ∷ (http_res ++ (http_eol ++ http_eol)))))
io_http_request_generate_send type path (some extra) =
    type ++ (b' ' ∷ (path ++ (b' ' ∷ (http_res ++ (http_eol ++ (extra ++ http_eol))))))

-- `ioHttpRequestGenerateHead`
unfoldable pub io_http_request_generate_head : Bytes → Option Bytes → Bytes
unfolding io_http_request_generate_send
io_http_request_generate_head path extra = io_http_request_generate_send (codes "HEAD") path extra

-- `ioHttpRequestGenerateGet`
unfoldable pub io_http_request_generate_get : Bytes → Option Bytes → Bytes
unfolding io_http_request_generate_send
io_http_request_generate_get path extra = io_http_request_generate_send (codes "GET") path extra

-- `ioHttpResponseHeaderEssential`: the words before and after the first space of the first line.
-- `none` is "Not a valid header line".
unfoldable pub io_http_response_header_essential : Bytes → Option (Bytes × Bytes)
io_http_response_header_essential header_file = elim (split_on http_eol header_file) [
  | none ↦ none
  | some (line, _) ↦ elim (split_at b' ' line) [
    | none ↦ none
    | some (scheme, rest) ↦ some (scheme, drop 1 rest)
  ]
]
