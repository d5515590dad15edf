-- ===== src/Client/HttpSite/Response.antt =====
-- src/client/site/http.c: what the head of an answer says. `none` as the result of a function that reads
-- a length or a name is an overflow of a signed offset, or a read behind a text.
use newth.Prelude.{
  ℕ, ◌+◌, ◌-◌, ◌*◌, ◌^◌, Bool, true, false, ◌&&◌, ◌||◌, Option, none, some, [], ◌∷◌, ◌++◌, ◌==◌,
  if◌then◌else◌, Bytes, codes, length, drop, ltb, at, is_digit, split_at,
}
use newth.Client.Io.{http_eol}
use newth.Client.RecvBuffer.{platform_string_find_needle_raw}
use newth.Client.RecvBuffer.Header.{io_http_response_header_find, skip_spaces}
use newth.Client.Xml.{platform_string_find_word, up_to}

-- `HttpResponseOk`
unfoldable pub http_response_ok : Bytes → Bool
http_response_ok response = at response 0 == b'2'

-- The results of `HttpResponseToSystemError`: 0, the three errors, and -1
pub data SystemError : Type 0 where
  no_error efault eperm enoent no_match : SystemError

-- `HttpResponseToSystemError`
unfoldable pub http_response_to_system_error : Bytes → SystemError
http_response_to_system_error response =
    let c = at response 2 in
    if at response 0 == b'1'
    then SystemError.no_error
    else if at response 0 == b'2'
    then SystemError.no_error
    else if at response 0 == b'4' && at response 1 == b'0'
    then (if c == b'0'
        then SystemError.efault
        else if c == b'1'
        then SystemError.eperm
        else if c == b'2'
        then SystemError.eperm
        else if c == b'3'
        then SystemError.eperm
        else if c == b'4'
        then SystemError.enoent
        else SystemError.no_match)
    else SystemError.no_match

-- The results of `HttpResponseIsDir`: 0, 1 and -1
pub data Listing : Type 0 where
  no_listing a_listing unsure : Listing

-- `platformStringFindNeedle` in the value of a header, where there is one
unfoldable pub value_has : Option Bytes → Bytes → Bool
value_has none needle = false
value_has (some value) needle = elim (platform_string_find_needle_raw value needle) [
  | none ↦ false
  | some i ↦ true
]

-- `HttpResponseIsDir`
unfoldable pub http_response_is_dir : Bytes → Listing
unfolding value_has
http_response_is_dir header =
    if value_has (io_http_response_header_find header (codes "Content-Disposition"))
      (codes "attachment")
    then Listing.no_listing
    else if value_has (io_http_response_header_find header (codes "Content-Type"))
        (codes "text/html")
    then Listing.a_listing
    else Listing.unsure

-- The error of `HttpGetContentLength`
pub data LengthError : Type 0 where
  header_not_found value_caused_overflow value_contains_non_digit : LengthError

unfoldable pub skip_non_digits : Bytes → Bytes
skip_non_digits [] = []
skip_non_digits (c ∷ text) =
    let rest = skip_non_digits text in if is_digit c then c ∷ text else rest

-- The loop of `HttpGetContentLength`: `tmp` is the number so far, and so is `*length` whenever it goes on.
-- Behind the range of an offset the sum overflows: `none`.
unfoldable pub content_length_from : ℕ → Bytes → Option (Option LengthError × ℕ)
content_length_from length [] = some (none, length)
content_length_from length (c ∷ text) =
    let tmp = length * 10 + (c - b'0') in
    let next = content_length_from tmp text in
    if is_digit c
    then (if ltb tmp (2 ^ 63)
        then (if ltb length tmp
            then next
            else some (some LengthError.value_caused_overflow, length))
        else none)
    else some (some LengthError.value_contains_non_digit, length)

-- `HttpGetContentLength`, with the old value of `*length`
unfoldable pub http_get_content_length : Bytes → ℕ → Option (Option LengthError × ℕ)
unfolding skip_non_digits content_length_from
http_get_content_length header length =
    elim (io_http_response_header_find header (codes "content-length")) [
      | none ↦ some (some LengthError.header_not_found, length)
      | some cd ↦ content_length_from 0 (skip_non_digits (up_to b'\r' cd))
    ]

-- The fields of `HttpResponseHeader` that are read; of the date the text that `platformTimeGetFromHttpStr`
-- is given.
pub record HttpResponseHeader : Type 0 where
  pub modified_date : Option Bytes
  pub length : ℕ
  pub file_name : Option Bytes
  pub chunked_mode : Bool
  pub content_attachment : Bool

abbrev pub no_headers : HttpResponseHeader
no_headers = record {
  modified_date = none;
  length = 0;
  file_name = none;
  chunked_mode = false;
  content_attachment = false;
}

-- The text behind a quote, up to the quote that ends it; two quotes are passed over.
unfoldable pub quoted : Bytes → Bytes
quoted [] = []
quoted (c ∷ []) = if c == b'"' then [] else c ∷ []
quoted (c ∷ d ∷ text) =
    let both = c ∷ d ∷ quoted text in
    let on = c ∷ quoted (d ∷ text) in if c == b'"' then (if d == b'"' then both else []) else on

-- What is taken for the name behind `filename =`: the first byte is left out, a quote or not.
unfoldable pub name_behind : Bytes → Option (Option Bytes)
unfolding quoted
name_behind [] = none
name_behind (c ∷ text) =
    let name = if c == b'"' then quoted text else text in
    if length name == 0 then some none else some (some name)

-- `strchr(p, '=')` and what follows it
unfoldable pub file_name_at : Bytes → Option (Option Bytes)
unfolding name_behind
file_name_at p = elim (split_at b'=' p) [
  | none ↦ some none
  | some (_, s) ↦ name_behind (skip_spaces (drop 1 s))
]

-- The value of Content-Disposition in `HeadersPopulate`: whether it is an attachment, and the name.
unfoldable pub disposition : Bytes → Option (Bool × Option Bytes)
unfolding file_name_at
disposition v =
    let named : ℕ → Option (Bool × Option Bytes) =
      λ f. elim (file_name_at (drop f v)) [ none ↦ none | some name ↦ some (true, name) ] in
    elim (platform_string_find_needle_raw v (codes "attachment")) [
      | none ↦ elim (platform_string_find_needle_raw v (codes "filename")) [
        | none ↦ some (false, none)
        | some f ↦ named f
      ]
      | some p ↦ elim (platform_string_find_needle_raw v (codes "filename")) [
        | none ↦ some (true, none)
        | some f ↦ if ltb p f then named f else some (false, none)
      ]
    ]

-- "Transfer-Encoding" and "Content-Length" of `HeadersPopulate`
unfoldable pub populate_length : Bytes → HttpResponseHeader → Option HttpResponseHeader
populate_length header response =
    elim (io_http_response_header_find header (codes "Transfer-Encoding")) [
      | some v ↦ elim (platform_string_find_word v (codes "Chunked")) [
        | none ↦ some response
        | some i ↦ some (record response { chunked_mode = true })
      ]
      | none ↦ elim (http_get_content_length header response.length) [
        | none ↦ none
        | some (e, length) ↦ some (record response { length = length })
      ]
    ]

unfoldable pub populate_date : Bytes → HttpResponseHeader → HttpResponseHeader
populate_date header response = elim (io_http_response_header_find header (codes "Last-Modified")) [
  | none ↦ response
  | some v ↦ record response { modified_date = some v }
]

unfoldable pub populate_disposition : Bytes → HttpResponseHeader → Option HttpResponseHeader
unfolding disposition
populate_disposition header response =
    elim (io_http_response_header_find header (codes "Content-Disposition")) [
      | none ↦ some response
      | some v ↦ elim (disposition v) [
        | none ↦ none
        | some (attachment, name) ↦ some (record response {
          content_attachment = attachment || response.content_attachment;
          file_name = elim name [ none ↦ response.file_name | some n ↦ some n ];
        })
      ]
    ]

-- `HeadersPopulate` on an empty response
unfoldable pub headers_populate : Bytes → Option HttpResponseHeader
unfolding populate_length populate_date populate_disposition
headers_populate header = elim (populate_length header no_headers) [
  | none ↦ none
  | some response ↦ populate_disposition header (populate_date header response)
]

-- `GenerateHostHeader`, where the host is there, and `GenerateConnectionHeader`
unfoldable pub generate_host_header : Option Bytes → Bytes → Option Bytes
generate_host_header none host = some (codes "Host: " ++ (host ++ http_eol))
generate_host_header (some self) host = some (self ++ (codes "Host: " ++ (host ++ http_eol)))

unfoldable pub generate_connection_header : Option Bytes → Option Bytes
generate_connection_header none = some (codes "Connection: Keep-Alive" ++ http_eol)
generate_connection_header (some self) = some (self ++ (codes "Connection: Keep-Alive" ++ http_eol))
