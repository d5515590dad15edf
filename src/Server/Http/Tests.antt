-- ===== src/Server/Http/Tests.antt =====
-- Runs of the response writers, and their theorems at concrete inputs.
use newth.Prelude.{◌≡◌, some, none, [], ◌∷◌, Bytes, codes, arith}
use newth.Platform.Socket.{Net, Reply}
use newth.Client.Io.{io_http_body_chunk_hex_to_size}
use newth.Server.Http.Html.{convert_path_to_url}
use newth.Server.Http.Html.Links.{unescape-convert_path_to_url}
use newth.Hex.{unescape}
use newth.Server.Http.Writer.Appends.{Appends, streamless}
use newth.Server.Http.Write.{
  http_body_write_chunk, http_header_write_content_type, http_header_handle_error,
}
use newth.Server.Http.Write.Heads.{
  error_page, http_header_write_content_type_overflows, http_header_handle_error-Appends,
}
use newth.Server.Http.Write.Chunks.{chunk, http_body_write_chunk-Appends}

abbrev date : Bytes
date = codes "Sun, 06 Nov 1994 08:49:37 GMT"

abbrev net : Net
net = record { replies = Reply.room 99 ∷ []; wire = [] }

http_header_handle_error-Appends_example :
    Appends (error_page date 404) (http_header_handle_error 8192 date 404)
http_header_handle_error-Appends_example =
    http_header_handle_error-Appends 8192 date 404 (omega arith) (omega arith)

http_header_write_content_type_overflows_example :
    http_header_write_content_type 8192 (codes "text/html") [] (streamless 0 3 0 net) ≡ none
http_header_write_content_type_overflows_example =
    http_header_write_content_type_overflows 8192 0 3 0 net (codes "text/html") [] (omega arith)

http_body_write_chunk-Appends_example :
    (size : Bytes) × Appends (chunk size (codes "<UL>")) (http_body_write_chunk (codes "<UL>"))
    × (io_http_body_chunk_hex_to_size size ≡ some 4)
http_body_write_chunk-Appends_example = http_body_write_chunk-Appends (codes "<UL>") (omega arith)

unescape-convert_path_to_url_example :
    ((convert_path_to_url (codes "/a b") 4096).0 ≡ 0)
    × (unescape (convert_path_to_url (codes "/a b") 4096).1 ≡ some (codes "/a b"))
unescape-convert_path_to_url_example =
    unescape-convert_path_to_url (codes "/a b") 4096
      (
        omega arith,
        omega arith,
        (omega arith, omega arith, (omega arith, omega arith, (omega arith, omega arith, tt))),
      )
      (omega arith)
