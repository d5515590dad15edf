-- ===== src/Client/HttpSite/Tests.antt =====
-- Runs of the HTTP site, and its theorems at concrete inputs.
use newth.Prelude.{
  c_string, ◌≡◌, refl, true, false, none, some, [], ◌∷◌, ◌++◌, codes, arith, Bytes, split_at,
  split_on, print_number, starts_with, digits_from,
}
use newth.Prelude.Int.{pos}
use newth.Platform.Socket.{Reply}
use newth.Platform.Receive.{recv}
use newth.Client.Io.{http_eol, io_http_body_chunk_hex_to_size}
use newth.Client.RecvBuffer.{
  LengthMode, RecvBuffer, length_known, platform_string_find_needle_raw, recv_buffer_fetch,
}
use newth.Client.RecvBuffer.Append.{recv_buffer_append}
use newth.Client.Xml.{up_to}
use newth.Client.RecvBuffer.Find.{First, needle-First}
use newth.Client.RecvBuffer.Header.{skip_spaces, io_http_response_header_find}
use newth.Client.RecvBuffer.Header.Value.{from_value}
use newth.Client.RecvBuffer.Existing.{recv_buffer_set_length_chunk}
use newth.Client.Uri.{uri_details_new_from}
use newth.Server.Http.Writer.Appends.{Appends}
use newth.Server.Http.Write.{
  http_header_write_content_length, http_header_write_file_name, base_name_from,
}
use newth.Client.HttpSite.Response.{
  LengthError, no_headers, http_get_content_length, populate_disposition, disposition,
}
use newth.Client.HttpSite.Path.{link_path_is_direct_sub, link_path_convert_to_relative_subdirectory}
use newth.Client.HttpSite.Body.{http_site_scheme_file_read}
use newth.Client.HttpSite.Lengths.{http_get_content_length-written}
use newth.Client.HttpSite.FileNames.{with_name, populate_disposition-written}
use newth.Client.HttpSite.Reads.{Delivers, http_site_scheme_file_read-Delivers}

-- A length of 0 is taken for an overflow, and one that begins with 0 too.
zero_length :
    http_get_content_length (codes "Content-Length: 0" ++ http_eol) 7
    ≡ some (some LengthError.value_caused_overflow, 0)
unfolding http_get_content_length io_http_response_header_find platform_string_find_needle_raw
    split_at up_to
zero_length = refl

-- Without quotes the first byte of the name is lost.
unquoted_name : disposition (codes "attachment; filename=name") ≡ some (true, some (codes "ame"))
unfolding disposition platform_string_find_needle_raw split_at skip_spaces
unquoted_name = refl

direct :
    link_path_is_direct_sub
      (uri_details_new_from (some (codes "http://h/a")))
      (codes "/a")
      (codes "/a/b/")
    ≡ some true
unfolding link_path_is_direct_sub split_on starts_with split_at
direct = refl

deeper :
    link_path_is_direct_sub
      (uri_details_new_from (some (codes "http://h/a")))
      (codes "/a")
      (codes "/a/b/c")
    ≡ some false
unfolding link_path_is_direct_sub split_on starts_with split_at
deeper = refl

relative : link_path_convert_to_relative_subdirectory (codes "/a/b/") ≡ codes "b/"
unfolding link_path_convert_to_relative_subdirectory
relative = refl

abbrev chunks : RecvBuffer
chunks = record {
  buffer = some (
      codes "5"
      ++ (http_eol ++ (codes "hello" ++ (http_eol ++ (codes "9" ++ (http_eol ++ codes "wor"))))));
  max = 64;
  mode = length_known 0 0;
  inbound = record { replies = []; stream = codes "ld" };
}

-- The sizes of the chunks are taken out of the buffer.
existing :
    recv_buffer_set_length_chunk 9 chunks
    ≡ some (
      false,
      record chunks {
        buffer = some (codes "hellowor");
        mode = LengthMode.length_chunk (some 6) 14;
      },
    )
unfolding recv_buffer_set_length_chunk split_on io_http_body_chunk_hex_to_size recv_buffer_fetch
    c_string
existing = refl

length_at :
    First
      (codes "Content-Length: " ++ from_value (print_number 10 42) [])
      (codes "content-length")
      (some 0)
unfolding platform_string_find_needle_raw print_number digits_from
length_at =
    needle-First (codes "Content-Length: " ++ from_value (print_number 10 42) [])
      (codes "content-length") (some 0) (omega arith) (omega arith) refl

http_get_content_length-written_example :
    (line : Bytes) × Appends line (http_header_write_content_length (pos 42))
    × (http_get_content_length (line ++ []) 7 ≡ some (none, 42))
http_get_content_length-written_example =
    http_get_content_length-written [] [] 42 7 (omega arith) (omega arith) length_at

name_at :
    First
      (codes "Content-Disposition: filename=\"a b\"" ++ http_eol)
      (codes "Content-Disposition")
      (some 0)
unfolding platform_string_find_needle_raw
name_at =
    needle-First (codes "Content-Disposition: filename=\"a b\"" ++ http_eol)
      (codes "Content-Disposition") (some 0) (omega arith) (omega arith) refl

no_attachment : First (codes "filename=\"a b\"") (codes "attachment") none
unfolding platform_string_find_needle_raw
no_attachment =
    needle-First (codes "filename=\"a b\"") (codes "attachment") none (omega arith) (omega arith)
      refl

populate_disposition-written_example :
    (line : Bytes) × Appends line (http_header_write_file_name (codes "/d/a b"))
    × (populate_disposition (line ++ []) no_headers
        ≡ some (with_name none (codes "a b") no_headers))
unfolding base_name_from
populate_disposition-written_example =
    populate_disposition-written [] (codes "/d/a b") [] no_headers none (omega arith) (omega arith)
      (omega arith) name_at no_attachment

abbrev reading : RecvBuffer
reading = record {
  buffer = some (codes "hel");
  max = 8;
  mode = length_known 3 12;
  inbound = record { replies = Reply.room 3 ∷ []; stream = codes "lo, world" };
}

read_five : (http_site_scheme_file_read 4 reading 5).0 ≡ some (codes "hello")
unfolding http_site_scheme_file_read recv recv_buffer_append
read_five = refl

http_site_scheme_file_read-Delivers_example :
    Delivers 5 reading (http_site_scheme_file_read 4 reading 5)
http_site_scheme_file_read-Delivers_example =
    http_site_scheme_file_read-Delivers 4 reading 5 (omega arith) (omega arith) tt
