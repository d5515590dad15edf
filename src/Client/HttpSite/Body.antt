-- ===== src/Client/HttpSite/Body.antt =====
-- src/client/site/http.c: the body of an answer, as it is set up, read, and searched for links.
use newth.Prelude.{
  c_string, ℕ, zero, suc, ◌-◌, Bool, true, false, ◌&&◌, Option, none, some, List, [], ◌∷◌, ◌++◌,
  ◌==◌, if◌then◌else◌, Bytes, codes, length, take, ltb, at, to_upper,
}
use newth.Client.RecvBuffer.{
  RecvError, length_complete, length_known, RecvBuffer, content, recv_buffer_fetch,
  recv_buffer_ditch, recv_buffer_set_length_complete, recv_buffer_set_length_known,
}
use newth.Client.RecvBuffer.Append.{recv_buffer_append}
use newth.Client.RecvBuffer.Existing.{ChunkSet, recv_buffer_set_length_chunk}
use newth.Client.RecvBuffer.Search.{recv_buffer_find_and_fetch, recv_buffer_find_and_ditch}
use newth.Client.Xml.{
  xml_find_element, xml_extract_element, xml_find_attribute, xml_extract_attribute_value,
}
use newth.Client.HttpSite.Response.{HttpResponseHeader}

-- `HeadersCompute`, with the fuel of `recv_buffer_set_length_chunk`
unfoldable pub headers_compute : ℕ → RecvBuffer → HttpResponseHeader → Bytes → Option ChunkSet
unfolding recv_buffer_set_length_complete recv_buffer_set_length_known
headers_compute fuel socket response mode =
    let len = length (content socket) in
    let known = recv_buffer_set_length_known socket response.length in
    if to_upper (at mode 0) == b'G' && to_upper (at mode 1) == b'E' && to_upper (at mode 2) == b'T'
    then (if response.chunked_mode
        then recv_buffer_set_length_chunk fuel socket
        else if response.length == len
        then some (false, recv_buffer_set_length_complete socket)
        else some (false, record known { mode = length_known len response.length }))
    else some (false, recv_buffer_set_length_complete socket)

-- `httpSiteSchemeFileAtEnd`. The option RECV_BUFFER_DATA_LENGTH_UNKNOWN is 0, so that its test never holds.
unfoldable pub http_site_scheme_file_at_end : RecvBuffer → Bool
http_site_scheme_file_at_end socket = elim socket.mode [
  | length_complete ↦ length (content socket) == 0
  | _ ↦ false
]

-- The end of `httpSiteSchemeFileRead`
unfoldable pub copy_and_ditch : RecvBuffer → ℕ → Bytes × RecvBuffer
copy_and_ditch socket size = (take size (content socket), recv_buffer_ditch socket size)

-- Whether `httpSiteSchemeFileRead` goes on after what `recvBufferAppend` returned
abbrev pub goes_on : Option RecvError → Bool
goes_on none = true
goes_on (some RecvError.err_no_data_to_be_retrieved) = true
goes_on (some RecvError.err_request_completed) = true
goes_on (some _) = false

module _ (sb_data_size : ℕ) where
  -- `httpSiteSchemeFileRead`: the bytes read, or `none` for -1.
  unfoldable pub http_site_scheme_file_read : RecvBuffer → ℕ → Option Bytes × RecvBuffer
  unfolding copy_and_ditch
  http_site_scheme_file_read socket size =
      let len = length (content socket) in
      let read = recv_buffer_append sb_data_size socket (size - len) in
      let len' = length (content read.1) in
      let more = copy_and_ditch read.1 (if ltb size len' then size else len') in
      let enough = copy_and_ditch socket size in
      if ltb len size
      then (if goes_on read.0 then (some more.0, more.1) else (none, read.1))
      else (some enough.0, enough.1)

  -- `FastForwardToElement`: how far, where -1 is `none`; the outer `none` is too little fuel or a fault.
  unfoldable pub fast_forward_to_element : RecvBuffer → Bytes → Option (Option ℕ × RecvBuffer)
  fast_forward_to_element socket element =
      elim (recv_buffer_find_and_ditch sb_data_size socket (b'<' ∷ element)) [
        | none ↦ none
        | some (some e, d, socket') ↦ some (none, socket')
        | some (none, d, socket') ↦ some (some d, socket')
      ]

  -- `BufferToEndElement`
  unfoldable pub buffer_to_end_element : RecvBuffer → Bytes → Option (Option RecvError × RecvBuffer)
  buffer_to_end_element socket element =
      recv_buffer_find_and_fetch sb_data_size socket (codes "</" ++ (element ++ (b'>' ∷ []))) 2048

  -- `FastForwardOverElement`, without the count, which nothing reads
  unfoldable pub fast_forward_over_element : RecvBuffer → Bytes → Option RecvBuffer
  unfolding fast_forward_to_element
  fast_forward_over_element socket element = elim (fast_forward_to_element socket element) [
    | none ↦ none
    | some (r, socket') ↦ elim (recv_buffer_fetch socket' 0 2047) [
      | none ↦ none
      | some (e, buf) ↦ elim (xml_extract_element (c_string buf) element) [
        | none ↦ some socket'
        | some found ↦ some (recv_buffer_ditch socket' (length found))
      ]
    ]
  ]

  -- The link in the text that is at hand
  unfoldable pub link_in : Bytes → Option Bytes
  link_in buf = elim (xml_find_element buf (codes "a")) [
    | none ↦ none
    | some e ↦ elim (xml_find_attribute e (codes "href")) [
      | none ↦ none
      | some a ↦ xml_extract_attribute_value a
    ]
  ]

  -- The end of `HtmlExtractNextLink`
  unfoldable pub take_link : RecvBuffer → Option (Option Bytes × RecvBuffer)
  unfolding link_in fast_forward_over_element
  take_link socket = elim (recv_buffer_fetch socket 0 2048) [
    | none ↦ none
    | some (some e, buf) ↦ some (none, socket)
    | some (none, buf) ↦ elim (link_in (c_string buf)) [
      | none ↦ some (none, socket)
      | some v ↦ elim (fast_forward_over_element socket (codes "a")) [
        | none ↦ none
        | some socket' ↦ some (some v, socket')
      ]
    ]
  ]

  -- `HtmlExtractNextLink`: NULL or the link
  unfoldable pub html_extract_next_link : RecvBuffer → Option (Option Bytes × RecvBuffer)
  unfolding fast_forward_to_element buffer_to_end_element take_link
  html_extract_next_link socket = elim (fast_forward_to_element socket (codes "a")) [
    | none ↦ none
    | some (far, s1) ↦ elim (buffer_to_end_element s1 (codes "a")) [
      | none ↦ none
      | some (some e, s2) ↦ some (none, s2)
      | some (none, s2) ↦ take_link s2
    ]
  ]

  -- The links of the page, as the loop of `httpSiteSchemeDirectoryListingOpen` asks for them, at most `n`.
  unfoldable pub next_links : ℕ → RecvBuffer → Option (List Bytes × RecvBuffer)
  unfolding html_extract_next_link
  next_links zero socket = none
  next_links (suc n) socket = elim (html_extract_next_link socket) [
    | none ↦ none
    | some (none, socket') ↦ some ([], socket')
    | some (some file, socket') ↦ elim (next_links n socket') [
      | none ↦ none
      | some (files, end) ↦ some (file ∷ files, end)
    ]
  ]
