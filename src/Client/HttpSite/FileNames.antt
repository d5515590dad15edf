-- ===== src/Client/HttpSite/FileNames.antt =====
-- Content-Disposition, as the server writes it and the client reads it.
use newth.Prelude.{
  ℕ, ◌≤◌, ◌<◌, ◌≡◌, refl, sym, ap, ◌∙◌, true, false, ◌||◌, Option, none, some, [], ◌∷◌, ◌++◌, ◌==◌,
  append_assoc, arith, Bytes, codes, length, ltb, NotIn, NotIn-append, split_at_first,
}
use newth.Client.Io.{http_eol}
use newth.Client.RecvBuffer.{platform_string_find_needle_raw, same_start}
use newth.Client.RecvBuffer.Find.{First, in_buffer, recv_buffer_find-First}
use newth.Client.RecvBuffer.Header.{skip_spaces}
use newth.Client.RecvBuffer.Header.Value.{
  from_value, needle_at, First-unique, io_http_response_header_find-value,
}
use newth.Server.Http.Writer.Appends.{Appends}
use newth.Server.Http.Write.{http_header_write_file_name, base_name_from}
use newth.Server.Http.Write.Heads.{http_header_write_file_name-Appends}
use newth.Client.HttpSite.Response.{
  HttpResponseHeader, quoted, name_behind, file_name_at, disposition, populate_disposition,
}

-- The search gives the first place, or that there is none.
needle_is :
    (haystack needle : Bytes) (r : Option ℕ)
    → 0 < length haystack
    → 2 ≤ length needle
    → First haystack needle r
    → platform_string_find_needle_raw haystack needle ≡ r
needle_is haystack needle (some i) h k first = needle_at haystack needle i h k first
needle_is haystack needle none h k first =
    let (r, _, e, first') = recv_buffer_find-First (in_buffer haystack) needle h k in
    e ∙ none_only r first'
  where
    none_only : (r : Option ℕ) → First haystack needle r → r ≡ none
    none_only none f = refl
    none_only (some j) f = sym (First-unique haystack needle j none f first)

quoted-text : (name : Bytes) → NotIn b'"' name → quoted (name ++ (b'"' ∷ [])) ≡ name
unfolding quoted
quoted-text [] h = refl
quoted-text (c ∷ []) h = let other : (c == b'"') ≡ false = ground (arith, h.0) in rw other refl
quoted-text (c ∷ d ∷ name) h =
    let other : (c == b'"') ≡ false = ground (arith, h.0) in
    rw other (ap (◌∷◌ c) (quoted-text (d ∷ name) h.1))

-- The value that the server writes for a name
abbrev pub file_name_value : Bytes → Bytes
file_name_value name = codes "filename=\"" ++ (name ++ (b'"' ∷ []))

-- What the client makes of that value, where `attachment` is the first place of that word in it
abbrev pub with_name : Option ℕ → Bytes → HttpResponseHeader → HttpResponseHeader
with_name none name response = record response { content_attachment = true; file_name = some name }
with_name (some p) name response = response

module _ (name : Bytes) (plain : NotIn b'"' name) (some_bytes : 0 < length name) where
  value_bytes : 0 < length (file_name_value name)
  value_bytes = omega arith

  filename_first :
      platform_string_find_needle_raw (file_name_value name) (codes "filename") ≡ some 0
  filename_first =
      needle_at (file_name_value name) (codes "filename") 0 value_bytes (omega arith)
        (here, λ j l. absurd (omega (arith, l)))
    where
      here : same_start (codes "filename") (file_name_value name) ≡ true
      here = unfold same_start in refl

  named : file_name_at (file_name_value name) ≡ some (some name)
  unfolding file_name_at skip_spaces
  named =
      let not_empty : (length name == 0) ≡ false = ground (arith, some_bytes) in
      rw
        (
          file_name_at,
          split_at_first b'=' (codes "filename") (b'"' ∷ (name ++ (b'"' ∷ []))) (omega arith),
        )
        (rw (name_behind, quoted-text name plain, not_empty) refl)

  disposition-value :
      (response : HttpResponseHeader) (attachment : Option ℕ)
      → First (file_name_value name) (codes "attachment") attachment
      → (elim (disposition (file_name_value name)) [
        | none ↦ none
        | some (attached, found) ↦ some (record response {
          content_attachment = attached || response.content_attachment;
          file_name = elim found [ none ↦ response.file_name | some n ↦ some n ];
        })
      ])
        ≡ some (with_name attachment name response)
  unfolding disposition
  disposition-value response none first =
      rw
        (
          disposition,
          needle_is (file_name_value name) (codes "attachment") none value_bytes (omega arith)
              first,
          filename_first,
          named,
        )
        refl
  disposition-value response (some p) first =
      let behind : ltb p 0 ≡ false = ground arith in
      rw
        (
          disposition,
          needle_is (file_name_value name) (codes "attachment") (some p) value_bytes (omega arith)
              first,
          filename_first,
          behind,
        )
        refl

-- For a path whose last name is not empty and has neither a quote nor a `\r`, `httpHeaderWriteFileName` appends
-- a line to the traffic unless the socket fails. In every head whose first place of "Content-Disposition",
-- without regard to case, is that line, the client reads the name back and takes the answer for an attachment,
-- unless "attachment" stands in the value: then it leaves the response as it was.
pub populate_disposition-written :
    (pre path post : Bytes) (response : HttpResponseHeader) (attachment : Option ℕ)
    → NotIn b'"' (base_name_from path path)
    → NotIn b'\r' (base_name_from path path)
    → 0 < length (base_name_from path path)
    → First
        (pre
          ++ (codes "Content-Disposition: "
              ++ from_value (file_name_value (base_name_from path path)) post))
        (codes "Content-Disposition")
        (some (length pre))
    → First (file_name_value (base_name_from path path)) (codes "attachment") attachment
    → (line : Bytes) × Appends line (http_header_write_file_name path)
      × (populate_disposition (pre ++ (line ++ post)) response
          ≡ some (with_name attachment (base_name_from path path) response))
unfolding populate_disposition
populate_disposition-written pre path post response attachment plain cr some_bytes first attached =
    let name = base_name_from path path in
    let value = file_name_value name in
    let found =
      io_http_response_header_find-value pre (codes "Content-Disposition")
        (codes "Content-Disposition") value post (omega arith) (omega arith)
        (NotIn-append b'\r' (codes "filename=\"") (name ++ (b'"' ∷ [])) (omega arith)
          (NotIn-append b'\r' name (b'"' ∷ []) cr (omega arith)))
        (omega arith) first in
    (
      codes "Content-Disposition: " ++ (codes "filename=\"" ++ (name ++ (b'"' ∷ http_eol))),
      http_header_write_file_name-Appends path,
      ap
            (λ t.
              populate_disposition (pre ++ (codes "Content-Disposition: filename=\"" ++ t))
                response)
            (regroup name post)
          ∙ rw (populate_disposition, found)
              (disposition-value name plain some_bytes response attachment attached),
    )
  where
    regroup : (n p : Bytes) → (n ++ (b'"' ∷ http_eol)) ++ p ≡ (n ++ (b'"' ∷ [])) ++ (http_eol ++ p)
    regroup n p =
        append_assoc n (b'"' ∷ http_eol) p ∙ sym (append_assoc n (b'"' ∷ []) (http_eol ++ p))
