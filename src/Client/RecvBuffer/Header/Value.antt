-- ===== src/Client/RecvBuffer/Header/Value.antt =====
-- `ioHttpResponseHeaderFind`: the value of a header that is there.
use newth.Prelude.{
  split_at_first, ℕ, ◌≤◌, ◌<◌, ◌≡◌, ◌≢◌, refl, ap, ◌∙◌, false, Option, none, some, [], ◌∷◌, ◌++◌,
  ◌==◌, arith, Bytes, length, length-append, drop-append_left, at, NotIn,
}
use newth.Client.Io.{http_eol}
use newth.Client.RecvBuffer.{platform_string_find_needle_raw}
use newth.Client.RecvBuffer.Find.{First, in_buffer, recv_buffer_find-First}
use newth.Client.RecvBuffer.Header.{skip_spaces, io_http_response_header_find}

-- There is one first place.
pub First-unique :
    (haystack needle : Bytes) (i : ℕ) (r : Option ℕ)
    → First haystack needle (some i)
    → First haystack needle r
    → r ≡ some i
First-unique haystack needle i none (here, before) nowhere = cc (nowhere i)
First-unique haystack needle i (some j) (here, before) (there, before') =
    ground (arith, before j, before' i)

pub needle_at :
    (haystack needle : Bytes) (i : ℕ)
    → 0 < length haystack
    → 2 ≤ length needle
    → First haystack needle (some i)
    → platform_string_find_needle_raw haystack needle ≡ some i
needle_at haystack needle i h k first =
    let (r, _, e, first') = recv_buffer_find-First (in_buffer haystack) needle h k in
    e ∙ First-unique haystack needle i r first first'

pub skip_spaces_none : (value : Bytes) → at value 0 ≢ b' ' → skip_spaces value ≡ value
unfolding skip_spaces
skip_spaces_none [] h = refl
skip_spaces_none (c ∷ value) h =
    let other : (c == b' ') ≡ false = ground (arith, h) in rw other refl

-- A line of a head, from its value on
abbrev pub from_value : Bytes → Bytes → Bytes
from_value value post = value ++ (http_eol ++ post)

-- Where the first place of `name`, of at least two bytes and without regard to case, is the line `field: value`,
-- and neither the field has a colon nor the value a `\r` or a space at its start, `ioHttpResponseHeaderFind` gives
-- the value.
pub io_http_response_header_find-value :
    (pre field name value post : Bytes)
    → 2 ≤ length name
    → NotIn b':' field
    → NotIn b'\r' value
    → at value 0 ≢ b' '
    → First (pre ++ (field ++ (b':' ∷ b' ' ∷ from_value value post))) name (some (length pre))
    → io_http_response_header_find (pre ++ (field ++ (b':' ∷ b' ' ∷ from_value value post))) name
      ≡ some value
unfolding io_http_response_header_find
io_http_response_header_find-value pre field name value post two colon cr space first =
    let line = field ++ (b':' ∷ b' ' ∷ from_value value post) in
    let some_bytes : 0 < length (pre ++ line) =
      omega (
        arith,
        length-append pre line,
        length-append field (b':' ∷ b' ' ∷ from_value value post),
      ) in
    rw
      (io_http_response_header_find, needle_at (pre ++ line) name (length pre) some_bytes two first)
      (rw (drop-append_left pre line) (
        rw (split_at_first b':' field (b' ' ∷ from_value value post) colon) (
          rw
            (split_at_first b'\r' (b':' ∷ b' ' ∷ value) (b'\n' ∷ post)
              (omega arith, (omega arith, cr)))
            (ap some (skip_spaces_none value space)))))
