-- ===== src/Client/HttpSite/Lengths.antt =====
-- Content-Length, as the server writes it and the client reads it.
use newth.Prelude.{
  ℕ, zero, suc, ◌+◌, ◌-◌, ◌*◌, ◌/◌, ◌%◌, ◌^◌, ◌≤◌, ◌<◌, ◌≡◌, ◌≢◌, refl, sym, ap, ◌∙◌, inl, inr,
  Bool-cases, true, false, none, some, [], ◌∷◌, ◌++◌, map, append_assoc, arith, Bytes, codes,
  length, ltb, at, is_digit, NotIn, split_at-none, digits_from, digit_char, print_number,
}
use mathlib.Core.List.{map-append}
use newth.Prelude.Int.{pos}
use newth.Client.Io.{http_eol}
use newth.Client.RecvBuffer.Find.{First}
use newth.Client.RecvBuffer.Header.Value.{from_value, io_http_response_header_find-value}
use newth.Client.Xml.{up_to}
use newth.Server.Http.Writer.Appends.{Appends}
use newth.Server.Http.Write.{http_header_write_content_length, print_offset}
use newth.Server.Http.Write.Heads.{http_header_write_content_length-Appends}
use newth.Client.HttpSite.Response.{skip_non_digits, content_length_from, http_get_content_length}

-- One digit that is read
step :
    (s : Bytes) (acc v d : ℕ)
    → content_length_from acc (d ∷ s) ≡ some (none, v)
    → (is_digit d ≡ true)
      × (ltb (acc * 10 + (d - b'0')) (2 ^ 63) ≡ true)
      × (ltb acc (acc * 10 + (d - b'0')) ≡ true)
      × (content_length_from (acc * 10 + (d - b'0')) s ≡ some (none, v))
unfolding content_length_from
step s acc v d h = elim (Bool-cases (is_digit d)) [
  | inr other ↦ absurd (cc (rw other at h))
  | inl digit ↦ elim (Bool-cases (ltb (acc * 10 + (d - b'0')) (2 ^ 63))) [
    | inr big ↦ absurd (cc (rw (digit, big) at h))
    | inl fits ↦ elim (Bool-cases (ltb acc (acc * 10 + (d - b'0')))) [
      | inr stays ↦ absurd (cc (rw (digit, fits, stays) at h))
      | inl grows ↦ (digit, fits, grows, rw (digit, fits, grows) at h)
    ]
  ]
]

-- A further digit
content_length_from-append :
    (s : Bytes) (acc v c : ℕ)
    → content_length_from acc s ≡ some (none, v)
    → is_digit c ≡ true
    → v < v * 10 + (c - b'0')
    → v * 10 + (c - b'0') < 2 ^ 63
    → content_length_from acc (s ++ (c ∷ [])) ≡ some (none, v * 10 + (c - b'0'))
unfolding content_length_from
content_length_from-append [] acc v c h digit grows fits =
    let same : acc ≡ v = cc in
    let small : ltb (acc * 10 + (c - b'0')) (2 ^ 63) ≡ true = ground (arith, same, fits) in
    let more : ltb acc (acc * 10 + (c - b'0')) ≡ true = ground (arith, same, grows) in
    rw (digit, small, more) (ap (λ n. some (none, n * 10 + (c - b'0'))) same)
content_length_from-append (d ∷ s) acc v c h digit grows fits =
    let (first, small, more, rest) = step s acc v d h in
    rw (first, small, more)
      (content_length_from-append s (acc * 10 + (d - b'0')) v c rest digit grows fits)

-- Such a text has digits only.
digits_only :
    (s : Bytes) (acc v c : ℕ)
    → content_length_from acc s ≡ some (none, v)
    → is_digit c ≡ false
    → NotIn c s
unfolding content_length_from
digits_only [] acc v c h other = tt
digits_only (d ∷ s) acc v c h other =
    let (first, small, more, rest) = step s acc v d h in
    (
      λ e. cc (sym first ∙ ap is_digit e ∙ other),
      digits_only s (acc * 10 + (d - b'0')) v c rest other,
    )

one_digit :
    (n : ℕ) → 0 < n → n < 10 → content_length_from 0 (map digit_char (n ∷ [])) ≡ some (none, n)
unfolding content_length_from
one_digit n h k = ground arith

-- The digits of a number above 0
content_length_from-digits :
    (fuel n : ℕ)
    → n ≤ fuel
    → 0 < n
    → n < 2 ^ 63
    → content_length_from 0 (map digit_char (digits_from 10 fuel n)) ≡ some (none, n)
unfolding digits_from content_length_from
content_length_from-digits zero n h some_n fits = absurd (omega (arith, h, some_n))
content_length_from-digits (suc fuel) n h some_n fits = elim (Bool-cases (ltb n 10)) [
  | inl small ↦ rw small (one_digit n some_n (ground (arith, small)))
  | inr big ↦
      let tens = n / 10 in
      let d = n % 10 in
      let digit : digit_char d ≡ b'0' + d = ground arith in
      let is_one : is_digit (b'0' + d) ≡ true = ground arith in
      let many : 10 ≤ n = ground (arith, big) in
      let value : tens * 10 + (b'0' + d - b'0') ≡ n = omega arith in
      let read =
        content_length_from-digits fuel tens (omega (arith, h, many)) (omega (arith, many))
          (omega (arith, fits)) in
      let more =
        content_length_from-append (map digit_char (digits_from 10 fuel tens)) 0 tens (b'0' + d)
          read is_one (omega (arith, many)) (omega (arith, fits)) in
      rw (big, map-append, digit) (more ∙ ap (λ m. some (none, m)) value)
]

skip_none :
    (s : Bytes) (v : ℕ)
    → 0 < v
    → content_length_from 0 s ≡ some (none, v)
    → (skip_non_digits s ≡ s) × (at s 0 ≢ b' ')
unfolding skip_non_digits content_length_from
skip_none [] v p h = absurd (ground (arith, p, h))
skip_none (d ∷ s) v p h =
    let (first, small, more, rest) = step s 0 v d h in
    (rw first refl, λ e. cc (sym first ∙ ap is_digit e))

up_to-NotIn : (c : ℕ) (s : Bytes) → NotIn c s → up_to c s ≡ s
unfolding up_to
up_to-NotIn c s h = rw (up_to, split_at-none c s h) refl

-- For a length above 0 and below 2 ^ 63, `httpHeaderWriteContentLength` appends a line to the traffic unless
-- the socket fails. In every head whose first place of "content-length", without regard to case, is that line,
-- `HttpGetContentLength` reads the length back without an error, whatever `*length` was.
pub http_get_content_length-written :
    (pre post : Bytes) (n length_before : ℕ)
    → 0 < n
    → n < 2 ^ 63
    → First
        (pre ++ (codes "Content-Length: " ++ from_value (print_number 10 n) post))
        (codes "content-length")
        (some (length pre))
    → (line : Bytes) × Appends line (http_header_write_content_length (pos n))
      × (http_get_content_length (pre ++ (line ++ post)) length_before ≡ some (none, n))
unfolding http_get_content_length print_offset print_number
http_get_content_length-written pre post n length_before some_n fits first =
    let digits = print_number 10 n in
    let read = content_length_from-digits n n (omega arith) some_n fits in
    let (whole, no_space) = skip_none digits n some_n read in
    let cr = digits_only digits 0 n b'\r' read refl in
    let line = codes "Content-Length: " ++ (digits ++ http_eol) in
    let found =
      io_http_response_header_find-value pre (codes "Content-Length") (codes "content-length")
        digits post (omega arith) (omega arith) cr no_space first in
    let regrouped : line ++ post ≡ codes "Content-Length: " ++ from_value digits post =
      ap (λ t. codes "Content-Length: " ++ t) (append_assoc digits http_eol post) in
    (
      line,
      http_header_write_content_length-Appends n (omega (arith, fits)),
      ap (λ t. http_get_content_length (pre ++ t) length_before) regrouped
          ∙ rw (http_get_content_length, found, up_to-NotIn b'\r' digits cr, whole) read,
    )
