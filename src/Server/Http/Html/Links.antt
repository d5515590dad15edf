-- ===== src/Server/Http/Html/Links.antt =====
-- The links of a page name the paths that the server decodes from a request.
use newth.Prelude.{
  ℕ, ◌+◌, ◌-◌, ◌*◌, ◌/◌, ◌%◌, ◌≤◌, ◌<◌, ◌≡◌, ◌≢◌, refl, sym, ap, ◌∙◌, inl, inr, false, ◌||◌,
  Bool-cases, some, [], ◌∷◌, ◌++◌, ◌==◌, if◌then◌else◌, append-nil, append_assoc, arith, Bytes,
  length, length-append, is_alnum, print_number, digit_char, print_number_two, ltb,
}
use newth.Hex.Escapes.{moves_inside-some}
use newth.Hex.{prepend, nibble, hex_to_ascii, unescape}
use newth.Server.Http.Html.{ascii_to_hex, convert_from, convert_path_to_url}

-- A byte that prints with two hexadecimal digits.
abbrev pub TwoDigits : Bytes → Type 0
TwoDigits [] = Unit
TwoDigits (c ∷ path) = (16 ≤ c) × (c < 256) × TwoDigits path

-- The text that the path becomes.
abbrev pub encoded : Bytes → Bytes
encoded [] = []
encoded (c ∷ path) = (if is_alnum c || c == b'/' then c ∷ [] else ascii_to_hex c) ++ encoded path

-- An escape stands for its byte.
hex_to_ascii-digits :
    (c : ℕ) → c < 256 → hex_to_ascii (digit_char (c / 16)) (digit_char (c % 16)) ≡ c
unfolding hex_to_ascii nibble
hex_to_ascii-digits c h = ground arith

unescape_plain : (c : ℕ) (s : Bytes) → c ≢ b'%' → unescape (c ∷ s) ≡ prepend c (unescape s)
unfolding unescape
unescape_plain c [] h = refl
unescape_plain c (d ∷ []) h = refl
unescape_plain c (d ∷ e ∷ s) h =
    let plain : (c == b'%') ≡ false = ground (arith, h) in rw plain refl

unescape-escaped :
    (c : ℕ) (s : Bytes)
    → 16 ≤ c
    → c < 256
    → unescape (b'%' ∷ (print_number 16 c ++ s)) ≡ prepend c (unescape s)
unfolding unescape
unescape-escaped c s h k =
    let value = hex_to_ascii-digits c k in
    let inside =
      moves_inside-some c (digit_char (c / 16)) (digit_char (c % 16)) s (omega (arith, h))
        (ground (arith, h)) in
    rw (print_number_two c h k) (rw value (rw inside refl))

unescape-encoded : (path : Bytes) → TwoDigits path → unescape (encoded path) ≡ some path
unfolding unescape ascii_to_hex
unescape-encoded [] h = refl
unescape-encoded (c ∷ path) h = elim (Bool-cases (is_alnum c || c == b'/')) [
  | inl plain ↦ rw plain (
      unescape_plain c (encoded path) (ground (arith, plain))
      ∙ ap (prepend c) (unescape-encoded path h.2))
  | inr other ↦
      let odd : is_alnum c ≡ false = ground (arith, other) in
      rw (other, odd)
        (unescape-escaped c (encoded path) h.0 h.1 ∙ ap (prepend c) (unescape-encoded path h.2))
]

pub convert_from-encoded :
    (max : ℕ) (done path : Bytes)
    → TwoDigits path
    → length done + 3 * length path + 1 < max
    → convert_from max done path ≡ (0, done ++ encoded path)
unfolding convert_from ascii_to_hex
convert_from-encoded max done [] h l = ap (λ t. (0, t)) (sym (append-nil done))
convert_from-encoded max done (c ∷ path) h l = elim (Bool-cases (is_alnum c || c == b'/')) [
  | inl plain ↦
      let size = length-append done (c ∷ []) in
      rw plain (
        convert_from-encoded max (done ++ (c ∷ [])) path h.2 (omega (arith, size))
        ∙ ap (λ t. (0, t)) (append_assoc done (c ∷ []) (encoded path)))
  | inr other ↦
      let odd : is_alnum c ≡ false = ground (arith, other) in
      let out : Bytes = b'%' ∷ print_number 16 c in
      let three : length out ≡ 3 = rw (print_number_two c h.0 h.1) refl in
      let size = length-append done out in
      let fits : ltb (max - 1) (length done + length (c ∷ path) + length out) ≡ false =
        ground (arith, three) in
      rw (other, odd)
        (rw fits (
          convert_from-encoded max (done ++ out) path h.2 (omega (arith, size, three))
          ∙ ap (λ t. (0, t)) (append_assoc done out (encoded path))))
]

-- A path of bytes with two hexadecimal digits, short enough for the buffer `max`, is converted without
-- an error, and the first loop of `hexConvertStringToAscii`, which decodes a request, reads it back.
pub unescape-convert_path_to_url :
    (path : Bytes) (max : ℕ)
    → TwoDigits path
    → 3 * length path + 1 < max
    → ((convert_path_to_url path max).0 ≡ 0)
      × (unescape (convert_path_to_url path max).1 ≡ some path)
unfolding convert_path_to_url
unescape-convert_path_to_url path max h l =
    let e = convert_from-encoded max [] path h (omega arith) in
    (ap (λ r. r.0) e, ap (λ r. unescape r.1) e ∙ unescape-encoded path h)
