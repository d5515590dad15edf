-- ===== src/Hex/Escapes.antt =====
-- Percent escapes: what `hexConvertStringToAscii` does to a text with and without them.
use newth.Prelude.{
  ℕ, zero, suc, ◌-◌, ◌^◌, ◌<◌, false, true, c_string, ◌≤◌, ◌≡◌, ◌≢◌, refl, ap, Option, none, some,
  [], ◌∷◌, ◌++◌, inl, inr, arith, Bool-cases, Option-cases, Bytes, length, append-nil, ◌==◌,
}
use newth.Hex.{moves_inside, hex_to_ascii, prepend, strip_up, unescape, hex_convert_string_to_ascii}
use newth.Hex.Traversal.{NoUpDir, length-strip_up, split_on_of_NoUpDir}

prepend-some :
    (c : ℕ) (o : Option Bytes) (s : Bytes)
    → prepend c o ≡ some s
    → (t : Bytes) × (o ≡ some t) × (s ≡ c ∷ t)
prepend-some c none s h = cc
prepend-some c (some t) s h = (t, refl, cc)

length-unescape : (url : Bytes) {s : Bytes} → unescape url ≡ some s → length s ≤ length url
unfolding unescape
length-unescape [] h = ground arith
length-unescape (c ∷ []) h = ground arith
length-unescape (c ∷ x ∷ []) h = ground arith
length-unescape (c ∷ x ∷ y ∷ rest) {s} h = elim (Bool-cases (c == b'%')) [
  | inl escaped ↦ elim (Bool-cases (moves_inside (hex_to_ascii x y ∷ x ∷ y ∷ rest))) [
    | inr leaves ↦ ground arith
    | inl ok ↦
        let (t, e, f) = prepend-some (hex_to_ascii x y) (unescape rest) s (ground arith) in
        omega (arith, length-unescape rest e, ap length f)
  ]
  | inr plain ↦
      let (t, e, f) = prepend-some c (unescape (x ∷ y ∷ rest)) s (ground arith) in
      omega (arith, length-unescape (x ∷ y ∷ rest) e, ap length f)
]

-- A decoded path is at most as long as the text it was decoded from, in whose buffer it stands.
pub length-hex_convert_string_to_ascii :
    (url : Bytes) {path : Bytes}
    → hex_convert_string_to_ascii url ≡ some path
    → length path ≤ length url
unfolding hex_convert_string_to_ascii
length-hex_convert_string_to_ascii url {path} h = elim (Option-cases (unescape url)) [
  | inl fault ↦ ground (arith, fault)
  | inr (s, decoded) ↦
      let out : strip_up (length s) s ≡ path = ground (arith, decoded) in
      omega (arith, length-unescape url decoded, length-strip_up (length s) s, ap length out)
]

-- No byte of the text is `%`.
abbrev pub NoPercent : Bytes → Type 0
NoPercent [] = Unit
NoPercent (c ∷ s) = (c ≢ b'%') × NoPercent s

unescape-append :
    (pre s : Bytes) {t : Bytes}
    → NoPercent pre
    → unescape s ≡ some t
    → unescape (pre ++ s) ≡ some (pre ++ t)
unfolding unescape
unescape-append [] s n h = h
unescape-append (c ∷ []) [] n h = ground arith
unescape-append (c ∷ []) (x ∷ []) n h = ground arith
unescape-append (c ∷ []) (x ∷ y ∷ s) n h = ground arith
unescape-append (c ∷ d ∷ []) [] n h = ground arith
unescape-append (c ∷ d ∷ []) (x ∷ s) n h = ground (arith, unescape-append (d ∷ []) (x ∷ s) n.1 h)
unescape-append (c ∷ d ∷ e ∷ pre) s n h = ground (arith, unescape-append (d ∷ e ∷ pre) s n.1 h)

unescape-append-none :
    (pre s : Bytes) → NoPercent pre → unescape s ≡ none → unescape (pre ++ s) ≡ none
unfolding unescape
unescape-append-none [] s n h = h
unescape-append-none (c ∷ []) [] n h = ground arith
unescape-append-none (c ∷ []) (x ∷ []) n h = ground arith
unescape-append-none (c ∷ []) (x ∷ y ∷ s) n h = ground arith
unescape-append-none (c ∷ d ∷ []) [] n h = ground arith
unescape-append-none (c ∷ d ∷ []) (x ∷ s) n h =
    ground (arith, unescape-append-none (d ∷ []) (x ∷ s) n.1 h)
unescape-append-none (c ∷ d ∷ e ∷ pre) s n h =
    ground (arith, unescape-append-none (d ∷ e ∷ pre) s n.1 h)

unescape-plain : (s : Bytes) → NoPercent s → unescape s ≡ some s
unfolding unescape
unescape-plain s n = rw append-nil at (unescape-append s [] n refl)

strip_up-plain : (fuel : ℕ) (s : Bytes) → NoUpDir s → strip_up fuel s ≡ s
unfolding strip_up
strip_up-plain zero s n = refl
strip_up-plain (suc fuel) s n = rw (split_on_of_NoUpDir s n, strip_up)

-- A request path with neither `%` nor "/.." is delivered as it is.
pub hex_convert_string_to_ascii_plain :
    (url : Bytes) → NoPercent url → NoUpDir url → hex_convert_string_to_ascii url ≡ some url
unfolding hex_convert_string_to_ascii
hex_convert_string_to_ascii_plain url n u =
    let whole : unescape url ≡ some url = unescape-plain url n in
    rw (whole, hex_convert_string_to_ascii) (ap some (strip_up-plain (length url) url u))

-- A text that begins with 0 is empty to `strlen`, and `strlen(i) - 2` wraps.
moves_inside-nul : (text : Bytes) → length text < 2 ^ 64 - 4 → moves_inside (0 ∷ text) ≡ false
unfolding moves_inside c_string
moves_inside-nul text h = ground (arith, h)

length-c_string : (text : Bytes) → length (c_string text) ≤ length text
unfolding c_string
length-c_string [] = omega arith
length-c_string (c ∷ text) = ground (arith, length-c_string text)

-- Two bytes that are not 0 are enough for `strlen(i) - 2`.
pub moves_inside-some :
    (v h l : ℕ) (rest : Bytes) → v ≢ 0 → h ≢ 0 → moves_inside (v ∷ h ∷ l ∷ rest) ≡ true
unfolding moves_inside c_string
moves_inside-some v h l rest some_v some_h =
    ground (arith, some_v, some_h, length-c_string (l ∷ rest), length-c_string rest)

-- An escape for the byte 0, with no `%` before it and fewer than 2 ^ 64 - 6 bytes behind it, ends the text for `strlen`,
-- whose result less 2 wraps: the decoder moves bytes from outside its buffer.
pub hex_convert_string_to_ascii_nul :
    (pre : Bytes) (h l : ℕ) (rest : Bytes)
    → NoPercent pre
    → hex_to_ascii h l ≡ 0
    → length rest < 2 ^ 64 - 6
    → hex_convert_string_to_ascii (pre ++ (b'%' ∷ h ∷ l ∷ rest)) ≡ none
unfolding hex_convert_string_to_ascii
hex_convert_string_to_ascii_nul pre h l rest n z fits =
    let out = moves_inside-nul (h ∷ l ∷ rest) (omega (arith, fits)) in
    let fault : unescape (b'%' ∷ h ∷ l ∷ rest) ≡ none = unfold unescape in rw (z, out) refl in
    rw (unescape-append-none pre (b'%' ∷ h ∷ l ∷ rest) n fault, hex_convert_string_to_ascii)
