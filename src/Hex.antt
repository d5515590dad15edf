-- ===== src/Hex.antt =====
-- src/common/hex.c: percent decoding of a request path, and the width of a number in hexadecimal.
pub mod Traversal
pub mod Escapes
pub mod Width
mod Tests
use newth.Prelude.{
  ℕ, zero, suc, ◌+◌, ◌-◌, ◌*◌, ◌/◌, ◌%◌, Option, none, some, List, [], ◌∷◌, ◌++◌, ◌==◌,
  if◌then◌else◌, Bool, ◌^◌, leb, c_string, Bytes, codes, within, split_on, drop, length,
}

-- One round of the loop of `HexToAscii`: a byte that is no hexadecimal digit gives its low four bits.
unfoldable pub nibble : ℕ → ℕ
nibble ch =
    (if within b'0' b'9' ch
      then ch - b'0'
      else if within b'a' b'f' ch
      then ch - b'a' + 10
      else if within b'A' b'F' ch
      then ch - b'A' + 10
      else ch)
    % 16

-- `HexToAscii` on the two bytes that it reads; `value` is a `char`, taken as a byte.
unfoldable pub hex_to_ascii : ℕ → ℕ → ℕ
unfolding nibble
hex_to_ascii h l = ((nibble h % 256) * 16 + nibble l) % 256

abbrev pub prepend : ℕ → Option Bytes → Option Bytes
prepend c none = none
prepend c (some s) = some (c ∷ s)

-- `strlen(i) - 2`, a `size_t`, for the text from `i` on
abbrev pub move_size : Bytes → ℕ
move_size text = let n = length (c_string text) in if leb 2 n then n - 2 else 2 ^ 64 + n - 2

-- Whether `memmove(&i[1], &i[3], strlen(i) - 2)` stays inside the text from `i` on and its terminator
unfoldable pub moves_inside : Bytes → Bool
unfolding c_string
moves_inside text = leb (3 + move_size text) (length text + 1)

-- The first loop of `hexConvertStringToAscii`; `none` is a `memmove` that leaves the buffer. One that does not moves
-- what stands behind the escape.
unfoldable pub unescape : Bytes → Option Bytes
unfolding hex_to_ascii moves_inside
unescape [] = some []
unescape (c ∷ []) = some (c ∷ [])
unescape (c ∷ h ∷ []) = some (c ∷ h ∷ [])
unescape (c ∷ h ∷ l ∷ rest) =
    let value = hex_to_ascii h l in
    let moved = prepend value (unescape rest) in
    let escaped = if moves_inside (value ∷ h ∷ l ∷ rest) then moved else none in
    let plain = prepend c (unescape (h ∷ l ∷ rest)) in if c == b'%' then escaped else plain

abbrev pub up_dir : Bytes
up_dir = codes "/.."

-- The second loop, on fuel: delete the two dots of the first "/.." until there is none.
unfoldable pub strip_up : ℕ → Bytes → Bytes
strip_up zero url = url
strip_up (suc fuel) url = elim (split_on up_dir url) [
  | none ↦ url
  | some (pre, rest) ↦ strip_up fuel (pre ++ (b'/' ∷ drop 3 rest))
]

-- `hexConvertStringToAscii`. Each round of the second loop deletes two bytes.
unfoldable pub hex_convert_string_to_ascii : Bytes → Option Bytes
unfolding unescape strip_up
hex_convert_string_to_ascii url = elim (unescape url) [
  | none ↦ none
  | some s ↦ some (strip_up (length s) s)
]

-- The loop of `hexGetStringLength`, on fuel.
unfoldable pub count_digits : ℕ → ℕ → ℕ → ℕ
count_digits zero number r = r
count_digits (suc fuel) number r =
    let rest = count_digits fuel (number / 16) (r + 1) in if number == 0 then r else rest

unfoldable pub hex_get_string_length : ℕ → ℕ
unfolding count_digits
hex_get_string_length number = if number == 0 then 1 else count_digits number number 0
