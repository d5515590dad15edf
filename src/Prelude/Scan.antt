-- ===== src/Prelude/Scan.antt =====
-- The numbers that the C library reads from a text. `none` is one outside the range of the type.
use newth.Prelude.{
  ℕ, zero, suc, ◌+◌, ◌-◌, ◌*◌, ◌^◌, ◌%◌, Bool, ◌&&◌, ◌||◌, Option, none, some, [], ◌∷◌, ◌==◌,
  if◌then◌else◌, Bytes, drop, ltb, leb, at, is_digit,
}
use newth.Prelude.Int.{ℤ, pos, negsuc}

unfoldable pub digits_value : ℕ → Bytes → ℕ
digits_value acc [] = acc
digits_value acc (c ∷ text) =
    let next = digits_value (acc * 10 + (c - b'0')) text in if is_digit c then next else acc

abbrev pub is_space : ℕ → Bool
is_space c = c == b' ' || leb b'\t' c && leb c b'\r'

unfoldable pub skip_white : Bytes → Bytes
skip_white [] = []
skip_white (c ∷ text) = let rest = skip_white text in if is_space c then rest else c ∷ text

abbrev pub in_long : ℕ → Option ℕ
in_long n = if ltb n (2 ^ 63) then some n else none

-- `atol` of the C library
unfoldable pub atol : Bytes → Option ℤ
unfolding digits_value skip_white
atol str =
    let text = skip_white str in
    let signed : ℕ → Option ℤ = λ n. elim n [ zero ↦ some (pos 0) | suc m ↦ some (negsuc m) ] in
    if at text 0 == b'-'
    then elim (in_long (digits_value 0 (drop 1 text))) [ none ↦ none | some n ↦ signed n ]
    else elim (in_long (digits_value 0 (if at text 0 == b'+' then drop 1 text else text))) [
      | none ↦ none
      | some n ↦ some (pos n)
    ]

-- `strtoul` in base 10. A number behind a `-` wraps.
unfoldable pub strtoul : Bytes → Option ℕ
unfolding digits_value skip_white
strtoul str =
    let text = skip_white str in
    let in_range : ℕ → Option ℕ = λ n. if ltb n (2 ^ 64) then some n else none in
    if at text 0 == b'-'
    then elim (in_range (digits_value 0 (drop 1 text))) [
      | none ↦ none
      | some n ↦ some ((2 ^ 64 - n) % 2 ^ 64)
    ]
    else in_range (digits_value 0 (if at text 0 == b'+' then drop 1 text else text))
