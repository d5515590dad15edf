-- ===== src/Client/Io/Chunk.antt =====
-- The size line of a chunk, as the server prints it and the client reads it.
use native.Mathlib.Decide.{ℕ_discrete}
use newth.Prelude.{
  ℕ, zero, suc, ◌+◌, ◌*◌, ◌%◌, ◌<◌, ◌≡◌, refl, ap, ◌∙◌, Bool, true, false, ◌&&◌, none, some, List,
  [], ◌∷◌, map, inl, inr, arith, Bool-cases, Bytes, ◌==◌, ==_iff, if◌then◌else◌, digit_char,
  digits_from, print_number, within, ◌-◌, Option, ◌≤◌, ◌⊎◌, value_from, AllBelow,
  digits_from_sixteen,
}
use newth.Client.Io.{
  size_mod, is_valid_hex_character, hex_digit, hex_to_size_from, io_http_body_chunk_hex_to_size,
}

and_true : (a b : Bool) → (a && b) ≡ true → (a ≡ true) × (b ≡ true)
and_true true b h = (refl, h)
and_true false b h = cc

-- Printing and reading agree on each of the first `k` digits.
agree : ℕ → Bool
agree zero = true
agree (suc d) = agree d && (is_valid_hex_character (digit_char d) && hex_digit (digit_char d) == d)

agree_at :
    (k d : ℕ)
    → d < k
    → agree k ≡ true
    → (is_valid_hex_character (digit_char d) && hex_digit (digit_char d) == d) ≡ true
unfolding agree
agree_at zero d l h = absurd (omega arith)
agree_at (suc k) d l h =
    let (before, here) = and_true _ _ h in
    elim (ℕ_discrete d k) [ yes e ↦ rw e here | no ne ↦ agree_at k d (omega arith) before ]

agree_sixteen : agree 16 ≡ true
unfolding agree is_valid_hex_character hex_digit
agree_sixteen = refl

hex_digit-digit_char :
    (d : ℕ)
    → d < 16
    → (is_valid_hex_character (digit_char d) ≡ true) × (hex_digit (digit_char d) ≡ d)
hex_digit-digit_char d h =
    let (valid, same) = and_true _ _ (agree_at 16 d h agree_sixteen) in (valid, (==_iff _ d).0 same)

hex_to_size_from-value :
    (ds : List ℕ) (acc v : ℕ)
    → AllBelow 16 ds
    → v ≡ acc % size_mod
    → hex_to_size_from v (map digit_char ds) ≡ some (value_from 16 acc ds % size_mod)
unfolding hex_to_size_from
hex_to_size_from-value [] acc v h e = ap some e
hex_to_size_from-value (d ∷ ds) acc v h e =
    let (ok, digit) = hex_digit-digit_char d h.0 in
    rw (ok, digit) (hex_to_size_from-value ds (acc * 16 + d) _ h.1 (omega arith))

-- A chunk size below 2 ^ 64 that is printed by `%lx` is read back by `ioHttpBodyChunkHexToSize`.
pub io_http_body_chunk_hex_to_size-print_number :
    (n : ℕ) → n < size_mod → io_http_body_chunk_hex_to_size (print_number 16 n) ≡ some n
unfolding io_http_body_chunk_hex_to_size print_number
io_http_body_chunk_hex_to_size-print_number n h =
    let (below, value) = digits_from_sixteen n n (omega arith) in
    hex_to_size_from-value (digits_from 16 n n) 0 0 below (omega arith)
    ∙ ap some (omega (arith, value))

-- The value of a hexadecimal digit, in either case
abbrev pub value_of : ℕ → Option ℕ
value_of c =
    if within b'0' b'9' c
    then some (c - b'0')
    else if within b'a' b'f' c
    then some (c - b'a' + 10)
    else if within b'A' b'F' c
    then some (c - b'A' + 10)
    else none

-- The number that the characters write in base 16 behind `acc`, or that one of them is no digit
abbrev pub base_sixteen : ℕ → Bytes → Option ℕ
base_sixteen acc [] = some acc
base_sixteen acc (c ∷ hex) = elim (value_of c) [
  | none ↦ none
  | some d ↦ base_sixteen (acc * 16 + d) hex
]

abbrev pub reduced : Option ℕ → Option ℕ
reduced none = none
reduced (some n) = some (n % size_mod)

-- The digits of the code
abbrev value_in_code : ℕ → Option ℕ
value_in_code c = if is_valid_hex_character c then some (hex_digit c) else none

same_value : Option ℕ → Option ℕ → Bool
same_value none none = true
same_value (some m) (some n) = m == n
same_value none (some n) = false
same_value (some m) none = false

same_value-path : (o p : Option ℕ) → same_value o p ≡ true → o ≡ p
unfolding same_value
same_value-path none none h = refl
same_value-path (some m) (some n) h = ap some ((==_iff m n).0 h)
same_value-path none (some n) h = cc
same_value-path (some m) none h = cc

-- Both have the same value for each of the first `k` characters.
same_below : ℕ → Bool
same_below zero = true
same_below (suc c) = same_below c && same_value (value_in_code c) (value_of c)

same_below-at : (k c : ℕ) → c < k → same_below k ≡ true → value_in_code c ≡ value_of c
unfolding same_below
same_below-at zero c l h = absurd (omega arith)
same_below-at (suc k) c l h =
    let (before, here) = and_true _ _ h in
    elim (ℕ_discrete c k) [
      | yes e ↦ rw e (same_value-path (value_in_code k) (value_of k) here)
      | no ne ↦ same_below-at k c (omega arith) before
    ]

same_128 : same_below 128 ≡ true
unfolding same_below same_value is_valid_hex_character hex_digit
same_128 = refl

value_above : (c : ℕ) → 128 ≤ c → value_in_code c ≡ value_of c
unfolding is_valid_hex_character
value_above c h = ground (arith, h)

below_or_above : (c : ℕ) → (c < 128) ⊎ (128 ≤ c)
below_or_above c = omega arith

value_in_code-value_of : (c : ℕ) → value_in_code c ≡ value_of c
value_in_code-value_of c = elim (below_or_above c) [
  | inl small ↦ same_below-at 128 c small same_128
  | inr big ↦ value_above c big
]

hex_to_size_from-cons :
    (c : ℕ) (hex : Bytes) (v : ℕ)
    → hex_to_size_from v (c ∷ hex) ≡ elim (value_in_code c) [
      | none ↦ none
      | some d ↦ hex_to_size_from ((v * 16 + d) % size_mod) hex
    ]
unfolding hex_to_size_from
hex_to_size_from-cons c hex v = elim (Bool-cases (is_valid_hex_character c)) [
  | inl ok ↦ rw ok refl
  | inr bad ↦ rw bad refl
]

-- What both do with a digit, or with none
one_more :
    (o : Option ℕ) (hex : Bytes) (acc v : ℕ)
    → ((d : ℕ)
        → hex_to_size_from ((v * 16 + d) % size_mod) hex
          ≡ reduced (base_sixteen (acc * 16 + d) hex))
    → elim o as (λ o. Option ℕ) [
      | none ↦ none
      | some d ↦ hex_to_size_from ((v * 16 + d) % size_mod) hex
    ]
      ≡ reduced (elim o [ none ↦ none | some d ↦ base_sixteen (acc * 16 + d) hex ])
one_more none hex acc v rest = refl
one_more (some d) hex acc v rest = rest d

hex_to_size_from-base_sixteen :
    (hex : Bytes) (acc v : ℕ)
    → v ≡ acc % size_mod
    → hex_to_size_from v hex ≡ reduced (base_sixteen acc hex)
hex_to_size_from-base_sixteen [] acc v e = unfold hex_to_size_from in ap some e
hex_to_size_from-base_sixteen (c ∷ hex) acc v e =
    hex_to_size_from-cons c hex v
    ∙ ap
        (λ o. elim o as (λ o. Option ℕ) [
          | none ↦ none
          | some d ↦ hex_to_size_from ((v * 16 + d) % size_mod) hex
        ])
        (value_in_code-value_of c)
    ∙ one_more (value_of c) hex acc v (λ d.
      hex_to_size_from-base_sixteen hex (acc * 16 + d) ((v * 16 + d) % size_mod) (omega (arith, e)))

-- `ioHttpBodyChunkHexToSize` fails exactly when some character is no hexadecimal digit, 0 to 9, a to f or A to F;
-- else it gives the number that the digits write in base 16, reduced modulo 2 ^ 64.
pub io_http_body_chunk_hex_to_size_lem :
    (hex : Bytes) → io_http_body_chunk_hex_to_size hex ≡ reduced (base_sixteen 0 hex)
unfolding io_http_body_chunk_hex_to_size
io_http_body_chunk_hex_to_size_lem hex = hex_to_size_from-base_sixteen hex 0 0 (omega arith)
