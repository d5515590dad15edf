-- ===== src/Prelude/Digits.antt =====
-- How `printf` writes a number in a base: `%lu` and `%lx`.
use Prim.Native.Nat.{ℕ, zero, suc, ◌+◌, ◌-◌, ◌*◌, ◌/◌, ◌%◌, ◌^◌, ◌≤◌, ◌<◌}
use mathlib.Core.Path.{◌≡◌, refl, ap}
use mathlib.Core.Logic.{inl, inr}
use mathlib.Core.List.{List, [], ◌∷◌, ◌++◌, map}
use native.Mathlib.Nat.{pow-suc}
use native.Mathlib.Omega.{arith}
use newth.Prelude.Lists.{length, length-append, length-map}
use mathlib.Core.Bool.{false}
use newth.Prelude.Tests.{ltb, if◌then◌else◌, Bool-cases}
use newth.Prelude.Text.{Bytes}

-- The digits of a number, the first one first, on fuel; `n` rounds are enough.
unfoldable pub digits_from : ℕ → ℕ → ℕ → List ℕ
digits_from base zero n = n ∷ []
digits_from base (suc fuel) n =
    let more = digits_from base fuel (n / base) ++ (n % base ∷ []) in
    if ltb n base then n ∷ [] else more

abbrev pub digit_char : ℕ → ℕ
digit_char d = if ltb d 10 then b'0' + d else b'a' + d - 10

unfoldable pub print_number : ℕ → ℕ → Bytes
unfolding digits_from
print_number base n = map digit_char (digits_from base n n)

-- The number that digits stand for, read after `acc`.
abbrev pub value_from : ℕ → ℕ → List ℕ → ℕ
value_from base acc [] = acc
value_from base acc (d ∷ ds) = value_from base (acc * base + d) ds

pub value_from-append :
    (base acc d : ℕ) (ds : List ℕ)
    → value_from base acc (ds ++ (d ∷ [])) ≡ value_from base acc ds * base + d
value_from-append base acc d [] = refl
value_from-append base acc d (e ∷ ds) = value_from-append base (acc * base + e) d ds

abbrev pub AllBelow : ℕ → List ℕ → Type 0
AllBelow base [] = Unit
AllBelow base (d ∷ ds) = (d < base) × AllBelow base ds

AllBelow-append :
    (base d : ℕ) (ds : List ℕ) → AllBelow base ds → d < base → AllBelow base (ds ++ (d ∷ []))
AllBelow-append base d [] h l = (l, tt)
AllBelow-append base d (e ∷ ds) h l = (h.0, AllBelow-append base d ds h.1 l)

-- In base 16 the digits are below 16 and stand for the number.
pub digits_from_sixteen :
    (fuel n : ℕ)
    → n ≤ fuel
    → AllBelow 16 (digits_from 16 fuel n) × (value_from 16 0 (digits_from 16 fuel n) ≡ n)
unfolding digits_from
digits_from_sixteen zero n h = (omega arith, omega arith)
digits_from_sixteen (suc fuel) n h = elim (Bool-cases (ltb n 16)) [
  | inl small ↦ rw small (ground (arith, small), omega arith)
  | inr big ↦
      let ih = digits_from_sixteen fuel (n / 16) (ground (arith, big)) in
      rw big (
        AllBelow-append 16 (n % 16) (digits_from 16 fuel (n / 16)) ih.0 (omega arith),
        omega (arith, value_from-append 16 0 (n % 16) (digits_from 16 fuel (n / 16)), ih.1),
      )
]

-- A number below 10 ^ k has at most `k` decimal digits.
pub length-digits_from :
    (k fuel n : ℕ) → n ≤ fuel → n < 10 ^ suc k → length (digits_from 10 fuel n) ≤ suc k
unfolding digits_from
length-digits_from k zero n h l = omega arith
length-digits_from zero (suc fuel) n h l = ground arith
length-digits_from (suc k) (suc fuel) n h l = elim (Bool-cases (ltb n 10)) [
  | inl small ↦ rw small (omega arith)
  | inr big ↦
      let less : n / 10 < 10 ^ suc k = let l' = rw pow-suc at l in omega arith in
      let shorter = length-digits_from k fuel (n / 10) (ground (arith, big)) less in
      rw big (omega (arith, length-append (digits_from 10 fuel (n / 10)) (n % 10 ∷ []), shorter))
]

-- `%lu` of a 64-bit number has at most 20 characters.
pub length-print_number : (n : ℕ) → n < 2 ^ 64 → length (print_number 10 n) ≤ 20
unfolding print_number
length-print_number n h = omega (
  arith,
  length-map (digits_from 10 n n) digit_char,
  length-digits_from 19 n n (omega arith) (omega arith),
)

digits_from_one : (fuel n : ℕ) → n < 16 → digits_from 16 fuel n ≡ n ∷ []
unfolding digits_from
digits_from_one zero n h = refl
digits_from_one (suc fuel) n h = ground arith

digits_from_two : (n : ℕ) → 16 ≤ n → n < 256 → digits_from 16 n n ≡ n / 16 ∷ n % 16 ∷ []
unfolding digits_from
digits_from_two zero h k = absurd (omega arith)
digits_from_two (suc m) h k =
    let big : ltb (suc m) 16 ≡ false = ground arith in
    let first : digits_from 16 m (suc m / 16) ≡ suc m / 16 ∷ [] =
      digits_from_one m (suc m / 16) (omega arith) in
    rw big (ap (λ ds. ds ++ (suc m % 16 ∷ [])) first)

-- A number from 16 to 255 has two hexadecimal digits.
pub print_number_two :
    (n : ℕ) → 16 ≤ n → n < 256 → print_number 16 n ≡ digit_char (n / 16) ∷ digit_char (n % 16) ∷ []
unfolding print_number
print_number_two n h k = ap (map digit_char) (digits_from_two n h k)
