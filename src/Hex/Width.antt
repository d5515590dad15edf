-- ===== src/Hex/Width.antt =====
-- `hexGetStringLength` counts the hexadecimal digits of its argument.
use Prim.Native.Nat.{max}
use native.Mathlib.Nat.{pow-suc}
use native.Mathlib.Decide.{ℕ_discrete}
use newth.Prelude.{
  ℕ, zero, suc, ◌+◌, ◌*◌, ◌/◌, ◌^◌, ◌≤◌, ◌<◌, ◌≡◌, ◌≢◌, refl, inl, inr, arith, Bool-cases, ◌==◌,
}
use newth.Hex.{count_digits, hex_get_string_length}

-- The rounds that the loop makes, as a number added to `r`.
record Counts (n r out : ℕ) : Type 0 where
  digits : ℕ
  total : out ≡ r + digits
  upper : n < 16 ^ digits
  empty : n ≡ 0 → digits ≡ 0
  lower : (n ≢ 0) → 16 ^ digits ≤ 16 * n

shift :
    (n d : ℕ)
    → (n / 16 ≡ 0 → d ≡ 0)
    → (n / 16 ≢ 0 → 16 ^ d ≤ 16 * (n / 16))
    → n ≢ 0
    → 16 ^ suc d ≤ 16 * n
shift n d e l ne = elim (ℕ_discrete (n / 16) 0) [
  | yes z ↦ let d0 = e z in rw d0 (omega arith)
  | no nz ↦ rw pow-suc (omega (arith, l nz))
]

count_digits-Counts : (fuel n r : ℕ) → n ≤ fuel → Counts n r (count_digits fuel n r)
unfolding count_digits
count_digits-Counts zero n r h = record {
  digits = 0;
  total = omega arith;
  upper = omega arith;
  empty = λ _. refl;
  lower = λ ne. omega arith;
}
count_digits-Counts (suc fuel) n r h = elim (Bool-cases (n == 0)) [
  | inl done ↦ record {
    digits = 0;
    total = ground arith;
    upper = ground arith;
    empty = λ _. refl;
    lower = λ ne. ground arith;
  }
  | inr more ↦
      let c = count_digits-Counts fuel (n / 16) (r + 1) (ground arith) in
      record {
        digits = suc c.digits;
        total = ground (arith, c.total);
        upper = rw pow-suc (omega (arith, c.upper));
        empty = λ e. ground arith;
        lower = λ ne. shift n c.digits c.empty c.lower ne;
      }
]

digits_pos : (n d : ℕ) → n < 16 ^ d → n ≢ 0 → 1 ≤ d
digits_pos n zero h ne = absurd (ne (omega arith))
digits_pos n (suc d) h ne = omega arith

bounds :
    {n out : ℕ} → n ≢ 0 → Counts n 0 out → (n < 16 ^ out) × (1 ≤ out) × (16 ^ out ≤ max 16 (16 * n))
bounds {n} {out} ne c =
    let e : out ≡ c.digits = omega (arith, c.total) in
    rw e (c.upper, digits_pos n c.digits c.upper ne, omega (arith, c.lower ne))

-- The result is the least number of hexadecimal digits, at least 1, in which `n` can be written.
pub hex_get_string_length_bounds :
    (n : ℕ)
    → (n < 16 ^ hex_get_string_length n)
      × (1 ≤ hex_get_string_length n)
      × (16 ^ hex_get_string_length n ≤ max 16 (16 * n))
unfolding hex_get_string_length
hex_get_string_length_bounds n = elim (Bool-cases (n == 0)) [
  | inl nil ↦ rw (nil, hex_get_string_length) (ground arith)
  | inr pos ↦
      let c = count_digits-Counts n n 0 (omega arith) in
      rw (pos, hex_get_string_length) (bounds (ground arith) c)
]
