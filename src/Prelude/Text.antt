-- ===== src/Prelude/Text.antt =====
-- C strings as lists of bytes without the terminator, and the functions of <string.h> and
-- <ctype.h> that the program calls on them, in the C locale.
use Prim.Native.Nat.{ℕ, ◌-◌}
use Prim.Native.Char.{code}
use Prim.Native.String.{String}
use mathlib.Core.Path.{◌≡◌, refl, ap, ◌∙◌}
use mathlib.Core.Logic.{◌≢◌, inl, inr}
use mathlib.Core.Bool.{Bool, true, false, ◌&&◌, ◌||◌}
use mathlib.Core.Option.{Option, none, some}
use mathlib.Core.List.{List, [], ◌∷◌, ◌++◌, append-nil}
use native.Mathlib.Omega.{arith}
use newth.Prelude.Tests.{Bool-cases, leb, ◌==◌, if◌then◌else◌}
use newth.Prelude.Lists.{get_or, drop, length}

abbrev pub Bytes : Type 0
Bytes = List ℕ

-- The code points of a text: its bytes, if it is ASCII.
abbrev pub codes : String → Bytes
codes String.[] = []
codes (String.◌∷◌ c s) = code c ∷ codes s

-- `s[i]`, where index `strlen(s)` holds the terminator.
abbrev pub at : Bytes → ℕ → ℕ
at s i = get_or s i 0

abbrev pub within : ℕ → ℕ → ℕ → Bool
within lo hi c = leb lo c && leb c hi

abbrev pub is_digit : ℕ → Bool
is_digit c = within b'0' b'9' c

abbrev pub is_alnum : ℕ → Bool
is_alnum c = is_digit c || within b'A' b'Z' c || within b'a' b'z' c

abbrev pub to_upper : ℕ → ℕ
to_upper c = if within b'a' b'z' c then c - 32 else c

-- `strncmp(s, prefix, strlen(prefix)) == 0`
unfoldable pub starts_with : Bytes → Bytes → Bool
starts_with [] s = true
starts_with (c ∷ cs) [] = false
starts_with (c ∷ cs) (x ∷ xs) = c == x && starts_with cs xs

-- `strcmp(a, b) == 0`
unfoldable pub equal : Bytes → Bytes → Bool
equal [] [] = true
equal (x ∷ xs) (y ∷ ys) = x == y && equal xs ys
equal _ _ = false

-- The text in a buffer, up to its first 0
unfoldable pub c_string : Bytes → Bytes
c_string [] = []
c_string (c ∷ text) = let rest = c_string text in if c == 0 then [] else c ∷ rest

-- `strchr(s, c)`: the text before the first `c`, and the text from it on.
abbrev pub cons_fst : ℕ → Option (Bytes × Bytes) → Option (Bytes × Bytes)
cons_fst x none = none
cons_fst x (some (pre, rest)) = some (x ∷ pre, rest)

unfoldable pub split_at : ℕ → Bytes → Option (Bytes × Bytes)
split_at c [] = none
split_at c (x ∷ xs) = if x == c then some ([], x ∷ xs) else cons_fst x (split_at c xs)

-- `strstr(s, needle)` with a needle that is not empty, split in the same way.
unfoldable pub split_on : Bytes → Bytes → Option (Bytes × Bytes)
unfolding starts_with
split_on needle [] = none
split_on needle (x ∷ xs) =
    if starts_with needle (x ∷ xs) then some ([], x ∷ xs) else cons_fst x (split_on needle xs)

pub starts_with-append : (n s : Bytes) → starts_with n (n ++ s) ≡ true
unfolding starts_with
starts_with-append [] s = refl
starts_with-append (c ∷ cs) s = ground (arith, starts_with-append cs s)

pub starts_with-eq : (n s : Bytes) → starts_with n s ≡ true → s ≡ n ++ drop (length n) s
unfolding starts_with
starts_with-eq [] s h = refl
starts_with-eq (c ∷ cs) [] h = cc
starts_with-eq (c ∷ cs) (x ∷ xs) h = ground (arith, starts_with-eq cs xs)

-- `strstr` finds a needle that is there.
pub split_on-append :
    (c : ℕ) (cs pre post : Bytes) → split_on (c ∷ cs) (pre ++ ((c ∷ cs) ++ post)) ≢ none
unfolding split_on
split_on-append c cs [] post h = ground (arith, starts_with-append cs post)
split_on-append c cs (x ∷ pre) post h = ground (arith, split_on-append c cs pre post)

pub cons_fst-some :
    (x : ℕ) (o : Option (Bytes × Bytes)) {pre rest : Bytes}
    → cons_fst x o ≡ some (pre, rest)
    → (p : Bytes) × (o ≡ some (p, rest)) × (pre ≡ x ∷ p)
cons_fst-some x none h = cc
cons_fst-some x (some (p, r)) h = (p, cc, cc)

-- What `strstr` returns begins with the needle, and follows the skipped text.
pub split_on-some :
    (n s : Bytes) {pre rest : Bytes}
    → split_on n s ≡ some (pre, rest)
    → (s ≡ pre ++ rest) × (rest ≡ n ++ drop (length n) rest)
unfolding split_on
split_on-some n [] h = cc
split_on-some n (x ∷ xs) {pre} {rest} h = elim (Bool-cases (starts_with n (x ∷ xs))) [
  | inl hit ↦ ground (arith, starts_with-eq n (x ∷ xs) hit)
  | inr miss ↦
      let (p, found, e) = cons_fst-some x (split_on n xs) (rw miss at h) in
      let ih = split_on-some n xs found in (rw e (ap (◌∷◌ x) ih.0), ih.1)
]

-- `strchr` finds a byte that is there.
pub split_at-some :
    (c : ℕ) (s : Bytes) {pre rest : Bytes}
    → split_at c s ≡ some (pre, rest)
    → (s ≡ pre ++ rest) × (rest ≡ c ∷ drop 1 rest)
unfolding split_at
split_at-some c [] h = cc
split_at-some c (x ∷ xs) {pre} {rest} h = elim (Bool-cases (x == c)) [
  | inl hit ↦ ground arith
  | inr miss ↦
      let (p, found, e) = cons_fst-some x (split_at c xs) (rw miss at h) in
      let ih = split_at-some c xs found in (rw e (ap (◌∷◌ x) ih.0), ih.1)
]

-- The byte `c` stands nowhere in the text.
abbrev pub NotIn : ℕ → Bytes → Type 0
NotIn c [] = Unit
NotIn c (x ∷ s) = (x ≢ c) × NotIn c s

pub NotIn-append : (c : ℕ) (s t : Bytes) → NotIn c s → NotIn c t → NotIn c (s ++ t)
NotIn-append c [] t h k = k
NotIn-append c (x ∷ s) t h k = (h.0, NotIn-append c s t h.1 k)

abbrev pub after_text : Bytes → Option (Bytes × Bytes) → Option (Bytes × Bytes)
after_text pre none = none
after_text pre (some (before, rest)) = some (pre ++ before, rest)

-- `strchr` passes over a text in which the byte is not.
pub split_at-append :
    (c : ℕ) (pre s : Bytes) → NotIn c pre → split_at c (pre ++ s) ≡ after_text pre (split_at c s)
unfolding split_at
split_at-append c [] s h = after_nil (split_at c s)
  where
    after_nil : (o : Option (Bytes × Bytes)) → o ≡ after_text [] o
    after_nil none = refl
    after_nil (some p) = refl
split_at-append c (x ∷ pre) s h =
    let miss : (x == c) ≡ false = ground (arith, h.0) in
    rw (miss, split_at) (rw (split_at-append c pre s h.1) (cons_after (split_at c s)))
  where
    cons_after :
        (o : Option (Bytes × Bytes)) → cons_fst x (after_text pre o) ≡ after_text (x ∷ pre) o
    cons_after none = refl
    cons_after (some p) = refl

pub split_at_here : (c : ℕ) (s : Bytes) → split_at c (c ∷ s) ≡ some ([], c ∷ s)
unfolding split_at
split_at_here c s = let hit : (c == c) ≡ true = ground arith in rw hit

pub split_at-none : (c : ℕ) (s : Bytes) → NotIn c s → split_at c s ≡ none
unfolding split_at
split_at-none c [] h = refl
split_at-none c (x ∷ s) h =
    let miss : (x == c) ≡ false = ground (arith, h.0) in rw miss (rw (split_at-none c s h.1))

-- `strstr` finds the needle behind a text without its first byte.
pub split_on_first :
    (c : ℕ) (cs pre post : Bytes)
    → NotIn c pre
    → split_on (c ∷ cs) (pre ++ (c ∷ (cs ++ post))) ≡ some (pre, c ∷ (cs ++ post))
unfolding split_on
split_on_first c cs [] post h = ground (arith, starts_with-append cs post)
split_on_first c cs (x ∷ pre) post h = ground (arith, h.0, split_on_first c cs pre post h.1)

-- `strchr` finds the byte behind a text in which it is not.
pub split_at_first :
    (c : ℕ) (pre post : Bytes) → NotIn c pre → split_at c (pre ++ (c ∷ post)) ≡ some (pre, c ∷ post)
split_at_first c pre post h =
    split_at-append c pre (c ∷ post) h
    ∙ ap (after_text pre) (split_at_here c post)
    ∙ ap (λ t. some (t, c ∷ post)) (append-nil pre)
