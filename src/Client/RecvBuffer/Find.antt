-- ===== src/Client/RecvBuffer/Find.antt =====
-- The search of `recvBufferFind` against `platformStringFindNeedleRaw`, and what both find.
use mathlib.Core.Path.{subst}
use newth.Prelude.{
  ℕ, zero, suc, ◌+◌, ◌-◌, ◌≤◌, ◌<◌, ◌≡◌, refl, sym, ap, ◌∙◌, inl, inr, Bool-cases, true, false,
  Option, none, some, [], ◌∷◌, ◌==◌, arith, Bytes, length, drop, drop-nil, length-drop, ltb,
  to_upper,
}
use newth.Platform.Receive.{Inbound}
use newth.Client.RecvBuffer.{
  LengthMode, RecvBuffer, content_of, content, match_token, find_token_from, recv_buffer_find,
  same_start, find_needle_from, platform_string_find_needle_raw,
}

match_token-same_start :
    (token p : Bytes) → length token ≤ length p → match_token token p ≡ some (same_start token p)
unfolding match_token same_start
match_token-same_start [] p h = refl
match_token-same_start (t ∷ token) [] h = absurd (omega (arith, h))
match_token-same_start (t ∷ token) (c ∷ p) h =
    let rest = match_token-same_start token p (omega (arith, h)) in
    elim (Bool-cases (to_upper c == to_upper t)) [
      | inl same ↦ rw (same, rest) refl
      | inr other ↦ rw other refl
    ]

-- A text is not found where it does not fit.
same_start_short : (needle p : Bytes) → length p < length needle → same_start needle p ≡ false
unfolding same_start
same_start_short [] p h = absurd (omega (arith, h))
same_start_short (n ∷ needle) [] h = refl
same_start_short (n ∷ needle) (c ∷ p) h =
    let rest = same_start_short needle p (omega (arith, h)) in
    elim (Bool-cases (to_upper c == to_upper n)) [
      | inl same ↦ rw (same, rest) refl
      | inr other ↦ rw other refl
    ]

find_needle_from_short :
    (i : ℕ) (p needle : Bytes) → length p < length needle → find_needle_from i p needle ≡ none
unfolding find_needle_from
find_needle_from_short i [] needle h = refl
find_needle_from_short i (c ∷ p) needle h =
    rw (same_start_short needle (c ∷ p) h)
      (find_needle_from_short (suc i) p needle (omega (arith, h)))

-- From place `i` on both searches go the same way, for a token of two bytes at least.
find_token_from-find_needle_from :
    (t u : ℕ) (needle : Bytes) (i : ℕ) (p : Bytes)
    → find_token_from (i + length p) (t ∷ u ∷ needle) i i p
      ≡ some (find_needle_from i p (t ∷ u ∷ needle))
unfolding find_token_from find_needle_from
find_token_from-find_needle_from t u needle i [] = refl
find_token_from-find_needle_from t u needle i (c ∷ []) =
    rw (same_start_short (t ∷ u ∷ needle) (c ∷ []) (omega arith)) refl
find_token_from-find_needle_from t u needle i (c ∷ d ∷ p) =
    let tokens = t ∷ u ∷ needle in
    let here = c ∷ d ∷ p in
    let more : (suc (length p) == 0) ≡ false = ground arith in
    let next : find_token_from (i + length here) tokens (suc i) (suc i) (d ∷ p)
        ≡ some (find_needle_from (suc i) (d ∷ p) tokens) =
      ap (λ n. find_token_from n tokens (suc i) (suc i) (d ∷ p)) {x = i + length here}
        {y = suc i + length (d ∷ p)} (omega arith)
      ∙ find_token_from-find_needle_from t u needle (suc i) (d ∷ p) in
    elim (Bool-cases (to_upper c == to_upper t)) [
      | inr other ↦ rw (more, other, find_token_from, find_needle_from, same_start) next
      | inl same ↦ elim (Bool-cases (ltb (i + length here) (i + length tokens))) [
        | inl long ↦
            let short : length here < length tokens = ground (arith, long) in
            rw
              (
                same_start_short tokens here short,
                find_needle_from_short (suc i) (d ∷ p) tokens (omega (arith, short)),
              )
              (rw (more, same, long) refl)
        | inr fits ↦
            let room : length tokens ≤ length here = ground (arith, fits) in
            rw (match_token-same_start tokens here room)
              (elim (Bool-cases (same_start tokens here)) [
                | inl found ↦ rw found (rw (more, same, fits) refl)
                | inr missed ↦ rw missed (rw (more, same, fits) next)
              ])
      ]
    ]

-- `r` is the first place of `needle`, both read without regard to case, or there is none.
abbrev pub First : Bytes → Bytes → Option ℕ → Type 0
First haystack needle none = (j : ℕ) → same_start needle (drop j haystack) ≡ false
First haystack needle (some i) =
    (same_start needle (drop i haystack) ≡ true)
    × ((j : ℕ) → j < i → same_start needle (drop j haystack) ≡ false)

abbrev FirstFrom : ℕ → Bytes → Bytes → Option ℕ → Type 0
FirstFrom k haystack needle none = (j : ℕ) → same_start needle (drop j haystack) ≡ false
FirstFrom k haystack needle (some i) =
    (k ≤ i)
    × (same_start needle (drop (i - k) haystack) ≡ true)
    × ((j : ℕ) → j < i - k → same_start needle (drop j haystack) ≡ false)

same_start_nil : (n : ℕ) (needle : Bytes) (j : ℕ) → same_start (n ∷ needle) (drop j []) ≡ false
unfolding same_start
same_start_nil n needle j = rw (drop-nil j) refl

-- What holds at the places of the rest of a text and at its start holds at all its places.
at_every_place :
    (c n : ℕ) (haystack needle : Bytes)
    → same_start (n ∷ needle) (c ∷ haystack) ≡ false
    → ((j : ℕ) → same_start (n ∷ needle) (drop j haystack) ≡ false)
    → (j : ℕ) → same_start (n ∷ needle) (drop j (c ∷ haystack)) ≡ false
at_every_place c n haystack needle missed h zero = missed
at_every_place c n haystack needle missed h (suc j) = h j

FirstFrom-later :
    (k c n : ℕ) (haystack needle : Bytes) (r : Option ℕ)
    → same_start (n ∷ needle) (c ∷ haystack) ≡ false
    → FirstFrom (suc k) haystack (n ∷ needle) r
    → FirstFrom k (c ∷ haystack) (n ∷ needle) r
FirstFrom-later k c n haystack needle none missed h = at_every_place c n haystack needle missed h
FirstFrom-later k c n haystack needle (some i) missed (le, here, before) =
    let m = i - suc k in
    let e : i - k ≡ suc m = omega (arith, le) in rw e (omega (arith, le), here, earlier before)
  where
    earlier :
        ((j : ℕ) → j < i - suc k → same_start (n ∷ needle) (drop j haystack) ≡ false)
        → (j : ℕ) → j < suc (i - suc k)
        → same_start (n ∷ needle) (drop j (c ∷ haystack)) ≡ false
    earlier b zero l = missed
    earlier b (suc j) l = b j (omega (arith, l))

find_needle_from-FirstFrom :
    (k n : ℕ) (haystack needle : Bytes)
    → FirstFrom k haystack (n ∷ needle) (find_needle_from k haystack (n ∷ needle))
unfolding find_needle_from
find_needle_from-FirstFrom k n [] needle = same_start_nil n needle
find_needle_from-FirstFrom k n (c ∷ haystack) needle =
    elim (Bool-cases (same_start (n ∷ needle) (c ∷ haystack))) [
      | inl found ↦
          let zero_off : k - k ≡ 0 = omega arith in
          rw found (omega arith, rw zero_off found, λ j l. absurd (omega (arith, l)))
      | inr missed ↦ rw missed (
          FirstFrom-later k c n haystack needle _ missed
            (find_needle_from-FirstFrom (suc k) n haystack needle))
    ]

First-short :
    (n : ℕ) (haystack needle : Bytes)
    → length haystack < length (n ∷ needle)
    → First haystack (n ∷ needle) none
First-short n haystack needle h j =
    same_start_short (n ∷ needle) (drop j haystack) (omega (arith, h, length-drop j haystack))

FirstFrom-First :
    (haystack needle : Bytes) (r : Option ℕ)
    → FirstFrom 0 haystack needle r
    → First haystack needle r
FirstFrom-First haystack needle none h = h
FirstFrom-First haystack needle (some i) h =
    let e : i - 0 ≡ i = omega arith in
    (
      subst (λ m. same_start needle (drop m haystack) ≡ true) e h.1,
      subst (λ m. (j : ℕ) → j < m → same_start needle (drop j haystack) ≡ false) e h.2,
    )

find_token-First :
    (buffer : Bytes) (t u : ℕ) (needle : Bytes)
    → 0 < length buffer
    → (r : Option ℕ) × (find_token_from (length buffer) (t ∷ u ∷ needle) 0 0 buffer ≡ some r)
      × (platform_string_find_needle_raw buffer (t ∷ u ∷ needle) ≡ r)
      × First buffer (t ∷ u ∷ needle) r
unfolding platform_string_find_needle_raw
find_token-First buffer t u needle h =
    let some_data : (length buffer == 0) ≡ false = ground (arith, h) in
    let same : find_token_from (length buffer) (t ∷ u ∷ needle) 0 0 buffer
        ≡ some (find_needle_from 0 buffer (t ∷ u ∷ needle)) =
      ap (λ n. find_token_from n (t ∷ u ∷ needle) 0 0 buffer) {x = length buffer}
        {y = 0 + length buffer} (omega arith)
      ∙ find_token_from-find_needle_from t u needle 0 buffer in
    let given : (length (t ∷ u ∷ needle) == 0) ≡ false = ground arith in
    elim (Bool-cases (ltb (length buffer) (length (t ∷ u ∷ needle)))) [
      | inl long ↦
          let short : length buffer < length (t ∷ u ∷ needle) = ground (arith, long) in
          (
            none,
            same ∙ ap some (find_needle_from_short 0 buffer (t ∷ u ∷ needle) short),
            rw (some_data, given, long) refl,
            First-short t buffer (u ∷ needle) short,
          )
      | inr room ↦ (
        find_needle_from 0 buffer (t ∷ u ∷ needle),
        same,
        rw (some_data, given, room) refl,
        FirstFrom-First buffer (t ∷ u ∷ needle) _
            (find_needle_from-FirstFrom 0 t buffer (u ∷ needle)),
      )
    ]

find_at_start :
    (buffer : Option Bytes) (max : ℕ) (mode : LengthMode) (inbound : Inbound) (token : Bytes)
    → 0 < length (content_of buffer)
    → 2 ≤ length token
    → (r : Option ℕ) × (recv_buffer_find
          (record { buffer = buffer; max = max; mode = mode; inbound = inbound })
          0
          token
        ≡ some r)
      × (platform_string_find_needle_raw (content_of buffer) token ≡ r)
      × First (content_of buffer) token r
unfolding recv_buffer_find
find_at_start none max mode inbound token h k = absurd (omega (arith, h))
find_at_start (some b) max mode inbound [] h k = absurd (omega (arith, k))
find_at_start (some b) max mode inbound (t ∷ []) h k = absurd (omega (arith, k))
find_at_start (some b) max mode inbound (t ∷ u ∷ needle) h k =
    let some_data : (length b == 0) ≡ false = ground (arith, h) in
    let start : ltb (length b) 0 ≡ false = ground arith in
    rw (some_data, start) (find_token-First b t u needle h)

-- From the start of data that is not empty, `recvBufferFind` with a token of two bytes at least reads
-- inside the data. It gives what `platformStringFindNeedleRaw` gives: the first place where the token
-- stands, without regard to case, or none where there is no such place.
pub recv_buffer_find-First :
    (self : RecvBuffer) (token : Bytes)
    → 0 < length (content self)
    → 2 ≤ length token
    → (r : Option ℕ) × (recv_buffer_find self 0 token ≡ some r)
      × (platform_string_find_needle_raw (content self) token ≡ r)
      × First (content self) token r
recv_buffer_find-First self token h k =
    find_at_start self.buffer self.max self.mode self.inbound token h k

-- A buffer that holds a text
abbrev pub in_buffer : Bytes → RecvBuffer
in_buffer text = record {
  buffer = some text;
  max = 0;
  mode = LengthMode.length_complete;
  inbound = record { replies = []; stream = [] };
}

-- The place that `platformStringFindNeedleRaw` gives is the first one.
pub needle-First :
    (haystack needle : Bytes) (r : Option ℕ)
    → 0 < length haystack
    → 2 ≤ length needle
    → platform_string_find_needle_raw haystack needle ≡ r
    → First haystack needle r
needle-First haystack needle r h k e =
    let (r', _, e', first) = recv_buffer_find-First (in_buffer haystack) needle h k in
    subst (First haystack needle) (sym e' ∙ e) first
