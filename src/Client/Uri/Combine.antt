-- ===== src/Client/Uri/Combine.antt =====
-- `uriPathCombine` puts exactly one divider between the two paths.
use newth.Prelude.{
  ℕ, zero, suc, ◌+◌, ◌-◌, ◌≤◌, ◌<◌, ◌≡◌, ◌≢◌, refl, sym, ap, ◌∙◌, inl, inr, some, [], ◌∷◌, ◌++◌,
  append_assoc, arith, Bool-cases, leb, Bytes, length, length-append, take, at,
}
use newth.Client.Uri.{back_over_dividers, skip_dividers, end_with_divider, uri_path_combine}

abbrev pub AllDividers : Bytes → Type 0
AllDividers [] = Unit
AllDividers (c ∷ s) = (c ≡ b'/') × AllDividers s

at-append : (s t : Bytes) (k : ℕ) → at (s ++ t) (length s + k) ≡ at t k
at-append [] t k = ap (at t) (omega arith)
at-append (c ∷ s) t k =
    ap (at (c ∷ (s ++ t))) {x = suc (length s) + k} {y = suc (length s + k)} (omega arith)
    ∙ at-append s t k

at_divider : (s : Bytes) (k : ℕ) → AllDividers s → k < length s → at s k ≡ b'/'
at_divider [] k h l = absurd (omega arith)
at_divider (c ∷ s) zero h l = h.0
at_divider (c ∷ s) (suc k) h l = at_divider s k h.1 (omega arith)

take_through :
    (b : Bytes) (e : ℕ) (t : Bytes) → take (suc (length b)) (b ++ (e ∷ t)) ≡ b ++ (e ∷ [])
take_through [] e t = refl
take_through (c ∷ b) e t = ap (◌∷◌ c) (take_through b e t)

back_over_dividers_lem :
    (output : Bytes) (m idx : ℕ)
    → suc m ≤ idx
    → at output (suc m) ≢ b'/'
    → ((i : ℕ) → suc m < i → i ≤ idx → at output i ≡ b'/')
    → back_over_dividers output idx ≡ suc m
unfolding back_over_dividers
back_over_dividers_lem output m zero l e h = absurd (omega arith)
back_over_dividers_lem output m (suc idx) l e h = elim (Bool-cases (leb (suc m) idx)) [
  | inl earlier ↦
      let back =
        back_over_dividers_lem output m idx (ground (arith, earlier)) e
          (λ i a b. h i a (omega arith)) in
      ground (arith, earlier, back, h (suc idx))
  | inr last ↦ let same : m ≡ idx = ground (arith, last) in rw (sym same) (ground (arith, e))
]

skip_dividers_lem :
    (dividers rest : Bytes)
    → AllDividers dividers
    → at rest 0 ≢ b'/'
    → skip_dividers (dividers ++ rest) ≡ rest
unfolding skip_dividers
skip_dividers_lem [] [] h e = refl
skip_dividers_lem [] (c ∷ rest) h e = ground arith
skip_dividers_lem (c ∷ dividers) rest h e = ground (arith, skip_dividers_lem dividers rest h.1 e)

-- Where the first path has at least two bytes before its final dividers, the combined path is those
-- bytes, one divider, and the second path without its leading dividers, whatever dividers stood between.
pub uri_path_combine_lem :
    (a e : ℕ) (b dividers dividers' rest : Bytes)
    → e ≢ b'/'
    → AllDividers dividers
    → AllDividers dividers'
    → at rest 0 ≢ b'/'
    → uri_path_combine (a ∷ (b ++ (e ∷ dividers))) (dividers' ++ rest)
      ≡ some ((a ∷ (b ++ (e ∷ []))) ++ (b'/' ∷ rest))
unfolding uri_path_combine end_with_divider
uri_path_combine_lem a e b dividers dividers' rest last h h' first =
    let path1 = a ∷ (b ++ (e ∷ dividers)) in
    let size = length-append b (e ∷ dividers) in
    let last_byte : at path1 (suc (length b)) ≡ e =
      ap (at path1) {x = suc (length b)} {y = suc (length b + 0)} (omega arith)
      ∙ at-append b (e ∷ dividers) 0 in
    let beyond : (i : ℕ)
        → suc (length b) < i
        → i ≤ length (b ++ (e ∷ dividers))
        → at path1 i ≡ b'/' =
      λ i low high.
        ap (at path1) {x = i} {y = suc (length b + suc (i - suc (suc (length b))))} (omega arith)
        ∙ at-append b (e ∷ dividers) (suc (i - suc (suc (length b))))
        ∙ at_divider dividers (i - suc (suc (length b))) h (omega (arith, size)) in
    let stop : back_over_dividers path1 (length (b ++ (e ∷ dividers))) ≡ suc (length b) =
      back_over_dividers_lem path1 (length b) _ (omega (arith, size)) (rw last_byte last) beyond in
    rw (stop, uri_path_combine, skip_dividers_lem dividers' rest h' first)
      (rw take_through (ap (λ t. some (a ∷ t)) (append_assoc (b ++ (e ∷ [])) (b'/' ∷ []) rest)))
