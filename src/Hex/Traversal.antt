-- ===== src/Hex/Traversal.antt =====
-- What `hexConvertStringToAscii` leaves in a request path.
use newth.Prelude.{
  ℕ, zero, suc, ◌+◌, ◌≤◌, ◌≡◌, ◌≢◌, refl, ap, ◌∙◌, none, some, [], ◌∷◌, ◌++◌, inl, inr, arith,
  Option-cases, Bytes, length, drop, split_on, split_on-some, split_on-append, length-append,
}
use newth.Hex.{up_dir, strip_up, unescape, hex_convert_string_to_ascii}

-- The bytes "/.." stand nowhere in the text.
abbrev pub NoUpDir : Bytes → Type 0
NoUpDir s = (pre post : Bytes) → s ≢ pre ++ (up_dir ++ post)

-- One deletion removes exactly two bytes.
length-delete :
    (pre rest : Bytes)
    → rest ≡ up_dir ++ drop 3 rest
    → length (pre ++ (b'/' ∷ drop 3 rest)) + 2 ≡ length (pre ++ rest)
length-delete pre rest e =
    omega (arith, length-append pre (b'/' ∷ drop 3 rest), length-append pre rest, ap length e)

pub length-strip_up : (fuel : ℕ) (s : Bytes) → length (strip_up fuel s) ≤ length s
unfolding strip_up
length-strip_up zero s = omega arith
length-strip_up (suc fuel) s = elim (Option-cases (split_on up_dir s)) [
  | inl gone ↦ rw (gone, strip_up) (omega arith)
  | inr ((pre, rest), found) ↦
      let (e, f) = split_on-some up_dir s found in
      rw (found, strip_up)
        (omega (
          arith,
          length-strip_up fuel (pre ++ (b'/' ∷ drop 3 rest)),
          length-delete pre rest f,
          ap length e,
        ))
]

strip_up-split_on :
    (fuel : ℕ) (s : Bytes) → length s ≤ fuel → split_on up_dir (strip_up fuel s) ≡ none
unfolding strip_up
strip_up-split_on zero [] h = unfold split_on in refl
strip_up-split_on zero (x ∷ s) h = absurd (omega arith)
strip_up-split_on (suc fuel) s h = elim (Option-cases (split_on up_dir s)) [
  | inl gone ↦ rw (gone, strip_up) gone
  | inr ((pre, rest), found) ↦
      let (e, f) = split_on-some up_dir s found in
      rw (found, strip_up)
        (strip_up-split_on fuel (pre ++ (b'/' ∷ drop 3 rest))
          (omega (arith, length-delete pre rest f, ap length e)))
]

-- Every path that `hexConvertStringToAscii` delivers, whatever the request held, has no "/.." in it.
pub hex_convert_string_to_ascii-NoUpDir :
    (url : Bytes) {path : Bytes} → hex_convert_string_to_ascii url ≡ some path → NoUpDir path
unfolding hex_convert_string_to_ascii
hex_convert_string_to_ascii-NoUpDir url {path} h pre post e = elim (Option-cases (unescape url)) [
  | inl fault ↦ ground (arith, fault)
  | inr (s, decoded) ↦
      let out : strip_up (length s) s ≡ path = ground (arith, decoded) in
      let gone = strip_up-split_on (length s) s (omega arith) in
      split_on-append b'/' (b'.' ∷ b'.' ∷ []) pre post (rw (← e, ← out) gone)
]

pub split_on_of_NoUpDir : (s : Bytes) → NoUpDir s → split_on up_dir s ≡ none
split_on_of_NoUpDir s n = elim (Option-cases (split_on up_dir s)) [
  | inl gone ↦ gone
  | inr ((pre, rest), found) ↦
      let (e, f) = split_on-some up_dir s found in
      absurd (n pre (drop 3 rest) (e ∙ ap (◌++◌ pre) f))
]
