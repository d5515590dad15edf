-- ===== src/Client/Uri/Last.antt =====
-- The last name of a path: `uriPathLast` of src/client/uri.c.
use newth.Prelude.{
  ℕ, ◌-◌, ◌≡◌, refl, ap, ◌∙◌, inl, inr, false, Bool-cases, Option, none, some, [], ◌∷◌, ◌++◌, arith,
  Bytes, length, length-append, take, take-append_left, NotIn, ◌==◌, if◌then◌else◌,
}

-- What a final '/' gives: the text from `p` on without it, or NULL where `p` is NULL.
unfoldable pub without_trailing : Option Bytes → Option Bytes
without_trailing none = none
without_trailing (some p) = some (take (length p - 1) p)

-- The loop of `uriPathLast`, where `p` is the text behind the last '/' so far. It is NULL at index 0, so
-- that the test of the index never decides.
unfoldable pub last_from : Option Bytes → Bytes → Option Bytes
unfolding without_trailing
last_from p [] = p
last_from p (c ∷ []) = if c == b'/' then without_trailing p else p
last_from p (c ∷ d ∷ path) =
    let behind = last_from (some (d ∷ path)) (d ∷ path) in
    let on = last_from p (d ∷ path) in if c == b'/' then behind else on

-- `uriPathLast`
unfoldable pub uri_path_last : Bytes → Option Bytes
unfolding last_from
uri_path_last path = last_from none path

-- A name has characters, and none is a divider.
abbrev pub IsName : Bytes → Type 0
IsName [] = ⊥
IsName (c ∷ name) = NotIn b'/' (c ∷ name)

last_from-plain : (p : Option Bytes) (t : Bytes) → NotIn b'/' t → last_from p t ≡ p
unfolding last_from
last_from-plain p [] h = refl
last_from-plain p (c ∷ []) h = ground (arith, h.0)
last_from-plain p (c ∷ d ∷ t) h =
    let apart : (c == b'/') ≡ false = ground (arith, h.0) in
    rw apart (last_from-plain p (d ∷ t) h.1)

last_from-divider :
    (p : Option Bytes) (t : Bytes)
    → NotIn b'/' t
    → last_from p (t ++ (b'/' ∷ [])) ≡ without_trailing p
unfolding last_from
last_from-divider p [] h = refl
last_from-divider p (c ∷ []) h =
    let apart : (c == b'/') ≡ false = ground (arith, h.0) in rw apart refl
last_from-divider p (c ∷ d ∷ t) h =
    let apart : (c == b'/') ≡ false = ground (arith, h.0) in
    rw apart (last_from-divider p (d ∷ t) h.1)

-- A text that begins behind a divider replaces what stood there before.
last_from-append :
    (p : Option Bytes) (pre : Bytes) (c : ℕ) (t : Bytes)
    → last_from p (pre ++ (b'/' ∷ c ∷ t)) ≡ last_from (some (c ∷ t)) (c ∷ t)
unfolding last_from
last_from-append p [] c t = refl
last_from-append p (x ∷ []) c t = elim (Bool-cases (x == b'/')) [
  | inl e ↦ rw e refl
  | inr e ↦ rw e refl
]
last_from-append p (x ∷ y ∷ pre) c t = elim (Bool-cases (x == b'/')) [
  | inl e ↦ rw e (last_from-append _ (y ∷ pre) c t)
  | inr e ↦ rw e (last_from-append p (y ∷ pre) c t)
]

-- The last name of a path is the one behind its last divider, whatever stands before that divider, and
-- whether or not another divider ends the path.
pub uri_path_last_lem :
    (pre name : Bytes)
    → IsName name
    → (uri_path_last (pre ++ (b'/' ∷ name)) ≡ some name)
      × (uri_path_last (pre ++ (b'/' ∷ (name ++ (b'/' ∷ [])))) ≡ some name)
unfolding uri_path_last without_trailing
uri_path_last_lem pre [] h = absurd h
uri_path_last_lem pre (c ∷ name) h =
    let size : length ((c ∷ name) ++ (b'/' ∷ [])) - 1 ≡ length (c ∷ name) =
      omega (arith, length-append (c ∷ name) (b'/' ∷ [])) in
    (
      last_from-append none pre c name ∙ last_from-plain (some (c ∷ name)) (c ∷ name) h,
      last_from-append none pre c (name ++ (b'/' ∷ []))
          ∙ last_from-divider (some ((c ∷ name) ++ (b'/' ∷ []))) (c ∷ name) h
          ∙ ap some (
              ap (λ n. take n ((c ∷ name) ++ (b'/' ∷ []))) size
              ∙ take-append_left (c ∷ name) (b'/' ∷ [])),
    )
