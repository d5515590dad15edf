-- ===== src/Platform/Ports/Fields.antt =====
-- Which ports of a list with commas are tried.
use newth.Prelude.{
  ℕ, ◌≤◌, ◌≡◌, true, Option, none, some, List, [], ◌∷◌, ◌++◌, Bytes, length, is_digit,
}
use newth.Platform.Ports.{number_of, Bound}

abbrev pub IsDigits : Bytes → Type 0
IsDigits [] = Unit
IsDigits (c ∷ text) = (is_digit c ≡ true) × IsDigits text

-- A field: one to five digits
abbrev pub IsField : Bytes → Type 0
IsField [] = ⊥
IsField (c ∷ text) = IsDigits (c ∷ text) × (length (c ∷ text) ≤ 5)

abbrev pub AllFields : List Bytes → Type 0
AllFields [] = Unit
AllFields (field ∷ fields) = IsField field × AllFields fields

-- A field and those behind it, with commas
abbrev pub written : Bytes → List Bytes → Bytes
written field [] = field
written field (next ∷ fields) = field ++ (b',' ∷ written next fields)

-- The ports of all fields but the last
abbrev pub ports_before : Bytes → List Bytes → List ℕ
ports_before field [] = []
ports_before field (next ∷ fields) = number_of field ++ ports_before next fields

abbrev pub last_field : Bytes → List Bytes → Bytes
last_field field [] = field
last_field field (next ∷ fields) = last_field next fields

-- The last field's port, where the others give none
abbrev pub ports_tried : List ℕ → Bytes → List ℕ
ports_tried [] field = number_of field
ports_tried ports field = ports

abbrev pub bound_of : Option ℕ → Bound
bound_of none = Bound.bound_none
bound_of (some n) = Bound.bound_to n
