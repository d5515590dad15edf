-- ===== src/Client/Xml.antt =====
-- src/client/xml.c: elements and attributes of HTML, as far as links need them, with `platformStringFindWord`
-- of src/platform/platform.c. A pointer into a text is the text from there on; memory is given.
pub mod Links
mod Tests
use newth.Prelude.{
  ℕ, zero, suc, ◌+◌, Bool, true, false, ◌&&◌, ◌||◌, Option, none, some, [], ◌∷◌, ◌++◌, ◌==◌,
  if◌then◌else◌, Bytes, codes, length, drop, take, ltb, at, split_at, split_on,
}
use newth.Client.RecvBuffer.{same_start, platform_string_find_needle_raw}
use newth.Client.RecvBuffer.Header.{skip_spaces}

-- The bytes that may stand beside a word in `platformStringFindWord`
unfoldable pub ends_word : ℕ → Bool
ends_word c =
    c == b'\t'
    || c == b'\n'
    || c == 0
    || c == b'\\'
    || c == b'\''
    || c == b'"'
    || c == b' '
    || c == b'/'
    || c == b'!'
    || c == b'?'
    || c == b'.'
    || c == b'='
    || c == b'+'
    || c == b'-'
    || c == b'<'
    || c == b'>'

-- `r[-1]` at place `i` of a text, or NUL at its start
unfoldable pub byte_before : Bytes → ℕ → ℕ
byte_before haystack zero = 0
byte_before haystack (suc i) = at haystack i

-- `platformStringFindWord`: the place of the needle. Only its first place is tried.
unfoldable pub platform_string_find_word : Bytes → Bytes → Option ℕ
unfolding ends_word byte_before
platform_string_find_word haystack needle = elim (platform_string_find_needle_raw haystack needle) [
  | none ↦ none
  | some i ↦
      if ends_word (byte_before haystack i) && ends_word (at haystack (i + length needle))
      then some i
      else none
]

-- `XmlElementGetAttributes` on what stands between `<` and `>`
unfoldable pub attributes_of : Bytes → Option Bytes
unfolding skip_spaces
attributes_of inner = elim (split_at b'<' inner) [
  | some _ ↦ none
  | none ↦ elim (split_at b' ' (skip_spaces inner)) [
    | none ↦ none
    | some (_, rest) ↦ some (drop 1 rest)
  ]
]

-- `XmlElementGetAttributes`
unfoldable pub xml_element_get_attributes : Bytes → Option Bytes
unfolding attributes_of
xml_element_get_attributes element = elim (split_at b'<' element) [
  | none ↦ none
  | some (_, p) ↦ elim (split_at b'>' p) [
    | none ↦ none
    | some (tag, _) ↦ attributes_of (drop 1 tag)
  ]
]

-- `while (*sw == ' ' || *sw == '<')`
unfoldable pub skip_tag_start : Bytes → Bytes
skip_tag_start [] = []
skip_tag_start (c ∷ text) =
    let rest = skip_tag_start text in if c == b' ' || c == b'<' then rest else c ∷ text

unfoldable pub names : Bytes → Bytes → Bool
unfolding same_start
names element [] = false
names element (c ∷ sw) = same_start element (c ∷ sw)

-- What `XmlFindElement` asks of the text `after` a `<`: a `>`, and behind it a further `<`.
unfoldable pub is_element : Bytes → Bytes → Bool
unfolding skip_tag_start names
is_element element after = elim (split_at b'>' after) [
  | none ↦ false
  | some (tag, _) ↦ elim (split_at b'<' after) [
    | none ↦ false
    | some (before_next, _) ↦
        if ltb (length tag) (length before_next)
        then names element (skip_tag_start after)
        else false
  ]
]

-- `XmlFindElement`
unfoldable pub xml_find_element : Bytes → Bytes → Option Bytes
unfolding is_element
xml_find_element [] element = none
xml_find_element (c ∷ xml) element =
    let next = xml_find_element xml element in
    if c == b'<' then (if is_element element xml then some (c ∷ xml) else next) else next

-- `XmlExtractElement`
unfoldable pub xml_extract_element : Bytes → Bytes → Option Bytes
unfolding xml_find_element
xml_extract_element xml element = elim (xml_find_element xml element) [
  | none ↦ none
  | some p ↦ elim (split_at b'>' p) [ none ↦ none | some (tag, _) ↦ some (tag ++ (b'>' ∷ [])) ]
]

-- The nearer of two quotes, with the text from it on
unfoldable pub nearer : Option (Bytes × Bytes) → Option (Bytes × Bytes) → Option (ℕ × Bytes)
nearer (some (before_single, single)) (some (before_double, double)) =
    if ltb (length before_single) (length before_double)
    then some (b'\'', single)
    else some (b'"', double)
nearer (some (_, single)) none = some (b'\'', single)
nearer none (some (_, double)) = some (b'"', double)
nearer none none = none

-- The quote behind the `=`
unfoldable pub quote_of : Bytes → Option (ℕ × Bytes)
unfolding nearer
quote_of eq = nearer (split_at b'\'' eq) (split_at b'"' eq)

-- The text before the first `c`, or all of it
unfoldable pub up_to : ℕ → Bytes → Bytes
up_to c text = elim (split_at c text) [ none ↦ text | some (before, _) ↦ before ]

-- The value behind the `=` that `eq` begins with. One without quotes goes on to the end of the text.
unfoldable pub value_after : Bytes → Bytes
unfolding quote_of up_to
value_after eq = elim (quote_of eq) [ some (qc, qp) ↦ up_to qc (drop 1 qp) | none ↦ drop 1 eq ]

-- `XmlExtractAttributeValue`
unfoldable pub xml_extract_attribute_value : Bytes → Option Bytes
unfolding value_after
xml_extract_attribute_value attribute = elim (split_at b'=' attribute) [
  | none ↦ none
  | some (_, eq) ↦ some (value_after eq)
]

-- `XmlFindAttribute`: the attributes are looked for in the element again, by `strstr`.
unfoldable pub xml_find_attribute : Bytes → Bytes → Option Bytes
unfolding xml_element_get_attributes platform_string_find_word
xml_find_attribute element attribute = elim (xml_element_get_attributes element) [
  | none ↦ none
  | some a ↦ elim (platform_string_find_word a attribute) [
    | none ↦ none
    | some t ↦ elim (split_on a element) [
      | none ↦ none
      | some (before, _) ↦ some (drop (t + length before) element)
    ]
  ]
]

-- What `XmlExtractAttribute` prints of an attribute with a value: without a quote the `%c` ends the text.
unfoldable pub print_attribute : Bytes → Bytes → Bytes
unfolding quote_of value_after
print_attribute name eq = elim (quote_of eq) [
  | some (qc, _) ↦ name ++ (b'=' ∷ qc ∷ (value_after eq ++ (qc ∷ [])))
  | none ↦ name ++ (b'=' ∷ [])
]

-- `XmlExtractAttribute`
unfoldable pub xml_extract_attribute : Bytes → Bytes → Option Bytes
unfolding xml_element_get_attributes platform_string_find_word print_attribute
xml_extract_attribute element attribute = elim (xml_element_get_attributes element) [
  | none ↦ none
  | some a ↦ elim (platform_string_find_word a attribute) [
    | none ↦ none
    | some t ↦
        let name = take (length attribute) (drop t a) in
        elim (split_at b'=' (drop t a)) [
          | none ↦ some name
          | some (_, eq) ↦ some (print_attribute name eq)
        ]
  ]
]
