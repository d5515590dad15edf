-- ===== src/Client/Xml/Links.antt =====
-- The links that the server writes, as the client finds them.
use newth.Prelude.{
  ℕ, ◌+◌, ◌-◌, ◌*◌, ◌/◌, ◌%◌, ◌≤◌, ◌<◌, ◌≡◌, ◌≢◌, refl, sym, ap, ◌∙◌, inl, inr, Bool, Bool-cases,
  true, false, ◌||◌, Option, none, some, [], ◌∷◌, ◌++◌, ◌==◌, append_assoc, arith, Bytes, codes,
  length, length-append, ltb, NotIn, NotIn-append, is_alnum, split_at, split_at_here,
  split_at-append, split_at-none, after_text, split_at_first, split_on, starts_with-append,
  print_number_two, digit_char,
}
use newth.Hex.{unescape}
use newth.Client.RecvBuffer.{platform_string_find_needle_raw, same_start}
use newth.Server.Http.Html.{
  convert_path_to_url, html_list_write_path_link, filename_max, shown_from, ascii_to_hex,
}
use newth.Server.Http.Html.Links.{
  TwoDigits, encoded, convert_from-encoded, unescape-convert_path_to_url,
}
use newth.Client.RecvBuffer.Header.{skip_spaces}
use newth.Client.Xml.{
  xml_find_element, xml_find_attribute, xml_extract_attribute_value, platform_string_find_word,
  xml_element_get_attributes, is_element, value_after, quote_of, nearer, up_to, attributes_of,
}

-- The bytes of a link
abbrev is_url : ℕ → Bool
is_url c = is_alnum c || c == b'/' || c == b'%'

abbrev AllUrl : Bytes → Type 0
AllUrl [] = Unit
AllUrl (c ∷ s) = (is_url c ≡ true) × AllUrl s

AllUrl-append : (s t : Bytes) → AllUrl s → AllUrl t → AllUrl (s ++ t)
AllUrl-append [] t h k = k
AllUrl-append (c ∷ s) t h k = (h.0, AllUrl-append s t h.1 k)

AllUrl-NotIn : (c : ℕ) (s : Bytes) → is_url c ≡ false → AllUrl s → NotIn c s
AllUrl-NotIn c [] h k = tt
AllUrl-NotIn c (x ∷ s) h k = (λ e. cc (sym k.0 ∙ ap is_url e ∙ h), AllUrl-NotIn c s h k.1)

digit_char-is_url : (d : ℕ) → d < 16 → is_url (digit_char d) ≡ true
digit_char-is_url d h = ground arith

encoded-AllUrl : (path : Bytes) → TwoDigits path → AllUrl (encoded path)
unfolding ascii_to_hex
encoded-AllUrl [] h = tt
encoded-AllUrl (c ∷ path) h = elim (Bool-cases (is_alnum c || c == b'/')) [
  | inl plain ↦ rw plain (ground (arith, plain), encoded-AllUrl path h.2)
  | inr other ↦
      let odd : is_alnum c ≡ false = ground (arith, other) in
      rw (other, odd, print_number_two c h.0 h.1)
        (
          refl,
          (
            digit_char-is_url (c / 16) (omega (arith, h.1)),
            (digit_char-is_url (c % 16) (omega arith), encoded-AllUrl path h.2),
          ),
        )
]

-- The tag of a link, and the line of the listing from it on
abbrev tag_text : Bytes → Bytes
tag_text link = codes "A HREF=\"" ++ (link ++ (b'"' ∷ []))

abbrev behind_tag : Bytes → Bytes
behind_tag shown = b'>' ∷ (shown ++ codes "</A></LI>\n")

abbrev link_element : Bytes → Bytes → Bytes
link_element link shown =
    codes "<A HREF=\"" ++ (link ++ (codes "\">" ++ (shown ++ codes "</A></LI>\n")))

split_at_there :
    (c : ℕ) (s t : Bytes)
    → (before : Bytes) × (rest : Bytes) × (split_at c (s ++ (c ∷ t)) ≡ some (before, rest))
split_at_there c [] t = ([], c ∷ t, split_at_here c t)
split_at_there c (x ∷ s) t = elim (Bool-cases (x == c)) [
  | inl hit ↦ ([], x ∷ (s ++ (c ∷ t)), by_hit hit)
  | inr miss ↦ let (before, rest, e) = split_at_there c s t in (x ∷ before, rest, by_miss miss e)
]
  where
    by_hit : (x == c) ≡ true → split_at c (x ∷ (s ++ (c ∷ t))) ≡ some ([], x ∷ (s ++ (c ∷ t)))
    by_hit hit = unfold split_at in rw hit refl

    by_miss :
        {before rest : Bytes}
        → (x == c) ≡ false
        → split_at c (s ++ (c ∷ t)) ≡ some (before, rest)
        → split_at c (x ∷ (s ++ (c ∷ t))) ≡ some (x ∷ before, rest)
    by_miss miss e = unfold split_at in rw (miss, e) refl

module _ (link shown : Bytes) (url : AllUrl link) where
  tag-NotIn :
      (c : ℕ) → is_url c ≡ false → NotIn c (codes "A HREF=\"") → b'"' ≢ c → NotIn c (tag_text link)
  tag-NotIn c h k q =
      NotIn-append c (codes "A HREF=\"") (link ++ (b'"' ∷ [])) k
        (NotIn-append c link (b'"' ∷ []) (AllUrl-NotIn c link h url) (q, tt))

  regrouped :
      codes "A HREF=\"" ++ (link ++ (codes "\">" ++ (shown ++ codes "</A></LI>\n")))
      ≡ tag_text link ++ behind_tag shown
  regrouped =
      ap (λ t. codes "A HREF=\"" ++ t) (sym (append_assoc link (b'"' ∷ []) (behind_tag shown)))

  is_element_split : is_element (codes "a") (tag_text link ++ behind_tag shown) ≡ true
  unfolding is_element same_start
  is_element_split =
      let no_lt : NotIn b'<' (tag_text link) = tag-NotIn b'<' refl (omega arith) (omega arith) in
      let no_gt : NotIn b'>' (tag_text link) = tag-NotIn b'>' refl (omega arith) (omega arith) in
      let (before, rest, e) = split_at_there b'<' shown (codes "/A></LI>\n") in
      let next =
        split_at-append b'<' (tag_text link ++ (b'>' ∷ [])) (shown ++ codes "</A></LI>\n")
          (NotIn-append b'<' (tag_text link) (b'>' ∷ []) no_lt (omega arith)) in
      let whole : (tag_text link ++ (b'>' ∷ [])) ++ (shown ++ codes "</A></LI>\n")
          ≡ tag_text link ++ behind_tag shown =
        append_assoc (tag_text link) (b'>' ∷ []) (shown ++ codes "</A></LI>\n") in
      let there : split_at b'<' (tag_text link ++ behind_tag shown)
          ≡ some ((tag_text link ++ (b'>' ∷ [])) ++ before, rest) =
        ap (split_at b'<') (sym whole) ∙ next ∙ ap (after_text (tag_text link ++ (b'>' ∷ []))) e in
      let less : ltb (length (tag_text link)) (length ((tag_text link ++ (b'>' ∷ [])) ++ before))
          ≡ true =
        ground (
          arith,
          length-append (tag_text link) (b'>' ∷ []),
          length-append (tag_text link ++ (b'>' ∷ [])) before,
        ) in
      rw
        (
          is_element,
          split_at_first b'>' (tag_text link) (shown ++ codes "</A></LI>\n") no_gt,
          there,
          less,
        )
        refl

  found_attributes :
      xml_element_get_attributes (link_element link shown)
      ≡ some (codes "HREF=\"" ++ (link ++ (b'"' ∷ [])))
  unfolding xml_element_get_attributes skip_spaces
  found_attributes =
      let no_lt : NotIn b'<' (tag_text link) = tag-NotIn b'<' refl (omega arith) (omega arith) in
      let no_gt : NotIn b'>' (tag_text link) = tag-NotIn b'>' refl (omega arith) (omega arith) in
      ap (λ t. xml_element_get_attributes (b'<' ∷ t)) regrouped
      ∙ rw
          (
            xml_element_get_attributes,
            split_at_here b'<' (tag_text link ++ behind_tag shown),
            split_at_first b'>' (b'<' ∷ tag_text link) (shown ++ codes "</A></LI>\n")
                (omega arith, no_gt),
            attributes_of,
            split_at-none b'<' (tag_text link) no_lt,
            split_at_first b' ' (b'A' ∷ []) (codes "HREF=\"" ++ (link ++ (b'"' ∷ [])))
                (omega arith),
          )
          refl

  found_word :
      platform_string_find_word (codes "HREF=\"" ++ (link ++ (b'"' ∷ []))) (codes "href") ≡ some 0
  unfolding platform_string_find_word platform_string_find_needle_raw
  found_word =
      let given : (length (codes "HREF=\"" ++ (link ++ (b'"' ∷ []))) == 0) ≡ false = ground arith in
      let room : ltb (length (codes "HREF=\"" ++ (link ++ (b'"' ∷ [])))) (length (codes "href"))
          ≡ false =
        ground arith in
      rw (platform_string_find_word, platform_string_find_needle_raw, given, room) refl

  found_attribute :
      xml_find_attribute (link_element link shown) (codes "href")
      ≡ some (codes "HREF=\"" ++ (link ++ (codes "\">" ++ (shown ++ codes "</A></LI>\n"))))
  unfolding xml_find_attribute
  found_attribute = rw (xml_find_attribute, found_attributes, found_word, again) refl
    where
      again :
          split_on (codes "HREF=\"" ++ (link ++ (b'"' ∷ []))) (link_element link shown)
          ≡ some (
            codes "<A ",
            codes "HREF=\"" ++ (link ++ (codes "\">" ++ (shown ++ codes "</A></LI>\n"))),
          )
      again =
          unfold split_on in
          rw
            (
              sym (append_assoc link (b'"' ∷ []) (behind_tag shown)),
              starts_with-append (link ++ (b'"' ∷ [])) (behind_tag shown),
            )
            refl

  nearer_quote :
      (single : Option (Bytes × Bytes)) (after : Bytes)
      → nearer (after_text (b'=' ∷ b'"' ∷ []) single) (some (b'=' ∷ [], b'"' ∷ after))
        ≡ some (b'"', b'"' ∷ after)
  unfolding nearer
  nearer_quote none after = refl
  nearer_quote (some (b, r)) after =
      let farther : ltb (length {A = ℕ} (b'=' ∷ b'"' ∷ b)) (length {A = ℕ} (b'=' ∷ [])) ≡ false =
        ground arith in
      rw farther refl

  found_value :
      xml_extract_attribute_value
        (codes "HREF=\"" ++ (link ++ (codes "\">" ++ (shown ++ codes "</A></LI>\n"))))
      ≡ some link
  unfolding quote_of xml_extract_attribute_value
  found_value =
      let after = link ++ (b'"' ∷ behind_tag shown) in
      let value = split_at_first b'"' link (behind_tag shown) (AllUrl-NotIn b'"' link refl url) in
      let quote : quote_of (b'=' ∷ b'"' ∷ after) ≡ some (b'"', b'"' ∷ after) =
        rw
          (
            quote_of,
            split_at_first b'"' (b'=' ∷ []) after (omega arith),
            split_at-append b'\'' (b'=' ∷ b'"' ∷ []) after (omega arith),
          )
          (nearer_quote (split_at b'\'' after) after) in
      rw
        (
          xml_extract_attribute_value,
          split_at_first b'=' (codes "HREF") (b'"' ∷ after) (omega arith),
          value_after,
          quote,
          up_to,
          value,
        )
        refl

  found_element :
      xml_find_element (codes "\t\t\t<LI>" ++ link_element link shown) (codes "a")
      ≡ some (link_element link shown)
  unfolding xml_find_element
  found_element =
      let list_item : is_element (codes "a") (codes "LI>" ++ link_element link shown) ≡ false =
        unfold is_element split_at same_start in refl in
      let here = ap (is_element (codes "a")) regrouped ∙ is_element_split in
      rw (list_item, here) refl

-- A path of at least two bytes, all with two hexadecimal digits, that fits the buffers when every byte is
-- escaped: in the line that `htmlListWritePathLink` writes for it, `XmlFindElement` finds the anchor,
-- `XmlFindAttribute` its `href` and `XmlExtractAttributeValue` the link, and the first loop of
-- `hexConvertStringToAscii` reads the path back from that link.
pub html_list_write_path_link-found :
    (web_path : Bytes)
    → TwoDigits web_path
    → 2 ≤ length web_path
    → 3 * length web_path + 1 < filename_max
    → (line element attribute link : Bytes) × (html_list_write_path_link none web_path
        ≡ some (some line))
      × (xml_find_element line (codes "a") ≡ some element)
      × (xml_find_attribute element (codes "href") ≡ some attribute)
      × (xml_extract_attribute_value attribute ≡ some link)
      × (unescape link ≡ some web_path)
unfolding html_list_write_path_link convert_path_to_url
html_list_write_path_link-found web_path h two fits =
    let link = encoded web_path in
    let shown = shown_from web_path (length web_path - 2) in
    let url = encoded-AllUrl web_path h in
    let converted : convert_path_to_url web_path filename_max ≡ (0, link) =
      convert_from-encoded filename_max [] web_path h (omega (arith, fits)) in
    let long : (ltb (length web_path) 2 || ltb filename_max (length web_path + 1)) ≡ false =
      ground (arith, two, fits) in
    let back = (unescape-convert_path_to_url web_path filename_max h fits).1 in
    (
      codes "\t\t\t<LI>" ++ link_element link shown,
      link_element link shown,
      codes "HREF=\"" ++ (link ++ (codes "\">" ++ (shown ++ codes "</A></LI>\n"))),
      link,
      rw (long, ap (λ r. r.1) converted) refl,
      found_element link shown url,
      found_attribute link shown url,
      found_value link shown url,
      ap (λ r. unescape r.1) (sym converted) ∙ back,
    )
