-- ===== src/Client/Xml/Tests.antt =====
-- Runs of the searches.
use newth.Prelude.{◌≡◌, refl, none, some, arith, Bytes, codes, split_at, split_on}
use newth.Client.RecvBuffer.{platform_string_find_needle_raw}
use newth.Hex.{unescape}
use newth.Server.Http.Html.{html_list_write_path_link}
use newth.Client.Xml.Links.{html_list_write_path_link-found}
use newth.Client.Xml.{
  xml_find_element, xml_extract_attribute, xml_find_attribute, xml_extract_attribute_value,
}

finds_element :
    xml_find_element (codes "<LI><A HREF=\"x\">y</A>") (codes "a")
    ≡ some (codes "<A HREF=\"x\">y</A>")
unfolding xml_find_element split_at
finds_element = refl

extracts_attribute :
    xml_extract_attribute (codes "<a id=1 HREF='x y'>") (codes "href") ≡ some (codes "HREF='x y'")
unfolding xml_extract_attribute split_at platform_string_find_needle_raw
extracts_attribute = refl

unquoted : xml_extract_attribute (codes "<a href=x>") (codes "href") ≡ some (codes "href=")
unfolding xml_extract_attribute split_at platform_string_find_needle_raw
unquoted = refl

finds_attribute :
    xml_find_attribute (codes "<a href=\"x\">y") (codes "href") ≡ some (codes "href=\"x\">y")
unfolding xml_find_attribute split_at split_on platform_string_find_needle_raw
finds_attribute = refl

last_element : xml_find_element (codes "<a href=\"x\">y") (codes "a") ≡ none
unfolding xml_find_element split_at
last_element = refl

html_list_write_path_link-found_example :
    (line element attribute link : Bytes) × (html_list_write_path_link none (codes "/a b/c")
      ≡ some (some line))
    × (xml_find_element line (codes "a") ≡ some element)
    × (xml_find_attribute element (codes "href") ≡ some attribute)
    × (xml_extract_attribute_value attribute ≡ some link)
    × (unescape link ≡ some (codes "/a b/c"))
html_list_write_path_link-found_example =
    html_list_write_path_link-found (codes "/a b/c") (omega arith) (omega arith) (omega arith)
