-- ===== src/Server/Http/Html.antt =====
-- src/server/http.c: the HTML pages of directories. A page under construction is a text, or `none` while
-- nothing is allocated; allocation succeeds. `none` as a result is a read or write out of bounds.
pub mod Links
use newth.Prelude.{
  ℕ, zero, suc, ◌+◌, ◌-◌, Bool, ◌&&◌, ◌||◌, Option, none, some, List, [], ◌∷◌, ◌++◌, ◌==◌,
  if◌then◌else◌, Bytes, codes, length, take, drop, ltb, is_alnum, print_number,
}
use newth.Server.Http.Write.{base_name_from}

-- `platformHeapStringAppend`
unfoldable pub platform_heap_string_append : Option Bytes → Bytes → Option Bytes
platform_heap_string_append none text = some text
platform_heap_string_append (some alloc) text = some (alloc ++ text)

-- `AsciiToHex`
unfoldable pub ascii_to_hex : ℕ → Bytes
ascii_to_hex ascii = if is_alnum ascii then ascii ∷ [] else b'%' ∷ print_number 16 ascii

-- The loop of `convertPathToUrl`, with `done` before the index. The answer 1 stands for -1.
unfoldable pub convert_from : ℕ → Bytes → Bytes → ℕ × Bytes
unfolding ascii_to_hex
convert_from max done [] = (0, done)
convert_from max done (c ∷ path) =
    let kept = convert_from max (done ++ (c ∷ [])) path in
    let escaped = convert_from max (done ++ ascii_to_hex c) path in
    if is_alnum c || c == b'/'
    then kept
    else if ltb (max - 1) (length done + length (c ∷ path) + length (ascii_to_hex c))
    then (1, done ++ (c ∷ path))
    else escaped

-- `convertPathToUrl`
unfoldable pub convert_path_to_url : Bytes → ℕ → ℕ × Bytes
unfolding convert_from
convert_path_to_url path max = convert_from max [] path

-- `GetPathCount`
unfoldable pub get_path_count : Bytes → ℕ
get_path_count [] = 0
get_path_count (c ∷ []) = 0
get_path_count (c ∷ d ∷ path) =
    let rest = get_path_count (d ∷ path) in if c == b'/' then suc rest else rest

abbrev keep_byte : ℕ → Option Bytes → Option Bytes
keep_byte c none = none
keep_byte c (some text) = some (c ∷ text)

-- The first loop of `GetPathName`: the path up to its divider number `n`, counted from 0.
unfoldable pub cut_after : ℕ → Bytes → Option Bytes
cut_after n [] = none
cut_after n (c ∷ path) =
    let skip = keep_byte c (cut_after n path) in
    let count : Option Bytes = elim n [
      | zero ↦ some (c ∷ [])
      | suc m ↦ keep_byte c (cut_after m path)
    ] in
    if c == b'/' then count else skip

-- The name between the last two dividers of a text that ends in one, with the last of them.
unfoldable pub last_name : Bytes → Bytes
unfolding base_name_from
last_name link = let text = take (length link - 1) link in base_name_from text text ++ (b'/' ∷ [])

-- `FILENAME_MAX` of the GNU library
abbrev pub filename_max : ℕ
filename_max = 4096

-- `GetPathName`: the link and the text that is shown. A path with no divider at all is shown without a
-- terminator, and a path that is too long leaves the buffers: `none`.
unfoldable pub get_path_name : Bytes → ℕ → Option (Bytes × Bytes)
unfolding cut_after last_name
get_path_name path max_paths =
    let room : Option (Bytes × Bytes) → Option (Bytes × Bytes) =
      λ r. if ltb filename_max (length path + 2) then none else r in
    let names : Option (Bytes × Bytes) = elim (cut_after max_paths path) [
      | some link ↦ if max_paths == 0 then some (link, link) else room (some (link, last_name link))
      | none ↦ elim (cut_after 0 path) [
        | none ↦ none
        | some first ↦ room (some (path ++ (b'/' ∷ []), last_name (path ++ (b'/' ∷ []))))
      ]
    ] in
    if ltb filename_max (length path + 1) then none else names

-- `htmlHeaderWrite`
unfoldable pub html_header_write : Option Bytes → Bytes → Option Bytes
unfolding platform_heap_string_append
html_header_write buffer title =
    let h1 =
      codes
        "<!DOCTYPE HTML PUBLIC \"-//W3C//DTD HTML 4.01//EN\"\n\t\"http://www.w3.org/TR/html4/strict.dtd\">\n<HTML>\n\t<HEAD>\n\t\t<TITLE>" in
    let h2 =
      codes
        "</TITLE>\n\t\t<STYLE TYPE=\"text/css\">\n\t\t*{\n\t\t\tfont-family: monospace;\n\t\t}\n\t\t\n\t\ta:hover,tr:hover{\n\t\t\tfont-weight: bold;\n\t\t}\n\t\t</STYLE>\n\t</HEAD>\n\n\t<BODY>\n" in
    platform_heap_string_append buffer (h1 ++ (title ++ h2))

-- `htmlListStart`
unfoldable pub html_list_start : Option Bytes → Option Bytes
unfolding platform_heap_string_append
html_list_start buffer = platform_heap_string_append buffer (codes "\t\t<UL>\n")

-- `htmlListEnd`
unfoldable pub html_list_end : Option Bytes → Option Bytes
unfolding platform_heap_string_append
html_list_end buffer = platform_heap_string_append buffer (codes "\t\t</UL>\n")

-- `htmlFooterWrite`
unfoldable pub html_footer_write : Option Bytes → Option Bytes
unfolding platform_heap_string_append
html_footer_write buffer = platform_heap_string_append buffer (codes "\t</BODY>\n</HTML>\n")

-- The loop of `htmlListWritePathLink` and what it prints of the path: the text behind the last '/' at an
-- index from 1 to `i`, or else behind the first byte.
unfoldable pub shown_from : Bytes → ℕ → Bytes
shown_from path zero = drop 1 path
shown_from path (suc i) =
    let back = shown_from path i in
    elim (drop (suc i) path) [ [] ↦ back | c ∷ rest ↦ if c == b'/' then rest else back ]

-- `htmlListWritePathLink`. Below two bytes the first index wraps and the read leaves the path; a path that
-- is too long leaves `linkPath`.
unfoldable pub html_list_write_path_link : Option Bytes → Bytes → Option (Option Bytes)
unfolding convert_path_to_url shown_from platform_heap_string_append
html_list_write_path_link buffer web_path =
    if ltb (length web_path) 2 || ltb filename_max (length web_path + 1)
    then none
    else some (
        platform_heap_string_append buffer (
          codes "\t\t\t<LI><A HREF=\""
          ++ ((convert_path_to_url web_path filename_max).1
              ++ (codes "\">"
                  ++ (shown_from web_path (length web_path - 2) ++ codes "</A></LI>\n")))))

-- The loop of `htmlBreadCrumbWrite` from path depth `i` on, for `n` more depths.
unfoldable pub crumbs_from : ℕ → ℕ → Bytes → Option Bytes → Option (Option Bytes)
unfolding get_path_name convert_path_to_url platform_heap_string_append
crumbs_from zero i web_path buffer = some buffer
crumbs_from (suc n) i web_path buffer = elim (get_path_name web_path i) [
  | none ↦ none
  | some (link, shown) ↦ crumbs_from n (suc i) web_path (
      platform_heap_string_append buffer (
        codes "\t\t\t<A HREF=\""
        ++ ((convert_path_to_url link filename_max).1
            ++ (codes "\">" ++ (shown ++ codes "</A>\n")))))
]

-- `htmlBreadCrumbWrite`
unfoldable pub html_bread_crumb_write : Option Bytes → Bytes → Option (Option Bytes)
unfolding get_path_count crumbs_from platform_heap_string_append
html_bread_crumb_write buffer web_path =
    elim (crumbs_from (get_path_count web_path + 1) 0 web_path
      (platform_heap_string_append buffer (codes "\t\t<DIV>\n"))) [
        | none ↦ none
        | some crumbs ↦ some (platform_heap_string_append crumbs (codes "\t\t</DIV>\n\t\t<HR>\n"))
      ]
