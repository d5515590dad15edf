-- ===== src/Client/HttpSite/Path.antt =====
-- src/client/site/http.c: the links of a listing, and the listing.
use newth.Prelude.{
  ℕ, suc, ◌+◌, Bool, true, false, ◌&&◌, Option, none, some, List, [], ◌∷◌, ◌++◌, ◌==◌,
  if◌then◌else◌, Bytes, codes, length, drop, ltb, leb, at, equal, starts_with, split_at, split_on,
  get_elem?,
}
use newth.Hex.{hex_convert_string_to_ascii}
use newth.Client.Uri.{UriDetails, uri_details_new_from, uri_details_get_port}
use newth.Client.Xml.{up_to}

abbrev pub both_equal : Option Bytes → Option Bytes → Bool
both_equal (some a) (some b) = equal a b
both_equal _ _ = false

-- A link of the same site, by its path: `none` is a read behind the path.
unfoldable pub full_link_is_direct : Bytes → Bytes → Option Bool
full_link_is_direct path link_path =
    if starts_with path link_path
    then (if ltb (length path) (length link_path)
        then elim (split_at b'/' (drop (length path + 1) link_path)) [
          | none ↦ some true
          | some _ ↦ some false
        ]
        else none)
    else some false

-- A link that begins with `/`
unfoldable pub absolute_link_is_direct : Bytes → Bytes → Bool
absolute_link_is_direct path link =
    if starts_with path link
    then (if leb (length link) (length path)
        then false
        else if length path + 1 == length link && at link (length path) == b'/'
        then false
        else elim (split_at b'/' (drop (length path + 1) link)) [
          | none ↦ true
          | some (_, rest) ↦ length rest == 1
        ])
    else false

-- `LinkPathIsDirectSub`, for details with a path: `none` is a read through NULL or behind a text.
unfoldable pub link_path_is_direct_sub : UriDetails → Bytes → Bytes → Option Bool
unfolding full_link_is_direct absolute_link_is_direct
link_path_is_direct_sub details path link = elim (split_on (codes "://") link) [
  | some _ ↦
      let link_uri = uri_details_new_from (some link) in
      let same : Option Bool = elim link_uri.path [
        | none ↦ none
        | some link_path ↦ full_link_is_direct path link_path
      ] in
      if both_equal link_uri.scheme details.scheme
        && both_equal link_uri.host details.host
        && uri_details_get_port link_uri == uri_details_get_port details
      then same
      else some false
  | none ↦
      if at link 0 == b'.'
      then some false
      else if at link 0 == b'/'
      then some (absolute_link_is_direct path link)
      else some true
]

-- The loop of `LinkPathConvertToRelativeSubdirectory`: the text behind the last '/' that another name follows.
unfoldable pub relative_from : Bytes → Bytes → Bytes
relative_from p [] = p
relative_from p (c ∷ text) =
    let next = at text 0 in
    relative_from
      (if c == b'/' then (if next == 0 then p else if next == b'/' then p else text) else p) text

-- `LinkPathConvertToRelativeSubdirectory`
unfoldable pub link_path_convert_to_relative_subdirectory : Bytes → Bytes
unfolding relative_from
link_path_convert_to_relative_subdirectory link = relative_from link link

-- `DirectoryListingCreate`, `DirectoryListingAdd` and `httpSiteSchemeDirectoryListingRead`; the date is left out.
pub record DirectoryListing : Type 0 where
  pub idx : ℕ
  pub entry : List Bytes
  pub full_uri : Option Bytes

unfoldable pub directory_listing_create : Option Bytes → DirectoryListing
directory_listing_create uri_path = record { idx = 0; entry = []; full_uri = uri_path }

unfoldable pub directory_listing_add : DirectoryListing → Bytes → DirectoryListing
directory_listing_add self name = record self { entry = self.entry ++ (name ∷ []) }

-- The name of the next entry
unfoldable pub http_site_scheme_directory_listing_read :
    DirectoryListing → Option Bytes × DirectoryListing
http_site_scheme_directory_listing_read self = elim (get_elem? self.entry self.idx) [
  | none ↦ (none, self)
  | some name ↦ (some name, record self { idx = suc self.idx })
]

-- A step of the loop of `httpSiteSchemeDirectoryListingOpen` for a link, whose query is cut off: `none` is a
-- fault, and the text that is added is the name without trailing dividers, decoded.
unfoldable pub add_link : UriDetails → Bytes → DirectoryListing → Bytes → Option DirectoryListing
add_link details path self file =
    let link = up_to b'?' file in
    let asked = length link == 0 && ltb 0 (length file) in
    let name = up_to b'/' (link_path_convert_to_relative_subdirectory link) in
    let added : Option DirectoryListing = elim (hex_convert_string_to_ascii name) [
      | none ↦ none
      | some n ↦ some (directory_listing_add self n)
    ] in
    let checked : Option DirectoryListing = elim (link_path_is_direct_sub details path link) [
      | none ↦ none
      | some direct ↦ if direct then added else some self
    ] in
    if asked then some self else checked

unfoldable pub add_links :
    UriDetails → Bytes → DirectoryListing → List Bytes → Option DirectoryListing
unfolding add_link
add_links details path self [] = some self
add_links details path self (file ∷ files) = elim (add_link details path self file) [
  | none ↦ none
  | some self' ↦ add_links details path self' files
]
