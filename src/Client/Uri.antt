-- ===== src/Client/Uri.antt =====
-- src/client/uri.c: URIs as five optional texts. A field that is `none` is a null pointer.
pub mod RoundTrip
pub mod Scheme
pub mod Port
pub mod Combine
pub mod Last
mod Tests
use newth.Prelude.{
  ℕ, zero, suc, ◌+◌, ◌-◌, ◌*◌, Bool, true, false, ◌&&◌, ◌||◌, Option, none, some, List, [], ◌∷◌,
  ◌++◌, ◌==◌, ltb, leb, if◌then◌else◌, Bytes, codes, length, take, drop, at, to_upper, is_digit,
  split_at, split_on,
}

-- `enum UriScheme`
pub data UriScheme : Type 0 where
  unknown file http https ftp ftps : UriScheme

abbrev pub scheme_number : UriScheme → ℕ
scheme_number UriScheme.unknown = 0
scheme_number UriScheme.file = 1
scheme_number UriScheme.http = 80
scheme_number UriScheme.https = 443
scheme_number UriScheme.ftp = 21
scheme_number UriScheme.ftps = 990

pub record UriDetails : Type 0 where
  pub scheme : Option Bytes
  pub host : Option Bytes
  pub path : Option Bytes
  pub port : Option Bytes
  pub query : Option Bytes

abbrev pub no_details : UriDetails
no_details = record { scheme = none; host = none; path = none; port = none; query = none }

-- "Get Path (optional query)" of `uriDetailsNewFrom`, on the text from the first '/' on.
unfoldable pub with_path : UriDetails → Bytes → UriDetails
with_path d p = elim (split_at b'?' p) [
  | none ↦ record d { path = some p }
  | some (path, q) ↦ record d { path = some path; query = some (drop 1 q) }
]

-- "Get Host": where the first '/' and the first ':' stand in the text behind the scheme.
unfoldable pub with_host :
    UriDetails → Bytes → Option (Bytes × Bytes) → Option (Bytes × Bytes) → UriDetails
unfolding with_path
with_host d q (some (before_p, p)) (some (before_i, i)) =
    if ltb (length before_i) (length before_p)
    then with_path
        (record d {
          host = some before_i;
          port = some (take (length before_p - length before_i - 1) (drop 1 i));
        })
        p
    else with_path (record d { host = some before_p }) p
with_host d q (some (before_p, p)) none = with_path (record d { host = some before_p }) p
with_host d q none (some (before_i, i)) = record d { host = some before_i; port = some (drop 1 i) }
with_host d q none none = if length q == 0 then d else record d { host = some q }

unfoldable pub with_authority : UriDetails → Bytes → UriDetails
unfolding with_host
with_authority d q = with_host d q (split_at b'/' q) (split_at b':' q)

-- `uriDetailsNewFrom`
unfoldable pub uri_details_new_from : Option Bytes → UriDetails
unfolding with_authority
uri_details_new_from none = no_details
uri_details_new_from (some uri) = elim (split_on (codes "://") uri) [
  | none ↦ with_authority no_details uri
  | some (scheme, p) ↦ with_authority (record no_details { scheme = some scheme }) (drop 3 p)
]

abbrev pub port_text : Option Bytes → Bytes
port_text none = []
port_text (some port) = b':' ∷ port

abbrev pub query_text : Option Bytes → Bytes
query_text none = []
query_text (some query) = b'?' ∷ query

-- `uriDetailsCreateString`; its fields never share memory, so `port != scheme` holds.
unfoldable pub uri_details_create_string : UriDetails → Option Bytes
uri_details_create_string d = create d.scheme d.host d.path
  where
    create : Option Bytes → Option Bytes → Option Bytes → Option Bytes
    create (some scheme) (some host) (some path) =
        some
          (scheme ++ (codes "://" ++ (host ++ (port_text d.port ++ (path ++ query_text d.query)))))
    create _ _ _ = none

-- The switch of `uriDetailsGetScheme` on four characters, with its fall-throughs.
unfoldable pub scheme_of_four : ℕ → ℕ → ℕ → ℕ → UriScheme
scheme_of_four a b c d =
    let http = if b == b'T' && c == b'T' && d == b'P' then UriScheme.http else UriScheme.unknown in
    let ftps = if c == b'P' && d == b'S' then UriScheme.ftps else http in
    if a == b'F'
    then (if b == b'I'
        then (if c == b'L' && d == b'E' then UriScheme.file else ftps)
        else if b == b'T'
        then ftps
        else http)
    else if a == b'H'
    then http
    else UriScheme.unknown

-- `uriDetailsGetScheme` on the scheme's characters
unfoldable pub scheme_of : Bytes → UriScheme
unfolding scheme_of_four
scheme_of (a ∷ b ∷ c ∷ []) =
    if to_upper a == b'F' && to_upper b == b'T' && to_upper c == b'P'
    then UriScheme.ftp
    else UriScheme.unknown
scheme_of (a ∷ b ∷ c ∷ d ∷ []) = scheme_of_four (to_upper a) (to_upper b) (to_upper c) (to_upper d)
scheme_of (a ∷ b ∷ c ∷ d ∷ e ∷ []) =
    if to_upper a == b'H'
      && to_upper b == b'T'
      && to_upper c == b'T'
      && to_upper d == b'P'
      && to_upper e == b'S'
    then UriScheme.https
    else UriScheme.unknown
scheme_of _ = UriScheme.unknown

-- `uriDetailsGetScheme`
unfoldable pub uri_details_get_scheme : UriDetails → UriScheme
unfolding scheme_of
uri_details_get_scheme d = elim d.scheme [ none ↦ UriScheme.unknown | some s ↦ scheme_of s ]

abbrev pub ushrt_max : ℕ
ushrt_max = 65535

-- The loop of `uriDetailsGetPort`: 0 on a character that is no digit, and when `r` leaves the range.
unfoldable pub port_from : ℕ → Bytes → ℕ
port_from r [] = r
port_from r (c ∷ port) =
    let r' = r * 10 + (c - b'0') in
    let next = port_from r' port in if is_digit c && leb r' ushrt_max then next else 0

-- `uriDetailsGetPort`
unfoldable pub uri_details_get_port : UriDetails → ℕ
unfolding port_from uri_details_get_scheme
uri_details_get_port d = elim d.port [
  | none ↦ scheme_number (uri_details_get_scheme d)
  | some port ↦ port_from 0 port
]

-- `uriDetailsSetScheme`
unfoldable pub uri_details_set_scheme : UriDetails → UriScheme → UriDetails
uri_details_set_scheme d UriScheme.unknown = record d { scheme = none }
uri_details_set_scheme d UriScheme.http = record d { scheme = some (codes "http") }
uri_details_set_scheme d UriScheme.https = record d { scheme = some (codes "https") }
uri_details_set_scheme d UriScheme.ftp = record d { scheme = some (codes "ftp") }
uri_details_set_scheme d UriScheme.ftps = record d { scheme = some (codes "ftps") }
uri_details_set_scheme d UriScheme.file = record d { scheme = some (codes "file") }

-- `uriDetailsFree` clears every field.
unfoldable pub uri_details_free : UriDetails → UriDetails
uri_details_free d = no_details

-- The end of `uriDetailsCreateStringBase`, for a scheme that is not "file".
unfoldable pub base_with_host : Bytes → Option Bytes → Option Bytes → Option Bytes
base_with_host scheme none port = none
base_with_host scheme (some host) port =
    some (scheme ++ (codes "://" ++ (host ++ (port_text port ++ (b'/' ∷ [])))))

-- `uriDetailsCreateStringBase`
unfoldable pub uri_details_create_string_base : UriDetails → Option Bytes
unfolding scheme_of base_with_host
uri_details_create_string_base d = elim d.scheme [
  | none ↦ none
  | some scheme ↦ elim (scheme_of scheme) [
    | UriScheme.file ↦ some (codes "file:///")
    | _ ↦ base_with_host scheme d.host d.port
  ]
]

-- The first loop of `uriPathCombine`: back over '/' from index `idx`, down to 0 at most.
unfoldable pub back_over_dividers : Bytes → ℕ → ℕ
back_over_dividers output zero = zero
back_over_dividers output (suc idx) =
    let back = back_over_dividers output idx in
    if at output (suc idx) == b'/' then back else suc idx

-- The second loop: on over the '/' at the start of the second path.
unfoldable pub skip_dividers : Bytes → Bytes
skip_dividers [] = []
skip_dividers (c ∷ path) = let rest = skip_dividers path in if c == b'/' then rest else c ∷ path

-- The output after the first path is in it, at the index where the first loop stopped.
unfoldable pub end_with_divider : Bytes → ℕ → Bytes
end_with_divider output zero =
    if at output 0 == b'/' && at output 1 == b'/' then take 1 output else output
end_with_divider output (suc idx) = take (suc (suc idx)) output ++ (b'/' ∷ [])

-- `uriPathCombine`. On an empty first path the index wraps and the read leaves the buffer: `none`.
unfoldable pub uri_path_combine : Bytes → Bytes → Option Bytes
unfolding back_over_dividers skip_dividers end_with_divider
uri_path_combine [] path2 = none
uri_path_combine (c ∷ path1) path2 = some (
    end_with_divider (c ∷ path1) (back_over_dividers (c ∷ path1) (length path1))
    ++ skip_dividers path2)
