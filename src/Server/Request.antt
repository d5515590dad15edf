-- ===== src/Server/Request.antt =====
-- src/server/http.c: what the server reads from a request. A request is a text; `none` as the result of a
-- function that reads a number is one outside the range of `long`.
use newth.Prelude.{
  ℕ, zero, ◌+◌, ◌-◌, ◌*◌, Bool, ◌&&◌, ◌||◌, Option, none, some, [], ◌∷◌, ◌==◌, if◌then◌else◌, Bytes,
  codes, length, drop, take, ltb, leb, at, to_upper, split_at, split_on,
}
use newth.Prelude.Int.{ℤ, pos}
use newth.Prelude.Scan.{atol}
use newth.Hex.{hex_convert_string_to_ascii}

-- `httpClientReadUri`: NULL, or the path between the first two spaces, decoded. The outer `none` is a write
-- out of bounds of the decoder.
unfoldable pub http_client_read_uri : Bytes → Option (Option Bytes)
http_client_read_uri request = elim (split_at b' ' request) [
  | none ↦ some none
  | some (_, start) ↦ elim (split_at b' ' (drop 1 start)) [
    | none ↦ some none
    | some (path, _) ↦ elim (hex_convert_string_to_ascii path) [
      | none ↦ none
      | some p ↦ some (some p)
    ]
  ]
]

-- `httpType`
pub data HttpType : Type 0 where
  http_unknown http_get http_head http_post : HttpType

-- `httpClientReadType`
unfoldable pub http_client_read_type : Bytes → HttpType
http_client_read_type request =
    let c = to_upper (at request 0) in
    if c == b'G'
    then HttpType.http_get
    else if c == b'H'
    then HttpType.http_head
    else if c == b'P'
    then HttpType.http_post
    else HttpType.http_unknown

unfoldable pub skip_to_data : Bytes → Bytes
skip_to_data [] = []
skip_to_data (c ∷ text) =
    let rest = skip_to_data text in if c == b' ' || c == b':' || c == b'\t' then rest else c ∷ text

-- `httpHeaderDataClamp`: the text from the data on, and the length of the data
unfoldable pub http_header_data_clamp : Bytes → Bytes × ℕ
unfolding skip_to_data
http_header_data_clamp str =
    let text = skip_to_data str in
    let c = at text 0 in
    let to_line_end : ℕ = elim (split_at b'\r' text) [
      | some (line, _) ↦ length line
      | none ↦ elim (split_at b'\n' text) [ none ↦ 0 | some (line, _) ↦ length line ]
    ] in
    if c == b'\r' || c == b'\n' then (text, 0) else (text, to_line_end)

-- `ValidHttpDateStr`
unfoldable pub valid_http_date_str : Bytes → Bool
valid_http_date_str date =
    at date 3 == b','
    && at date 4 == b' '
    && at date 7 == b' '
    && at date 11 == b' '
    && at date 16 == b' '
    && at date 19 == b':'
    && at date 22 == b':'
    && at date 25 == b' '

-- `httpHeaderReadIfModifiedSince`: the text that `platformTimeGetFromHttpStr` is given
unfoldable pub http_header_read_if_modified_since : Bytes → Option Bytes
unfolding http_header_data_clamp valid_http_date_str
http_header_read_if_modified_since request = elim (split_on (codes "If-Modified-Since") request) [
  | none ↦ none
  | some (_, found) ↦
      let (text, len) = http_header_data_clamp (drop (length (codes "If-Modified-Since")) found) in
      if ltb 0 len && ltb len 39 && valid_http_date_str text then some (take len text) else none
]

-- What `httpHeaderReadRange` gives: `none` is the answer 1, which leaves `*start` and `*end` as they are; else
-- they are set.
abbrev pub RangeRead : Type 0
RangeRead = Option (ℤ × ℤ)

-- `if (*end == 0) *end = *max`
unfoldable pub default_end : ℤ → ℤ → ℤ
default_end (pos zero) max = max
default_end end max = end

-- The numbers of a range, whose `=` and `-` stand behind `before_equ` and `before_dash`, are cut off at both.
unfoldable pub range_numbers : Bytes → ℕ → ℕ → ℤ → Option RangeRead
unfolding default_end
range_numbers range equ dash max =
    let start_text =
      if ltb equ dash then take (dash - equ - 1) (drop (equ + 1) range) else drop (equ + 1) range in
    let end_text =
      if ltb dash equ
      then take (equ - dash - 1) (drop (dash + 1) range)
      else drop (dash + 1) range in
    let start : Option ℤ = if equ + 1 == dash then some (pos 0) else atol start_text in
    let end : Option ℤ = if length end_text == 0 then some (pos 0) else atol end_text in
    elim start [
      | none ↦ none
      | some s ↦ elim end [ none ↦ none | some t ↦ some (some (s, default_end t max)) ]
    ]

-- `httpHeaderReadRange` with `*start` and `*end` 0 before
unfoldable pub http_header_read_range : Bytes → ℤ → Option RangeRead
unfolding http_header_data_clamp range_numbers
http_header_read_range request max = elim (split_on (codes "Range") request) [
  | none ↦ some none
  | some (_, found) ↦
      let (text, len) = http_header_data_clamp (drop (length (codes "Range")) found) in
      let range = take len text in
      let numbers : Option RangeRead = elim (split_on (codes "bytes=") range) [
        | none ↦ some none
        | some _ ↦ elim (split_at b'=' range) [
          | none ↦ some none
          | some (before_equ, _) ↦ elim (split_at b'-' range) [
            | none ↦ some none
            | some (before_dash, _) ↦
                range_numbers range (length before_equ) (length before_dash) max
          ]
        ]
      ] in
      if leb 127 len then some none else numbers
]

-- The fields of `PlatformTimeStruct` that are compared, none of them negative
pub record PlatformTimeStruct : Type 0 where
  pub tm_year : ℕ
  pub tm_mon : ℕ
  pub tm_mday : ℕ
  pub tm_hour : ℕ
  pub tm_min : ℕ
  pub tm_sec : ℕ

-- The results of `platformTimeStructCompare`: 1, -1 and 0
pub data TimeOrder : Type 0 where
  first_is_older first_is_newer same_time : TimeOrder

-- `platformTimeStructCompare` of src/platform/posix01.c
unfoldable pub platform_time_struct_compare : PlatformTimeStruct → PlatformTimeStruct → TimeOrder
platform_time_struct_compare t1 t2 =
    let day1 = t1.tm_mon * 31 + t1.tm_mday in
    let day2 = t2.tm_mon * 31 + t2.tm_mday in
    let second1 = t1.tm_hour * 3600 + t1.tm_min * 60 + t1.tm_sec in
    let second2 = t2.tm_hour * 3600 + t2.tm_min * 60 + t2.tm_sec in
    if ltb t1.tm_year t2.tm_year
    then TimeOrder.first_is_older
    else if ltb t2.tm_year t1.tm_year
    then TimeOrder.first_is_newer
    else if ltb day1 day2
    then TimeOrder.first_is_older
    else if ltb day2 day1
    then TimeOrder.first_is_newer
    else if ltb second1 second2
    then TimeOrder.first_is_older
    else if ltb second2 second1
    then TimeOrder.first_is_newer
    else TimeOrder.same_time
