-- ===== src/Server/Handlers/Head.antt =====
-- The head of the answer to a request for a file: what it says, and that its length is the one of the body.
use newth.Prelude.{
  ℕ, zero, suc, ◌+◌, ◌-◌, ◌≤◌, ◌<◌, ◌^◌, ◌≡◌, refl, ap, ◌∙◌, inl, inr, Bool, true, false, none,
  some, [], ◌∷◌, ◌++◌, arith, Bytes, codes, length, length-append, length-take, length-drop, drop,
  ◌==◌, length-print_number, if◌then◌else◌, ◌&&◌, Bool-cases, not,
}
use newth.Prelude.Int.{ℤ, pos_part, pos, negsuc, ◌-ℤ◌, eq_ℤ, ltb_ℤ}
use newth.Client.Io.{http_eol, http_res}
use newth.Server.Http.Writer.Appends.{Appends, write_text-Appends, printf-Appends, bind-Appends}
use newth.Server.Http.Write.{
  print_offset, http_header_get_response, http_header_write_response,
  http_header_write_accept_ranges, http_header_write_range, http_header_write_end, base_name_from,
}
use newth.Server.Http.Write.Heads.{
  http_header_write_response_str-Appends, http_header_write_date-Appends,
  http_header_write_file_name-Appends, http_header_write_last_modified-Appends,
  http_header_write_content_length-Appends,
}
use newth.Server.Routine.Window.{bytes_to_end}
use newth.Server.Request.{RangeRead}
use newth.Server.Handlers.{FileStat, Window, status_code, window_head, file_head, file_window}

-- A file offset of 64 bits
abbrev pub IsOffset : ℤ → Type 0
IsOffset (pos n) = n < 2 ^ 64
IsOffset (negsuc n) = Unit

length-print_offset : (z : ℤ) → IsOffset z → length (print_offset z) ≤ 20
unfolding print_offset
length-print_offset (pos n) h = omega (arith, length-print_number n h)
length-print_offset (negsuc n) h =
    omega (arith, length-print_number (2 ^ 64 - (n + 1)) (omega arith))

-- The line `Content-Range` for the places `start` to `last`
abbrev pub range_line : ℤ → ℤ → ℤ → Bytes
range_line start last file_length =
    codes "Content-Range: bytes "
    ++ (print_offset start
        ++ (b'-' ∷ (print_offset last ++ (b'/' ∷ (print_offset file_length ++ http_eol)))))

abbrev pub last_place : ℤ → ℤ → ℤ
last_place finish file_length = if eq_ℤ finish file_length then finish -ℤ pos 1 else finish

http_header_write_range-Appends :
    (sb_data_size : ℕ) (start finish file_length : ℤ)
    → 85 < sb_data_size
    → IsOffset start
    → IsOffset (last_place finish file_length)
    → IsOffset file_length
    → Appends
        (range_line start (last_place finish file_length) file_length)
        (http_header_write_range sb_data_size start finish file_length)
unfolding http_header_write_range
http_header_write_range-Appends sb_data_size start finish file_length size h i j =
    let last = last_place finish file_length in
    printf-Appends _ _ (
      omega (
        arith,
        size,
        length-print_offset start h,
        length-print_offset last i,
        length-print_offset file_length j,
        length-append (print_offset start)
            (b'-' ∷ (print_offset last ++ (b'/' ∷ (print_offset file_length ++ http_eol)))),
        length-append (print_offset last) (b'/' ∷ (print_offset file_length ++ http_eol)),
        length-append (print_offset file_length) http_eol,
      ))

pos-sub : (m n : ℕ) → n ≤ m → pos m -ℤ pos n ≡ pos (m - n)
unfolding ◌-ℤ◌
pos-sub m n h = ground (arith, h)

zero_minus_one : pos 0 -ℤ pos 1 ≡ negsuc 0
unfolding ◌-ℤ◌
zero_minus_one = refl

below-IsOffset : (n : ℕ) → n < 2 ^ 64 → IsOffset (pos n -ℤ pos 1)
below-IsOffset zero h = rw zero_minus_one tt
below-IsOffset (suc n) h = rw (pos-sub (suc n) 1 (omega arith)) (omega (arith, h))

last_place-IsOffset : (n m : ℕ) → n < 2 ^ 64 → IsOffset (last_place (pos n) (pos m))
unfolding eq_ℤ
last_place-IsOffset n m h = elim (Bool-cases (n == m)) [
  | inl e ↦ rw e (below-IsOffset n h)
  | inr e ↦ rw e h
]

-- The window does not end before its start.
abbrev pub IsForward : Window → Type 0
IsForward (whole, pos start, pos finish) = start ≤ finish
IsForward (whole, pos start, negsuc finish) = ⊥
IsForward (whole, negsuc start, finish) = ⊥

-- The window ends inside a file of `st_size` bytes, and is all of it if it says so.
abbrev pub IsInside : ℕ → Window → Type 0
IsInside st_size (true, start, finish) = (start ≡ pos 0) × (finish ≡ pos st_size)
IsInside st_size (false, start, pos finish) = finish ≤ st_size
IsInside st_size (false, start, negsuc finish) = Unit

and-left : (a b : Bool) → (a && b) ≡ true → a ≡ true
and-left true b h = refl
and-left false b h = h

kept-IsInside :
    (start finish : ℤ) (st_size : ℕ) (kept : Bool)
    → (kept ≡ true → ltb_ℤ finish (pos st_size) ≡ true)
    → IsInside st_size (false, start, if kept then finish else pos st_size)
kept-IsInside start finish st_size false h = omega arith
kept-IsInside start (pos finish) st_size true h = ground (arith, h refl)
kept-IsInside start (negsuc finish) st_size true h = tt

pub file_window-IsInside :
    (range : RangeRead) (st_size : ℕ) → IsInside st_size (file_window range st_size)
unfolding file_window
file_window-IsInside none st_size = (refl, refl)
file_window-IsInside (some (start, finish)) st_size =
    kept-IsInside start finish st_size (ltb_ℤ finish (pos st_size) && not (eq_ℤ finish (pos 0)))
      (and-left _ _)

-- The bytes of a window
abbrev pub window_body : Bytes → Window → Bytes
window_body contents (whole, pos start, pos finish) = bytes_to_end contents start finish
window_body contents (whole, start, finish) = []

-- The lines of the head for a body of `n` bytes
abbrev pub window_lines : ℕ → ℕ → Window → Bytes
window_lines n st_size (true, start, finish) =
    codes "Content-Length: " ++ (print_offset (pos n) ++ http_eol)
window_lines n st_size (false, start, finish) =
    (codes "Content-Length: " ++ (print_offset (pos n) ++ http_eol))
    ++ range_line start (last_place finish (pos st_size)) (pos st_size)

length-bytes_to_end :
    (contents : Bytes) (start finish : ℕ)
    → finish ≤ length contents
    → length (bytes_to_end contents start finish) ≡ finish - start
length-bytes_to_end contents start finish h =
    length-take (finish - start) (drop start contents)
    ∙ omega (arith, length-drop start contents, h)

window_head-Appends :
    (sb_data_size st_size : ℕ) (contents : Bytes) (window : Window)
    → 85 < sb_data_size
    → st_size < 2 ^ 64
    → st_size ≡ length contents
    → IsForward window
    → IsInside st_size window
    → Appends
        (window_lines (length (window_body contents window)) st_size window)
        (window_head sb_data_size st_size window)
unfolding window_head
window_head-Appends sb_data_size st_size contents (true, pos start, pos finish) size fits same
      forward (at_start, at_end) =
    let first : start ≡ 0 = ap pos_part at_start in
    let last : finish ≡ st_size = ap pos_part at_end in
    let n : length (bytes_to_end contents start finish) ≡ st_size =
      length-bytes_to_end contents start finish (omega (arith, last, same))
      ∙ omega (arith, first, last) in
    rw n (http_header_write_content_length-Appends st_size fits)
window_head-Appends sb_data_size st_size contents (false, pos start, pos finish) size fits same
      forward inside =
    rw
      (
        length-bytes_to_end contents start finish (omega (arith, inside, same)),
        pos-sub finish start forward,
      )
      (bind-Appends _ _ _ _
        (http_header_write_content_length-Appends (finish - start) (omega (arith, inside, fits)))
        λ _.
          http_header_write_range-Appends sb_data_size (pos start) (pos finish) (pos st_size) size
            (omega (arith, forward, inside, fits))
            (last_place-IsOffset finish st_size (omega (arith, inside, fits))) fits)
window_head-Appends sb_data_size st_size contents (whole, pos start, negsuc finish) size fits same
      forward inside =
    elim forward [ ]
window_head-Appends sb_data_size st_size contents (whole, negsuc start, finish) size fits same
      forward inside =
    elim forward [ ]

-- The head of an answer with a file, for a body of `n` bytes
abbrev pub file_page : Bytes → Bytes → FileStat → ℕ → Window → Bytes
file_page time web_path st n window =
    (http_res ++ (b' ' ∷ (http_header_get_response (status_code window) ++ http_eol)))
    ++ ((codes "Date: " ++ (time ++ http_eol))
        ++ ((codes "Content-Disposition: filename=\""
              ++ (base_name_from web_path web_path ++ (b'"' ∷ http_eol)))
            ++ ((codes "Last-Modified: " ++ (st.modified_text ++ http_eol))
                ++ ((codes "Accept-Ranges: bytes" ++ http_eol)
                    ++ (window_lines n st.st_size window ++ http_eol)))))

pub file_head-Appends :
    (sb_data_size : ℕ) (time web_path : Bytes) (st : FileStat) (contents : Bytes) (window : Window)
    → 85 < sb_data_size
    → st.st_size < 2 ^ 64
    → length time ≤ 29
    → length st.modified_text ≤ 29
    → st.st_size ≡ length contents
    → IsForward window
    → IsInside st.st_size window
    → Appends
        (file_page time web_path st (length (window_body contents window)) window)
        (file_head sb_data_size time web_path st window)
unfolding file_head http_header_write_response http_header_write_accept_ranges http_header_write_end
file_head-Appends sb_data_size time web_path st contents window size fits h i same forward inside =
    bind-Appends _ _ _ _
      (http_header_write_response_str-Appends (http_header_get_response (status_code window)))
      λ _. bind-Appends _ _ _ _ (http_header_write_date-Appends time h) λ _.
        bind-Appends _ _ _ _ (http_header_write_file_name-Appends web_path) λ _.
          bind-Appends _ _ _ _ (http_header_write_last_modified-Appends st.modified_text i) λ _.
            bind-Appends _ _ _ _ (write_text-Appends (codes "Accept-Ranges: bytes" ++ http_eol))
              λ _.
                bind-Appends _ _ _ _
                  (window_head-Appends sb_data_size st.st_size contents window size fits same
                    forward inside)
                  λ _. write_text-Appends http_eol
