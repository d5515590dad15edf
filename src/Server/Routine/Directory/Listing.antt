-- ===== src/Server/Routine/Directory/Listing.antt =====
-- What a call of `DirectoryRoutineContinue` puts into the traffic.
use newth.Prelude.{
  at, ℕ, zero, suc, ◌+◌, ◌-◌, ◌≤◌, ◌<◌, ◌≡◌, refl, ◌⊎◌, inl, inr, Bool, true, false, Bool-cases,
  Option, none, some, List, [], ◌∷◌, ◌++◌, ◌==◌, if◌then◌else◌, arith, Bytes, length, length-append,
  ltb, print_number,
}
use newth.Client.Io.{http_eol}
use newth.Server.SendBuffer.{send_buffer_write_text, soc_buf_err_fail}
use newth.Server.SendBuffer.Order.{IsValid, send_buffer_write_data_lem}
use newth.Server.Http.Writer.{Connection, M, pure, ◌>>=◌, write_text}
use newth.Server.Http.Writer.Appends.{
  Appended, Appends, pure-Appends, write_text-Appends, flush-Appends, Appended-trans, bind-Appends,
  bind_nil-Appends,
}
use newth.Server.Http.Write.{http_body_write_chunk, http_body_write_chunk_ending}
use newth.Server.Http.Write.Chunks.{chunk, http_body_write_chunk-framed}
use newth.Server.Http.Html.{filename_max, html_list_write_path_link, platform_heap_string_append}
use newth.Server.Routine.{DirEntry, DirectoryRoutine}
use newth.Server.Routine.Directory.{
  text_of, entry_path, bufsiz, end_of_page, end_listing, entry_line, list_entries,
  directory_routine_continue,
}

abbrev pub framed : Bytes → Bytes
framed buffer = chunk (print_number 16 (length buffer)) buffer

-- A result of 0 means that the socket failed.
abbrev Counted : Option (ℕ × Connection) → Type 0
Counted none = ⊥
Counted (some (n, c)) = (0 < n) ⊎ (c.socket_buffer.options ≡ soc_buf_err_fail)

last_write-Counted :
    (k : ℕ) (c : Connection)
    → IsValid c.socket_buffer
    → Counted ((write_text http_eol >>= λ t. pure (k + t)) c)
unfolding write_text send_buffer_write_text
last_write-Counted k c v = elim (send_buffer_write_data_lem c.socket_buffer http_eol c.net v).1 [
  | inl (count, same, order) ↦ inl (omega (arith, count))
  | inr (fail, count, order) ↦ inr fail
]

bind-Counted :
    {A : Type 0} (text : Bytes) (m : M A) (f : A → M ℕ) (c : Connection)
    → Appends text m
    → IsValid c.socket_buffer
    → ((a : A) (c' : Connection) → IsValid c'.socket_buffer → Counted (f a c'))
    → Counted ((m >>= f) c)
bind-Counted {A} text m f c h v k = go (m c) (h c v)
  where
    go :
        (o : Option (A × Connection))
        → Appended text c o
        → Counted (elim o [ none ↦ none | some (a, c') ↦ f a c' ])
    go none e = e
    go (some (a, c')) e = k a c' e.0

-- `httpBodyWriteChunk` gives 0 only where the socket failed.
chunk-Counted :
    (buffer : Bytes) (c : Connection)
    → IsValid c.socket_buffer
    → Counted (http_body_write_chunk buffer c)
unfolding http_body_write_chunk
chunk-Counted buffer c v =
    bind-Counted _ _ _ c (write_text-Appends (print_number 16 (length buffer) ++ http_eol)) v
      λ r c' v'.
        bind-Counted _ _ _ c' (write_text-Appends buffer) v'
          λ s c'' v''. last_write-Counted (r + s) c'' v''

-- The writer that goes on unless the count is 0.
if-Counted :
    (text more : Bytes) (m k : M ℕ)
    → Appends text m
    → ((c : Connection) → IsValid c.socket_buffer → Counted (m c))
    → Appends more k
    → Appends (text ++ more) (m >>= λ n. if n == 0 then pure 0 else k)
if-Counted text more m k h counted hk c v = go (m c) (h c v) (counted c v)
  where
    go :
        (o : Option (ℕ × Connection))
        → Appended text c o
        → Counted o
        → Appended
            (text ++ more)
            c
            (elim o [ none ↦ none | some (n, c') ↦ (if n == 0 then pure 0 else k) c' ])
    go none e w = e
    go (some (zero, c')) e w = elim w [ inl l ↦ absurd (omega arith) | inr fail ↦ (e.0, inl fail) ]
    go (some (suc n, c')) e w =
        let more_sent : (suc n == 0) ≡ false = ground arith in
        rw more_sent (Appended-trans text more c c' (k c') e.1 (hk c' e.0))

abbrev pub ending : Bytes
ending = b'0' ∷ (http_eol ++ http_eol)

chunk_ending-Appends : (sb : ℕ) → 0 < sb → Appends ending (http_body_write_chunk_ending sb)
unfolding http_body_write_chunk_ending
chunk_ending-Appends sb size_pos = bind_nil-Appends ending _ _ (write_text-Appends ending) λ n.
    elim (Bool-cases (n == 0)) [
      | inl nothing ↦ rw nothing (pure-Appends {A = ℕ} 0)
      | inr more ↦ rw more (flush-Appends sb size_pos)
    ]

end_listing-Appends :
    (sb count : ℕ) → 0 < sb → Appends (framed (end_of_page count) ++ ending) (end_listing sb count)
unfolding end_listing
end_listing-Appends sb count size_pos =
    bind_nil-Appends (framed (end_of_page count) ++ ending) _ _
      (if-Counted (framed (end_of_page count)) ending (http_body_write_chunk (end_of_page count))
        (http_body_write_chunk_ending sb) (http_body_write_chunk-framed (end_of_page count))
        (chunk-Counted (end_of_page count)) (chunk_ending-Appends sb size_pos))
      λ r. bind_nil-Appends [] _ _ (flush-Appends sb size_pos) λ f. pure-Appends {A = ℕ} 0

-- Every entry has a name, and a path to it is short enough for `htmlListWritePathLink`.
abbrev pub AllNamed : Bytes → List DirEntry → Type 0
AllNamed web_path [] = Unit
AllNamed web_path (entry ∷ entries) =
    (0 < length entry.name)
    × (length web_path + length entry.name + 3 ≤ filename_max)
    × AllNamed web_path entries

-- What the next `n` rounds write: a chunk for each entry that is not hidden and whose path fits, and at
-- the end of the directory the rest of the page and the last chunk.
abbrev pub page : Bytes → ℕ → ℕ → List DirEntry → Bytes
page web_path zero count entries = []
page web_path (suc n) count [] = framed (end_of_page count) ++ ending
page web_path (suc n) count (entry ∷ entries) =
    if entry.is_hidden
    then page web_path (suc n) count entries
    else if ltb (length web_path + length entry.name + 3) bufsiz
    then framed (text_of (entry_line web_path entry)) ++ page web_path n (count + 1) entries
    else page web_path n count entries

divider-le : (b : Bool) (c : ℕ) → length (if b then [] else c ∷ []) ≤ 1
divider-le true c = omega arith
divider-le false c = omega arith

ending-le : (b : Bool) (c : ℕ) → length (if b then c ∷ [] else []) ≤ 1
ending-le true c = omega arith
ending-le false c = omega arith

length-middle :
    (a d n e : Bytes) → length (a ++ (d ++ (n ++ e))) ≡ length a + length d + length n + length e
length-middle a d n e =
    omega (arith, length-append a (d ++ (n ++ e)), length-append d (n ++ e), length-append n e)

entry_line-some :
    (web_path : Bytes) (entry : DirEntry)
    → 0 < length web_path
    → 0 < length entry.name
    → length web_path + length entry.name + 3 ≤ filename_max
    → entry_line web_path entry ≡ some (text_of (entry_line web_path entry))
unfolding entry_line html_list_write_path_link platform_heap_string_append
entry_line-some web_path entry h k m =
    let size =
      length-middle web_path (if at web_path (length web_path - 1) == b'/' then [] else b'/' ∷ [])
        entry.name (if entry.is_directory then b'/' ∷ [] else []) in
    let divider = divider-le (at web_path (length web_path - 1) == b'/') b'/' in
    let ending = ending-le entry.is_directory b'/' in
    let long : ltb (length (entry_path web_path entry)) 2 ≡ false = ground (arith, size) in
    let short : ltb filename_max (length (entry_path web_path entry) + 1) ≡ false =
      ground (arith, size, divider, ending) in
    rw (long, short, entry_line, html_list_write_path_link) refl

list_entries-Appends :
    (sb : ℕ) (web_path : Bytes) (n written count : ℕ) (entries : List DirEntry)
    → 0 < sb
    → 0 < length web_path
    → AllNamed web_path entries
    → Appends (page web_path n count entries) (list_entries sb web_path n written count entries)
unfolding list_entries entry_line
list_entries-Appends sb web_path zero written count entries s h k =
    bind_nil-Appends [] _ _ (flush-Appends sb s) λ f.
      pure-Appends {A = ℕ × DirectoryRoutine}
        (written, record { count = count; directory = entries })
list_entries-Appends sb web_path (suc n) written count [] s h k =
    bind_nil-Appends _ _ _ (end_listing-Appends sb count s)
      λ r. pure-Appends {A = ℕ × DirectoryRoutine} (r, record { count = count; directory = [] })
list_entries-Appends sb web_path (suc n) written count (entry ∷ entries) s h k =
    elim (Bool-cases entry.is_hidden) [
      | inl hidden ↦
          rw hidden (list_entries-Appends sb web_path (suc n) written count entries s h k.2)
      | inr shown ↦ elim (Bool-cases (ltb (length web_path + length entry.name + 3) bufsiz)) [
        | inl fits ↦
            let line = text_of (entry_line web_path entry) in
            rw (shown, fits)
              (rw (entry_line-some web_path entry h k.0 k.1, list_entries)
                (bind-Appends (framed line) (page web_path n (count + 1) entries) _ _
                  (http_body_write_chunk-framed line)
                  λ r.
                    list_entries-Appends sb web_path n (written + length line) (count + 1) entries s
                      h k.2))
        | inr long ↦
            rw (shown, long) (list_entries-Appends sb web_path n written count entries s h k.2)
      ]
    ]

-- A call of `DirectoryRoutineContinue` on a path and names that are not empty, with entries whose paths fit
-- `FILENAME_MAX`, stays inside its strings: from a valid send buffer it ends with a valid one, and what the socket has taken together with
-- what the buffer still holds has grown by just the page of the next ten entries, and at the end of the
-- directory by the rest of the page and the last chunk, unless the buffer is marked as failed.
pub directory_routine_continue-Appends :
    (sb_data_size : ℕ) (web_path : Bytes) (self : DirectoryRoutine)
    → 0 < sb_data_size
    → 0 < length web_path
    → AllNamed web_path self.directory
    → Appends
        (page web_path 10 self.count self.directory)
        (directory_routine_continue sb_data_size web_path self)
unfolding directory_routine_continue
directory_routine_continue-Appends sb_data_size web_path self s h k =
    let there : (length web_path == 0) ≡ false = ground (arith, h) in
    rw there (list_entries-Appends sb_data_size web_path 10 0 self.count self.directory s h k)
