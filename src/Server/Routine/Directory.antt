-- ===== src/Server/Routine/Directory.antt =====
-- src/server/routine.c: `DirectoryRoutineContinue`, which lists up to ten entries of a directory in each
-- call. What the platform reads of a directory is the list of its entries.
pub mod Listing
mod Tests
use newth.Prelude.{
  ℕ, zero, suc, ◌+◌, ◌-◌, Bool, true, false, Option, none, some, List, [], ◌∷◌, ◌++◌, ◌==◌,
  if◌then◌else◌, Bytes, codes, length, at, ltb,
}
use newth.Server.Http.Html.{
  html_list_end, html_footer_write, html_list_write_path_link, platform_heap_string_append,
}
use newth.Server.Http.Write.{http_body_write_chunk, http_body_write_chunk_ending}
use newth.Server.Routine.{DirEntry, DirectoryRoutine}
use newth.Server.Http.Writer.{M, pure, ◌>>=◌, ◌>>◌, flush}

-- `BUFSIZ` of the GNU library
abbrev pub bufsiz : ℕ
bufsiz = 8192

-- What is put into `pathBuf`, for a path that is not empty.
abbrev pub entry_path : Bytes → DirEntry → Bytes
entry_path web_path entry =
    let divider : Bytes = if at web_path (length web_path - 1) == b'/' then [] else b'/' ∷ [] in
    let ending : Bytes = if entry.is_directory then b'/' ∷ [] else [] in
    web_path ++ (divider ++ (entry.name ++ ending))

abbrev pub text_of : Option Bytes → Bytes
text_of none = []
text_of (some text) = text

-- The page from the end of the list on, with the line for an empty directory.
unfoldable pub end_of_page : ℕ → Bytes
unfolding html_list_end html_footer_write platform_heap_string_append
end_of_page count =
    let empty : Option Bytes =
      if count == 0 then some (codes "\t\t\t<LI>Empty Directory</LI>\n") else none in
    text_of (html_footer_write (html_list_end empty))

abbrev pub write_end_of_page : ℕ → ℕ → M ℕ
write_end_of_page sb_data_size count = http_body_write_chunk (end_of_page count) >>= λ n.
    if n == 0 then pure 0 else http_body_write_chunk_ending sb_data_size

-- The branch for the end of the directory
unfoldable pub end_listing : ℕ → ℕ → M ℕ
end_listing sb_data_size count = do write_end_of_page sb_data_size count; flush sb_data_size; pure 0

-- The line of an entry, or `none` where the path is too short for `htmlListWritePathLink`.
unfoldable pub entry_line : Bytes → DirEntry → Option Bytes
unfolding html_list_write_path_link platform_heap_string_append
entry_line web_path entry = elim (html_list_write_path_link none (entry_path web_path entry)) [
  | none ↦ none
  | some buffer ↦ buffer
]

abbrev pub fault : {A : Type 0} → M A
fault c = none

-- The loop with `n` rounds left and `written` bytes so far: the result, and the routine's state.
unfoldable pub list_entries : ℕ → Bytes → ℕ → ℕ → ℕ → List DirEntry → M (ℕ × DirectoryRoutine)
unfolding end_listing
list_entries sb_data_size web_path zero written count entries =
    flush sb_data_size >>= λ f. pure (written, record { count = count; directory = entries })
list_entries sb_data_size web_path (suc n) written count [] =
    end_listing sb_data_size count >>= λ r. pure (r, record { count = count; directory = [] })
list_entries sb_data_size web_path (suc n) written count (entry ∷ entries) =
    let hidden = list_entries sb_data_size web_path (suc n) written count entries in
    let too_long = list_entries sb_data_size web_path n written count entries in
    let listed : M (ℕ × DirectoryRoutine) = elim (entry_line web_path entry) [
      | none ↦ fault
      | some line ↦ http_body_write_chunk line >>= λ r.
          list_entries sb_data_size web_path n (written + length line) (count + 1) entries
    ] in
    if entry.is_hidden
    then hidden
    else if ltb (length web_path + length entry.name + 3) bufsiz
    then listed
    else too_long

-- `DirectoryRoutineContinue`. With an empty path it reads `pathBuf` before it is written.
unfoldable pub directory_routine_continue : ℕ → Bytes → DirectoryRoutine → M (ℕ × DirectoryRoutine)
unfolding list_entries
directory_routine_continue sb_data_size web_path self =
    if length web_path == 0
    then fault
    else list_entries sb_data_size web_path 10 0 self.count self.directory
