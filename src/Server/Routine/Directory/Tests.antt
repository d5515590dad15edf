-- ===== src/Server/Routine/Directory/Tests.antt =====
-- The directory routine at concrete inputs.
use newth.Prelude.{true, false, [], ◌∷◌, codes, arith}
use newth.Server.Http.Writer.Appends.{Appends}
use newth.Server.Routine.{DirectoryRoutine}
use newth.Server.Routine.Directory.{directory_routine_continue}
use newth.Server.Routine.Directory.Listing.{page, directory_routine_continue-Appends}

abbrev two_entries : DirectoryRoutine
two_entries = record {
  count = 0;
  directory =
      record { name = codes ".git"; is_hidden = true; is_directory = true }
      ∷ record { name = codes "src"; is_hidden = false; is_directory = true }
      ∷ record { name = codes "a b"; is_hidden = false; is_directory = false }
      ∷ [];
}

directory_routine_continue-Appends_example :
    Appends
      (page (codes "/") 10 0 two_entries.directory)
      (directory_routine_continue 8192 (codes "/") two_entries)
directory_routine_continue-Appends_example =
    directory_routine_continue-Appends 8192 (codes "/") two_entries (omega arith) (omega arith)
      (omega arith, omega arith, (omega arith, omega arith, (omega arith, omega arith, tt)))
