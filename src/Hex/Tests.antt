-- ===== src/Hex/Tests.antt =====
-- Runs of the decoder, and its theorems at concrete inputs.
use newth.Prelude.{◌^◌, ◌≤◌, ◌<◌, ◌≡◌, refl, some, none, codes, length, arith, split_on}
use newth.Hex.{hex_to_ascii, hex_convert_string_to_ascii, hex_get_string_length}
use newth.Hex.Traversal.{NoUpDir, hex_convert_string_to_ascii-NoUpDir}
use newth.Hex.Escapes.{
  length-hex_convert_string_to_ascii, hex_convert_string_to_ascii_plain,
  hex_convert_string_to_ascii_nul,
}
use newth.Hex.Width.{hex_get_string_length_bounds}

decodes : hex_convert_string_to_ascii (codes "/my%20file%2eTXT%2") ≡ some (codes "/my file.TXT%2")
unfolding hex_convert_string_to_ascii split_on
decodes = refl

climbs : hex_convert_string_to_ascii (codes "/a/%2e./..../b") ≡ some (codes "/a///b")
unfolding hex_convert_string_to_ascii split_on
climbs = refl

faults : hex_convert_string_to_ascii (codes "/a%00") ≡ none
unfolding hex_convert_string_to_ascii
faults = refl

widths :
    (hex_get_string_length 0 ≡ 1)
    × (hex_get_string_length 255 ≡ 2)
    × (hex_get_string_length 256 ≡ 3)
unfolding hex_get_string_length
widths = (refl, refl, refl)

hex_convert_string_to_ascii-NoUpDir_example : NoUpDir (codes "/a///b")
hex_convert_string_to_ascii-NoUpDir_example =
    hex_convert_string_to_ascii-NoUpDir (codes "/a/%2e./..../b") climbs

length_climbs : length (codes "/a///b") ≤ 14
length_climbs = length-hex_convert_string_to_ascii (codes "/a/%2e./..../b") climbs

plain_up_dir : NoUpDir (codes "/a")
unfolding hex_convert_string_to_ascii split_on
plain_up_dir = hex_convert_string_to_ascii-NoUpDir (codes "/%61") refl

plain_path_kept : hex_convert_string_to_ascii (codes "/a") ≡ some (codes "/a")
plain_path_kept = hex_convert_string_to_ascii_plain (codes "/a") (omega arith) plain_up_dir

hex_convert_string_to_ascii_nul_example : hex_convert_string_to_ascii (codes "/a%00b") ≡ none
unfolding hex_to_ascii
hex_convert_string_to_ascii_nul_example =
    hex_convert_string_to_ascii_nul (codes "/a") b'0' b'0' (codes "b") (omega arith) refl
      (omega arith)

hex_get_string_length_bounds_example :
    (300 < 16 ^ hex_get_string_length 300)
    × (1 ≤ hex_get_string_length 300)
    × (16 ^ hex_get_string_length 300 ≤ 4800)
hex_get_string_length_bounds_example = hex_get_string_length_bounds 300
