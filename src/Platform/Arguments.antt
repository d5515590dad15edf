-- ===== src/Platform/Arguments.antt =====
-- src/platform/platform.c: `platformArgvGetFlag`.
use newth.Prelude.{
  ℕ, suc, Bool, false, ◌&&◌, not, Option, none, some, List, [], ◌∷◌, ◌==◌, if◌then◌else◌, Bytes,
  drop, at, starts_with, split_at,
}

-- What `platformArgvGetFlag` finds: the number of the argument, and `*optArg` where it is set
abbrev pub FlagFound : Type 0
FlagFound = Option (ℕ × Option Bytes)

-- The argument that follows, unless it is a flag
unfoldable pub next_value : List Bytes → Option Bytes
next_value [] = none
next_value (value ∷ args) = if at value 0 == b'-' then none else some value

-- The value of a long flag: what follows `=`, or the next argument
unfoldable pub long_value : Bytes → List Bytes → Option Bytes
unfolding next_value
long_value arg args = elim (split_at b'=' arg) [
  | none ↦ next_value args
  | some (_, equ) ↦ some (drop 1 equ)
]

-- The value of a short flag: the rest of the argument, or the next one
unfoldable pub short_value : Bytes → List Bytes → Option Bytes
unfolding next_value
short_value arg args = if at arg 2 == 0 then next_value args else some (drop 2 arg)

-- `strncmp(longFlag, &argv[i][2], strlen(longFlag)) == 0`, for a long flag that is given
unfoldable pub is_long : Option Bytes → Bytes → Bool
is_long none arg = false
is_long (some long_flag) arg = starts_with long_flag (drop 2 arg)

-- The loop of `platformArgvGetFlag` from argument `i` on, with a pointer for the value; a short flag that is not
-- given is 0.
unfoldable pub flag_from : ℕ → Option Bytes → ℕ → List Bytes → FlagFound
unfolding long_value short_value is_long
flag_from short_flag long_flag i [] = none
flag_from short_flag long_flag i (arg ∷ args) =
    let rest = flag_from short_flag long_flag (suc i) args in
    let of_long : FlagFound =
      if is_long long_flag arg then some (i, long_value arg args) else rest in
    let of_short : FlagFound =
      if not (short_flag == 0) && at arg 1 == short_flag
      then some (i, short_value arg args)
      else rest in
    if at arg 0 == b'-'
    then (if at arg 1 == b'-' then of_long else if at arg 1 == 0 then rest else of_short)
    else rest

-- `platformArgvGetFlag`; the answer 0 is `none`.
unfoldable pub platform_argv_get_flag : ℕ → Option Bytes → List Bytes → FlagFound
unfolding flag_from
platform_argv_get_flag short_flag long_flag argv = flag_from short_flag long_flag 1 (drop 1 argv)
