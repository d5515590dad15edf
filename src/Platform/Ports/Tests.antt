-- ===== src/Platform/Ports/Tests.antt =====
-- Runs of `platformBindPort` and `platformArgvGetFlag`.
use newth.Prelude.{
  ℕ, ◌≡◌, refl, Bool, true, false, none, some, List, [], ◌∷◌, ◌==◌, Bytes, codes, starts_with,
  split_at,
}
use newth.Prelude.Scan.{strtoul}
use newth.Platform.Arguments.{platform_argv_get_flag}
use newth.Platform.Ports.{Bound, platform_bind_port}

-- Port 80 is taken.
abbrev not_80 : ℕ → Bool
not_80 n = elim (n == 80) [ true ↦ false | false ↦ true ]

abbrev two_more : List Bytes
two_more = codes "8080" ∷ codes "9000" ∷ []

second_port : platform_bind_port not_80 (codes "80,8080,9000") ≡ some (Bound.bound_to 8080)
unfolding platform_bind_port strtoul
second_port = refl

-- The last port of a list is not tried.
last_port : platform_bind_port not_80 (codes "80,8080") ≡ some Bound.bound_none
unfolding platform_bind_port strtoul
last_port = refl

-- A `,` at the end is followed by a read behind the text.
comma_at_end : platform_bind_port not_80 (codes "80,") ≡ none
unfolding platform_bind_port strtoul
comma_at_end = refl

port_flag :
    platform_argv_get_flag b'p'
      (some (codes "port"))
      (codes "th" ∷ codes "-6" ∷ codes "--port=81" ∷ [])
    ≡ some (2, some (codes "81"))
unfolding platform_argv_get_flag starts_with split_at
port_flag = refl
