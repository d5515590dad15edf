-- ===== src/Platform/Ports.antt =====
-- src/platform/platform.c: the ports that `platformBindPort` tries. `bind` is a parameter: which ports the system
-- gives.
pub mod Fields
mod Tests
use newth.Prelude.{
  ℕ, ◌+◌, ◌<◌, ◌≤◌, ◌≡◌, refl, ap, ◌∙◌, Bool, true, false, ◌&&◌, ◌||◌, Option, none, some, List, [],
  ◌∷◌, ◌++◌, ◌==◌, if◌then◌else◌, arith, Bytes, length, ltb, leb, is_digit, append_assoc,
  append-nil,
}
use newth.Prelude.Scan.{strtoul}

abbrev pub ushrt_max : ℕ
ushrt_max = 65535

abbrev pub port_size_max : ℕ
port_size_max = 2048

unfoldable pub port_of : Option ℕ → List ℕ
port_of none = []
port_of (some n) = if ltb n ushrt_max then n ∷ [] else []

unfoldable pub number_of : Bytes → List ℕ
unfolding port_of
number_of text = port_of (strtoul text)

-- A field in front of a `,`, of at most 5 bytes
unfoldable pub add_field : List ℕ → Bytes → List ℕ
unfolding number_of
add_field ports field =
    if ltb 6 (length field + 1)
    then ports
    else if ltb (length ports) port_size_max
    then ports ++ number_of field
    else ports

-- What the loop of `platformBindPort` ends with: a byte that is no digit, or the ports and the text from `last` on
pub data Scanned : Type 0 where
  not_a_number : Scanned
  ports_of : List ℕ → Bytes → Scanned

-- The loop, at a text behind the field that begins at `last`. A `,` moves on by two bytes, so that the one behind it
-- is not looked at; behind the last byte of the text that is a read out of bounds, `none`.
unfoldable pub scan_ports : List ℕ → Bytes → Bytes → Option Scanned
unfolding add_field
scan_ports ports field [] = some (Scanned.ports_of ports field)
scan_ports ports field (c ∷ []) =
    if c == b','
    then none
    else if is_digit c
    then some (Scanned.ports_of ports (field ++ (c ∷ [])))
    else some Scanned.not_a_number
scan_ports ports field (c ∷ d ∷ text) =
    let next = scan_ports (add_field ports field) (d ∷ []) text in
    let same = scan_ports ports (field ++ (c ∷ [])) (d ∷ text) in
    if c == b',' then next else if is_digit c then same else some Scanned.not_a_number

-- The ports that are tried: the last field counts only where it is the only one that gives a port.
unfoldable pub port_list : Scanned → Option (List ℕ)
port_list Scanned.not_a_number = none
port_list (Scanned.ports_of [] field) = some (number_of field)
port_list (Scanned.ports_of ports field) = some ports

unfoldable pub try_ports : (ℕ → Bool) → List ℕ → Option ℕ
try_ports bind [] = none
try_ports bind (n ∷ ports) = let rest = try_ports bind ports in if bind n then some n else rest

-- The results of `platformBindPort`: 0 with the port that was bound, 1 and -1
pub data Bound : Type 0 where
  bound_to : ℕ → Bound
  bad_port bound_none : Bound

-- `platformBindPort` for the two families of addresses that it knows
unfoldable pub platform_bind_port : (ℕ → Bool) → Bytes → Option Bound
unfolding scan_ports port_list try_ports
platform_bind_port bind port = elim (scan_ports [] [] port) [
  | none ↦ none
  | some scanned ↦ elim (port_list scanned) [
    | none ↦ some Bound.bad_port
    | some ports ↦ elim (try_ports bind ports) [
      | none ↦ some Bound.bound_none
      | some n ↦ some (Bound.bound_to n)
    ]
  ]
]
