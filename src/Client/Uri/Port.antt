-- ===== src/Client/Uri/Port.antt =====
-- The port of a URI.
use newth.Prelude.{
  ℕ, ◌+◌, ◌-◌, ◌*◌, ◌≤◌, ◌≡◌, Bool, true, ◌&&◌, some, List, [], ◌∷◌, arith, Bytes, is_digit, leb,
  value_from, map, if◌then◌else◌,
}
use newth.Client.Uri.{UriDetails, ushrt_max, port_from, uri_details_get_port}

abbrev pub all_digits : Bytes → Bool
all_digits [] = true
all_digits (c ∷ s) = is_digit c && all_digits s

abbrev pub digit_value : ℕ → ℕ
digit_value c = c - b'0'

-- Reading on never makes the number smaller.
le-value_from : (ds : List ℕ) (acc : ℕ) → acc ≤ value_from 10 acc ds
le-value_from [] acc = omega arith
le-value_from (d ∷ ds) acc = omega (arith, le-value_from ds (acc * 10 + d))

port_from-value :
    (s : Bytes) (r : ℕ)
    → r ≤ ushrt_max
    → port_from r s ≡ (
        if all_digits s && leb (value_from 10 r (map digit_value s)) ushrt_max
        then value_from 10 r (map digit_value s)
        else 0)
unfolding port_from
port_from-value [] r h = ground arith
port_from-value (c ∷ s) r h = ground (
  arith,
  port_from-value s (r * 10 + (c - b'0')),
  le-value_from (map digit_value s) (r * 10 + (c - b'0')),
)

-- A port that is written is its decimal value if it has only digits and is at most 65535, and else 0,
-- however long it is.
pub uri_details_get_port_lem :
    (d : UriDetails) (s : Bytes)
    → d.port ≡ some s
    → uri_details_get_port d ≡ (
        if all_digits s && leb (value_from 10 0 (map digit_value s)) ushrt_max
        then value_from 10 0 (map digit_value s)
        else 0)
unfolding uri_details_get_port
uri_details_get_port_lem d s e = rw (e, uri_details_get_port) (port_from-value s 0 (omega arith))
