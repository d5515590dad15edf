-- ===== src/Client/Uri/Scheme.antt =====
-- Which texts `uriDetailsGetScheme` takes for which scheme.
use newth.Prelude.{
  ℕ, ◌≡◌, refl, sym, ◌&&◌, ◌||◌, some, [], ◌∷◌, arith, Bytes, codes, map, to_upper, equal, ◌==◌,
  if◌then◌else◌,
}
use newth.Client.Uri.{UriScheme, UriDetails, scheme_of_four, scheme_of, uri_details_get_scheme}

-- The upper-case spellings and their schemes.
abbrev pub scheme_table : Bytes → UriScheme
scheme_table s =
    if equal s (codes "FTP")
    then UriScheme.ftp
    else if equal s (codes "FILE")
    then UriScheme.file
    else if equal s (codes "FTPS") || equal s (codes "FIPS")
    then UriScheme.ftps
    else if equal s (codes "HTTP") || equal s (codes "FTTP")
    then UriScheme.http
    else if equal s (codes "HTTPS")
    then UriScheme.https
    else UriScheme.unknown

scheme_of_four-table : (a b c d : ℕ) → scheme_of_four a b c d ≡ scheme_table (a ∷ b ∷ c ∷ d ∷ [])
unfolding scheme_of_four equal
scheme_of_four-table a b c d = ground arith

module _ (a b : ℕ) where
  table_short :
      (scheme_table (a ∷ []) ≡ UriScheme.unknown) × (scheme_table (a ∷ b ∷ []) ≡ UriScheme.unknown)
  unfolding equal
  table_short = ground arith

  table_three :
      (c : ℕ)
      → scheme_table (a ∷ b ∷ c ∷ [])
        ≡ (if a == b'F' && b == b'T' && c == b'P' then UriScheme.ftp else UriScheme.unknown)
  unfolding equal
  table_three c = ground arith

  table_five :
      (c d e : ℕ)
      → scheme_table (a ∷ b ∷ c ∷ d ∷ e ∷ []) ≡ (
          if a == b'H' && b == b'T' && c == b'T' && d == b'P' && e == b'S'
          then UriScheme.https
          else UriScheme.unknown)
  unfolding equal
  table_five c d e = ground arith

  table_long :
      (c d e f : ℕ) (s : Bytes) → scheme_table (a ∷ b ∷ c ∷ d ∷ e ∷ f ∷ s) ≡ UriScheme.unknown
  unfolding equal
  table_long c d e f s = ground arith

scheme_of-table : (s : Bytes) → scheme_of s ≡ scheme_table (map to_upper s)
unfolding scheme_of equal
scheme_of-table [] = refl
scheme_of-table (a ∷ []) = sym (table_short (to_upper a) 0).0
scheme_of-table (a ∷ b ∷ []) = sym (table_short (to_upper a) (to_upper b)).1
scheme_of-table (a ∷ b ∷ c ∷ []) = sym (table_three (to_upper a) (to_upper b) (to_upper c))
scheme_of-table (a ∷ b ∷ c ∷ d ∷ []) =
    scheme_of_four-table (to_upper a) (to_upper b) (to_upper c) (to_upper d)
scheme_of-table (a ∷ b ∷ c ∷ d ∷ e ∷ []) =
    sym (table_five (to_upper a) (to_upper b) (to_upper c) (to_upper d) (to_upper e))
scheme_of-table (a ∷ b ∷ c ∷ d ∷ e ∷ f ∷ s) = sym (
    table_long (to_upper a) (to_upper b) (to_upper c) (to_upper d) (to_upper e) (to_upper f)
      (map to_upper s))

-- `uriDetailsGetScheme` knows exactly the spellings of `scheme_table`, in any mixture of cases. Two of
-- them are no schemes: for want of a `break`, "fips" is taken for FTPS and "fttp" for HTTP.
pub uri_details_get_scheme_lem :
    (d : UriDetails) (s : Bytes)
    → d.scheme ≡ some s
    → uri_details_get_scheme d ≡ scheme_table (map to_upper s)
unfolding uri_details_get_scheme
uri_details_get_scheme_lem d s e = rw (e, uri_details_get_scheme) (scheme_of-table s)
