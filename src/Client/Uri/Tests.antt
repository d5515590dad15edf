-- ===== src/Client/Uri/Tests.antt =====
-- Runs of the URI functions, and their theorems at concrete inputs.
use newth.Prelude.{
  ◌≡◌, ◌≢◌, refl, some, none, codes, arith, map, to_upper, value_from, leb, ◌&&◌, if◌then◌else◌,
  split_on, split_at,
}
use newth.Client.Uri.{
  UriDetails, no_details, ushrt_max, uri_details_new_from, uri_details_create_string,
  uri_details_create_string_base, uri_details_get_scheme, uri_details_get_port, uri_path_combine,
}
use newth.Client.Uri.RoundTrip.{details, uri_details_new_from-create_string}
use newth.Client.Uri.Scheme.{scheme_table, uri_details_get_scheme_lem}
use newth.Client.Uri.Port.{all_digits, digit_value, uri_details_get_port_lem}
use newth.Client.Uri.Last.{uri_path_last, uri_path_last_lem}
use newth.Client.Uri.Combine.{uri_path_combine_lem}

abbrev site : UriDetails
site = details (codes "http") (codes "a.b") (codes "c/d") (some (codes "8080")) (some (codes "e=f"))

parsed : uri_details_new_from (some (codes "http://a.b:8080/c/d?e=f")) ≡ site
unfolding uri_details_new_from split_on split_at
parsed = refl

base : uri_details_create_string_base site ≡ some (codes "http://a.b:8080/")
unfolding uri_details_create_string_base
base = refl

ports :
    (uri_details_get_port site ≡ 8080)
    × (uri_details_get_port (record site { port = none }) ≡ 80)
    × (uri_details_get_port (record site { port = some (codes "65536") }) ≡ 0)
unfolding uri_details_get_port
ports = (refl, refl, refl)

-- One character that is no divider is left without one.
short_path :
    (uri_path_combine (codes "a") (codes "/b") ≡ some (codes "ab"))
    × (uri_path_combine (codes "/") (codes "/b") ≡ some (codes "/b"))
    × (uri_path_combine (codes "ab//") (codes "b") ≡ some (codes "ab/b"))
unfolding uri_path_combine
short_path = (refl, refl, refl)

uri_details_new_from-create_string_example :
    (uri_details_create_string site ≢ none)
    × (uri_details_new_from (uri_details_create_string site) ≡ site)
uri_details_new_from-create_string_example =
    uri_details_new_from-create_string (codes "http") (codes "a.b") (codes "c/d")
      (some (codes "e=f")) (some (codes "8080"))
      (record {
        scheme_plain = ground arith;
        host_divider = ground arith;
        host_colon = ground arith;
        port_divider = ground arith;
        path_plain = ground arith;
      })

uri_details_get_scheme_lem_example :
    uri_details_get_scheme (record no_details { scheme = some (codes "fIps") })
    ≡ scheme_table (map to_upper (codes "fIps"))
uri_details_get_scheme_lem_example =
    uri_details_get_scheme_lem (record no_details { scheme = some (codes "fIps") }) (codes "fIps")
      refl

uri_details_get_port_lem_example : uri_details_get_port site ≡ (
    if all_digits (codes "8080") && leb (value_from 10 0 (map digit_value (codes "8080"))) ushrt_max
    then value_from 10 0 (map digit_value (codes "8080"))
    else 0)
uri_details_get_port_lem_example = uri_details_get_port_lem site (codes "8080") refl

uri_path_combine_lem_example :
    uri_path_combine (codes "/ab//") (codes "/c/") ≡ some (codes "/ab/c/")
uri_path_combine_lem_example =
    uri_path_combine_lem b'/' b'b' (codes "a") (codes "//") (codes "/") (codes "c/") (ground arith)
      (refl, (refl, tt)) (refl, tt) (ground arith)

-- A path of only a divider has no last name; one without dividers has none either.
no_name : (uri_path_last (codes "/") ≡ none) × (uri_path_last (codes "ab") ≡ none)
unfolding uri_path_last
no_name = (refl, refl)

uri_path_last_lem_example :
    (uri_path_last (codes "/a/b") ≡ some (codes "b"))
    × (uri_path_last (codes "/a/b/") ≡ some (codes "b"))
uri_path_last_lem_example = uri_path_last_lem (codes "/a") (codes "b") (ground arith, tt)
