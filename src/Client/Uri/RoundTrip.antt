-- ===== src/Client/Uri/RoundTrip.antt =====
-- `uriDetailsNewFrom` reads back what `uriDetailsCreateString` wrote.
use newth.Prelude.{
  ◌-◌, ◌≡◌, ◌≢◌, refl, sym, ap, ◌∙◌, true, false, Option, none, some, ◌∷◌, ◌++◌, append-nil,
  append_assoc, arith, Bytes, codes, length, length-append, take-append_left, ltb, split_at, NotIn,
  NotIn-append, after_text, split_at-append, split_at_here, split_at-none, split_on_first,
}
use newth.Client.Uri.{
  UriDetails, no_details, with_path, with_host, with_authority, uri_details_new_from, port_text,
  query_text, uri_details_create_string,
}

module _ (d : UriDetails) (path : Bytes) (no_query : NotIn b'?' path) where
  with_path_lem :
      (query : Option Bytes)
      → d.query ≡ none
      → with_path d (b'/' ∷ (path ++ query_text query))
        ≡ record d { path = some (b'/' ∷ path); query = query }
  unfolding with_path
  with_path_lem none e =
      let plain : NotIn b'?' (b'/' ∷ path) = (ground arith, no_query) in
      rw (append-nil, split_at-none b'?' (b'/' ∷ path) plain, with_path, append-nil)
        (ap (λ q. record d { path = some (b'/' ∷ path); query = q }) e)
  with_path_lem (some query) e =
      let plain : NotIn b'?' (b'/' ∷ path) = (ground arith, no_query) in
      let found : split_at b'?' (b'/' ∷ (path ++ (b'?' ∷ query)))
          ≡ some (b'/' ∷ path, b'?' ∷ query) =
        split_at-append b'?' (b'/' ∷ path) (b'?' ∷ query) plain
        ∙ ap (after_text (b'/' ∷ path)) (split_at_here b'?' query)
        ∙ rw append-nil in
      rw (found, with_path)

-- The details that a text can carry: no field holds a byte that ends it, and the path begins with '/'.
pub record IsPlain (scheme host path : Bytes) (port : Option Bytes) : Type 0 where
  pub scheme_plain : NotIn b':' scheme
  pub host_divider : NotIn b'/' host
  pub host_colon : NotIn b':' host
  pub port_divider : NotIn b'/' (port_text port)
  pub path_plain : NotIn b'?' path

abbrev pub details : Bytes → Bytes → Bytes → Option Bytes → Option Bytes → UriDetails
details scheme host path port query = record {
  scheme = some scheme;
  host = some host;
  path = some (b'/' ∷ path);
  port = port;
  query = query;
}

module _ (scheme host path : Bytes) (query : Option Bytes) where
  abbrev start : UriDetails
  start = record no_details { scheme = some scheme }

  abbrev tail : Bytes
  tail = b'/' ∷ (path ++ query_text query)

  with_authority_port :
      (port : Bytes)
      → IsPlain scheme host path (some port)
      → with_authority start (host ++ (b':' ∷ (port ++ tail)))
        ≡ details scheme host path (some port) query
  unfolding with_authority with_host
  with_authority_port port w =
      let q = host ++ (b':' ∷ (port ++ tail)) in
      let divider : split_at b'/' q ≡ some (host ++ (b':' ∷ port), tail) =
        ap (split_at b'/') (sym (append_assoc host (b':' ∷ port) tail))
        ∙ split_at-append b'/' (host ++ (b':' ∷ port)) tail
            (NotIn-append b'/' host (b':' ∷ port) w.host_divider w.port_divider)
        ∙ ap (after_text (host ++ (b':' ∷ port))) (split_at_here b'/' (path ++ query_text query))
        ∙ rw append-nil in
      let colon : split_at b':' q ≡ some (host, b':' ∷ (port ++ tail)) =
        split_at-append b':' host (b':' ∷ (port ++ tail)) w.host_colon
        ∙ ap (after_text host) (split_at_here b':' (port ++ tail))
        ∙ rw append-nil in
      let size = length-append host (b':' ∷ port) in
      let before : ltb (length host) (length (host ++ (b':' ∷ port))) ≡ true =
        ground (arith, size) in
      let width : length (host ++ (b':' ∷ port)) - length host - 1 ≡ length port =
        omega (arith, size) in
      rw (divider, colon, with_authority, with_host)
        (rw before (
          rw (width, take-append_left)
            (with_path_lem (record start { host = some host; port = some port }) path w.path_plain
              query refl)))

  -- A ':' behind the first '/' belongs to the path or the query.
  late_colon :
      (o : Option (Bytes × Bytes))
      → NotIn b'?' path
      → with_host start (host ++ tail) (some (host, tail)) (after_text host o)
        ≡ details scheme host path none query
  unfolding with_host
  late_colon none h = with_path_lem (record start { host = some host }) path h query refl
  late_colon (some (before, i)) h =
      let late : ltb (length (host ++ before)) (length host) ≡ false =
        ground (arith, length-append host before) in
      rw late (with_path_lem (record start { host = some host }) path h query refl)

  with_authority_plain :
      IsPlain scheme host path none
      → with_authority start (host ++ tail) ≡ details scheme host path none query
  unfolding with_authority with_host
  with_authority_plain w =
      let divider : split_at b'/' (host ++ tail) ≡ some (host, tail) =
        split_at-append b'/' host tail w.host_divider
        ∙ ap (after_text host) (split_at_here b'/' (path ++ query_text query))
        ∙ rw append-nil in
      rw (divider, split_at-append b':' host tail w.host_colon, with_authority)
        (late_colon (split_at b':' tail) w.path_plain)

  with_authority_lem :
      (port : Option Bytes)
      → IsPlain scheme host path port
      → with_authority start (host ++ (port_text port ++ tail))
        ≡ details scheme host path port query
  with_authority_lem none w = with_authority_plain w
  with_authority_lem (some port) w = with_authority_port port w

  -- For details whose path begins with '/', and whose fields hold none of the bytes that end them,
  -- `uriDetailsCreateString` gives a text, and `uriDetailsNewFrom` reads the same details back from it.
  pub uri_details_new_from-create_string :
      (port : Option Bytes)
      → IsPlain scheme host path port
      → let d = details scheme host path port query in
        (uri_details_create_string d ≢ none)
        × (uri_details_new_from (uri_details_create_string d) ≡ d)
  unfolding uri_details_new_from uri_details_create_string
  uri_details_new_from-create_string port w = (
    cc,
    rw
        (
          split_on_first b':' (codes "//") scheme (host ++ (port_text port ++ tail)) w.scheme_plain,
          uri_details_new_from,
        )
        (with_authority_lem port w),
  )
