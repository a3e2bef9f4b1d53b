-- ===== src/Fetch/Http/Headers.antt =====
-- pkg/fetch/auth_headers.go, and `getAuthHeaders` of pkg/fetch/http_fetcher.go: which headers go to
-- which URI.
pub mod Laws
pub mod Asked
pub mod WellFormed
use Prim.Native.String
use bb_remote_asset.Prelude.{
  suc, String, Option, none, some, List, [], ◌∷◌, ◌++◌, ◌==◌, if◌then◌else◌, get_elem?, concat,
  split, cut_prefix,
}
use bb_remote_asset.Prelude.Int.{ℤ, pos, negsuc}
use bb_remote_asset.Prelude.Decimal.{
  ParsedInt, number, syntax_error, range_error, parse_int, decimal,
}
use bb_remote_asset.Prelude.Effect.{Code, ok, Error, Result, err, status_error, and_then}
use bb_remote_asset.Dict.{lookup, assign}
use bb_remote_asset.Qualifier.{Qualifier}
use bb_remote_asset.Storage.Libraries.{Libraries}

-- `AuthHeaders`: for each URI its headers. Both are maps that are ranged over or looked up.
abbrev pub AuthHeaders : Type 0
AuthHeaders = List (String × List (String × String))

abbrev or_empty : Option (List (String × String)) → List (String × String)
or_empty none = []
or_empty (some headers) = headers

-- `ah[uri]`
abbrev pub headers_of : String → AuthHeaders → List (String × String)
headers_of uri ah = or_empty (lookup uri ah)

-- `AddHeader`
unfoldable pub add_header : AuthHeaders → String → String → String → AuthHeaders
add_header ah uri header value = assign uri (assign header value (headers_of uri ah)) ah

-- The request that is sent, with the calls of Header.Set in their order.
pub record Request : Type 0 where
  pub uri : String
  pub headers : List (String × String)

-- `ApplyHeaders`
unfoldable pub apply_headers : AuthHeaders → String → Request → Request
apply_headers ah uri req = record req { headers = req.headers ++ headers_of uri ah }

-- The loop over the URIs
unfoldable pub add_to_all : List String → String → String → AuthHeaders → AuthHeaders
unfolding add_header
add_to_all [] header value ah = ah
add_to_all (uri ∷ uris) header value ah =
    add_to_all uris header value (add_header ah uri header value)

-- A qualifier whose name begins with the prefix, and goes on with the header, is for all URIs.
abbrev pub with_global : List String → String → Option String → AuthHeaders → AuthHeaders
with_global uris value none ah = ah
with_global uris value (some header) ah = add_to_all uris header value ah

abbrev pub with_url : Qualifier → Option String → List (String × String) → List (String × String)
with_url q none per_url = per_url
with_url q (some _) per_url = assign q.name q.value per_url

-- What the loop over the qualifiers ends with: the value of the legacy qualifier, or the headers
-- for all URIs and the qualifiers for single ones.
pub data Collected : Type 0 where
  legacy : String → Collected
  collected : AuthHeaders → List (String × String) → Collected

unfoldable pub collect :
    List String → AuthHeaders → List (String × String) → List Qualifier → Collected
unfolding add_to_all
collect uris ah per_url [] = collected ah per_url
collect uris ah per_url (q ∷ qs) =
    if q.name == "bazel.auth_headers"
    then legacy q.value
    else collect uris (with_global uris q.value (cut_prefix "http_header:" q.name) ah)
        (with_url q (cut_prefix "http_header_url:" q.name) per_url) qs

abbrev invalid : String → String → Error
invalid name reason =
    status_error Code.invalid_argument
      (concat ("Invalid http_header_url qualifier: " ∷ name ∷ reason ∷ []))

-- The parts between the colons, if there are three.
abbrev pub three_parts : List String → Option (String × String × String)
three_parts (p ∷ q ∷ r ∷ []) = some (p, q, r)
three_parts _ = none

abbrev signed : ℤ → String
signed (pos n) = decimal n
signed (negsuc n) = concat ("-" ∷ decimal (suc n) ∷ [])

-- The URI at an index that is in range.
abbrev pub uri_at : List String → ParsedInt → Option String
uri_at uris (number (pos n)) = get_elem? uris n
uri_at uris _ = none

module _ (l : Libraries) where
  abbrev bad_index : String → String → String → Error
  bad_index name part reason = invalid name (
      concat (
        ": Bad URL index: "
        ∷ part
        ∷ ": "
        ∷ "strconv.ParseInt: parsing "
        ∷ l.quoted part
        ∷ ": "
        ∷ reason
        ∷ []))

  abbrev index_error : String → String → ParsedInt → Error
  index_error name part (number n) =
      invalid name (concat (": URL index out of range: " ∷ signed n ∷ []))
  index_error name part syntax_error = bad_index name part "invalid syntax"
  index_error name part range_error = bad_index name part "value out of range"

  abbrev add_at : String → String → AuthHeaders → Error → Option String → Result AuthHeaders
  add_at header value ah e none = err none e
  add_at header value ah e (some uri) = ok (add_header ah uri header value)

  abbrev add_parts :
      List String
      → String × String
      → AuthHeaders
      → Option (String × String × String)
      → Result AuthHeaders
  add_parts uris entry ah none = err none (invalid entry.0 "")
  add_parts uris entry ah (some (_, index, header)) =
      add_at header entry.1 ah (index_error entry.0 index (parse_int index))
        (uri_at uris (parse_int index))

  -- The body of the loop over the qualifiers for single URIs.
  unfoldable pub add_for_url : List String → String × String → AuthHeaders → Result AuthHeaders
  unfolding parse_int add_header split
  add_for_url uris entry ah = add_parts uris entry ah (three_parts (split b':' entry.0))

  unfoldable pub add_for_urls :
      List String → List (String × String) → AuthHeaders → Result AuthHeaders
  unfolding add_for_url
  add_for_urls uris [] ah = ok ah
  add_for_urls uris (entry ∷ entries) ah =
      and_then (add_for_url uris entry ah) λ more. add_for_urls uris entries more

  -- `unmarshal` is `NewAuthHeadersFromQualifier`, which reads JSON; `range` is the order in which a
  -- map is ranged over.
  module _ (unmarshal : String → Result AuthHeaders)
      (range : List (String × String) → List (String × String)) where
    abbrev after_loop : List String → Collected → Result AuthHeaders
    after_loop uris (legacy value) = unmarshal value
    after_loop uris (collected ah per_url) = add_for_urls uris (range per_url) ah

    -- `getAuthHeaders`
    unfoldable pub get_auth_headers : List String → List Qualifier → Result AuthHeaders
    unfolding collect add_for_urls
    get_auth_headers uris qualifiers = after_loop uris (collect uris [] [] qualifiers)
