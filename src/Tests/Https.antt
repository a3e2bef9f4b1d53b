-- ===== src/Tests/Https.antt =====
-- The theorems on checksums and headers at concrete inputs, and the servers of the downloads.
use mathlib.Core.List.Perm
use bb_remote_asset.Prelude.{
  ℕ, String, ◌≡◌, refl, none, some, List, [], ◌∷◌, arith, ◌==◌, if◌then◌else◌, all, cut_prefix,
}
use bb_remote_asset.Prelude.Base64.{bytes, corrupt, decode_base64, hex, base64}
use bb_remote_asset.Prelude.Decimal.{number, range_error, parse_int, decimal}
use bb_remote_asset.Prelude.Int.{pos, negsuc}
use bb_remote_asset.Prelude.Effect.{ok, plain, Result, err, is_ok}
use bb_remote_asset.Dict.{lookup, assign}
use bb_remote_asset.Qualifier.{Qualifier}
use bb_remote_asset.Storage.Messages.{ProtoDigest, sha256, Message}
use bb_remote_asset.Fetch.Interface.{FetchRequest, FetchBlobResponse, ok_status}
use bb_remote_asset.Fetch.Http.Checksum.{get_checksum_sri}
use bb_remote_asset.Fetch.Http.Checksum.Laws.{get_checksum_sri-sri}
use bb_remote_asset.Fetch.Http.Headers.{AuthHeaders, Request, get_auth_headers}
use bb_remote_asset.Fetch.Http.Headers.Asked.{Asked, get_auth_headers-Asked}
use bb_remote_asset.Fetch.Http.Headers.WellFormed.{is_acceptable, get_auth_headers-is_ok}
use bb_remote_asset.Fetch.Http.Client.{Stream, eof, failed, chunk, Response}
use bb_remote_asset.Tests.World.{no_message, libraries, label}
use bb_remote_asset.Tests.Fetches.{request}

-- "Hello" is the checksum of whatever a server sends.
abbrev hello : List ℕ
hello = 72 ∷ 101 ∷ 108 ∷ 108 ∷ 111 ∷ []

encodes_hello : base64 hello ≡ "SGVsbG8="
unfolding base64
encodes_hello = refl

decodes_hello : decode_base64 "SGVs\nbG8=" ≡ bytes hello
unfolding decode_base64
decodes_hello = refl

padding_is_needed : decode_base64 "SGVsbA=x" ≡ corrupt 6
unfolding decode_base64
padding_is_needed = refl

least_int : parse_int "-9223372036854775808" ≡ number (negsuc 9223372036854775807)
unfolding parse_int
least_int = refl

too_large_int : parse_int "9223372036854775808" ≡ range_error
unfolding parse_int
too_large_int = refl

signed_int : parse_int "+007" ≡ number (pos 7)
unfolding parse_int
signed_int = refl

prints_number : decimal 1205 ≡ "1205"
unfolding decimal
prints_number = refl

abbrev pub checksum : Qualifier
checksum = record { name = "checksum.sri"; value = "sha256-SGVsbG8=" }

abbrev other_checksum : Qualifier
other_checksum = record { name = "checksum.sri"; value = "md5-AAAA" }

get_checksum_sri-sri_example :
    get_checksum_sri libraries (label ∷ checksum ∷ other_checksum ∷ [])
    ≡ ok ("48656c6c6f", some sha256)
unfolding base64 hex lookup
get_checksum_sri-sri_example =
    get_checksum_sri-sri libraries (label ∷ checksum ∷ other_checksum ∷ []) ("md5-AAAA" ∷ [])
      "sha256" sha256 hello "" sha256 refl refl
      (omega arith, (omega arith, (omega arith, (omega arith, (omega arith, tt))))) refl refl

abbrev for_all : Qualifier
for_all = record { name = "http_header:Accept"; value = "text/plain" }

abbrev pub for_second : Qualifier
for_second = record { name = "http_header_url:1:Authorization"; value = "Basic x" }

abbrev pub both_uris : List String
both_uris = "https://example.com/a" ∷ "https://example.com/b" ∷ []

abbrev pub no_json : String → Result AuthHeaders
no_json _ = err none (plain "no JSON")

abbrev pub in_order : List (String × String) → List (String × String)
in_order m = m

abbrev assigned : AuthHeaders
assigned =
    ("https://example.com/a", ("Accept", "text/plain") ∷ [])
    ∷ ("https://example.com/b", ("Accept", "text/plain") ∷ ("Authorization", "Basic x") ∷ [])
    ∷ []

assigns :
    get_auth_headers libraries no_json in_order both_uris (for_second ∷ for_all ∷ []) ≡ ok assigned
unfolding get_auth_headers cut_prefix assign lookup
assigns = refl

get_auth_headers-Asked_example : Asked both_uris (for_second ∷ for_all ∷ []) assigned
get_auth_headers-Asked_example =
    get_auth_headers-Asked libraries no_json in_order both_uris (for_second ∷ for_all ∷ []) assigned
      (λ m. Perm.refl m) refl assigns

abbrev past_the_end : Qualifier
past_the_end = record { name = "http_header_url:2:Accept"; value = "text/plain" }

get_auth_headers-is_ok_example :
    is_ok (get_auth_headers libraries no_json in_order both_uris (for_second ∷ past_the_end ∷ []))
    ≡ all (is_acceptable both_uris) (for_second ∷ past_the_end ∷ [])
get_auth_headers-is_ok_example =
    get_auth_headers-is_ok libraries no_json in_order both_uris (for_second ∷ past_the_end ∷ [])
      (λ m. Perm.refl m) refl

-- A body of two chunks, and one that breaks off.
abbrev body : Stream Message
body = chunk no_message (chunk no_message eof)

abbrev broken_body : Stream Message
broken_body = chunk no_message (failed (plain "connection reset"))

-- The first URI breaks off, the second does not.
abbrev pub answered : Request → Response Message String
answered r = record {
  status_code = 200;
  status = "200 OK";
  content_length = negsuc 0;
  connection = r.uri;
  stream = if r.uri == "https://example.com/a" then broken_body else body;
}

abbrev pub http_request : FetchRequest
http_request = record request { uris = both_uris; qualifiers = checksum ∷ for_second ∷ [] }

abbrev pub hello_digest : ProtoDigest
hello_digest = record { hash = "48656c6c6f"; size_bytes = pos 5 }

abbrev pub downloaded : FetchBlobResponse
downloaded = record {
  status = some (ok_status "Blob fetched successfully!");
  uri = "https://example.com/b";
  qualifiers = checksum ∷ for_second ∷ [];
  blob_digest = some hello_digest;
}
