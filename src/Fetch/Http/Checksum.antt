-- ===== src/Fetch/Http/Checksum.antt =====
-- `getChecksumSri` of pkg/fetch/http_fetcher.go: the checksum that a request asks for.
pub mod Laws
use Prim.Native.String.{len}
use Prim.Native.String
use bb_remote_asset.Prelude.{
  ℕ, String, ◌≡◌, refl, Bool, true, false, Option, none, some, List, [], ◌∷◌, ◌==◌, if◌then◌else◌,
  concat, split_first,
}
use bb_remote_asset.Prelude.Base64.{Decoded, bytes, corrupt, decode_base64, hex}
use bb_remote_asset.Prelude.Decimal.{decimal}
use bb_remote_asset.Prelude.Effect.{Code, ok, Error, Result, err, panic, status_error, and_then}
use bb_remote_asset.Dict.{lookup}
use bb_remote_asset.Qualifier.{Qualifier}
use bb_remote_asset.Storage.Messages.{
  DigestFunctionValue, unknown, sha256, sha1, md5, sha384, sha512, sha256tree,
}
use bb_remote_asset.Storage.Libraries.{Libraries}
use bb_remote_asset.Storage.ActionCache.Value.{on_error}

-- `hashTypes`
abbrev pub hash_types : List (String × DigestFunctionValue)
hash_types =
    ("sha256", sha256)
    ∷ ("sha1", sha1)
    ∷ ("md5", md5)
    ∷ ("sha384", sha384)
    ∷ ("sha512", sha512)
    ∷ ("sha256tree", sha256tree)
    ∷ []

abbrev invalid : List String → Error
invalid parts = status_error Code.invalid_argument (concat parts)

-- The digest in hexadecimal and the function that it is to be computed with. Without a checksum
-- the digest is empty, and the function is the zero value, `none`.
abbrev pub ExpectedChecksum : Libraries → Type 0
ExpectedChecksum l = String × Option l.Function

-- util.Must
abbrev must {ℓ} : {A : Type ℓ} → Result A → Result A
must (ok a) = ok a
must _ = panic

-- The bytes after the hash's name.
abbrev decoded_hash : String → Decoded → Result (List ℕ)
decoded_hash hash_name (bytes bs) = ok bs
decoded_hash hash_name (corrupt i) = err none (
    invalid (
      "Failed to decode checksum as base64 encoded "
      ∷ hash_name
      ∷ " sum: "
      ∷ "illegal base64 data at input byte "
      ∷ decimal i
      ∷ []))

abbrev known_hash : String → Option DigestFunctionValue → Result DigestFunctionValue
known_hash hash_name none = err none (invalid ("Unsupported checksum algorithm " ∷ hash_name ∷ []))
known_hash hash_name (some v) = ok v

abbrev hash_parts : String → Option (String × String) → Result (String × String)
hash_parts value none = err none (invalid ("Bad checksum.sri hash expression: " ∷ value ∷ []))
hash_parts value (some parts) = ok parts

abbrev is_unknown : DigestFunctionValue → Bool
is_unknown unknown = true
is_unknown _ = false

module _ (l : Libraries) where
  abbrev no_function : Error → Error
  no_function e =
      invalid ("Failed to get checksum function for checksum.sri: " ∷ l.error_text e ∷ [])

  -- The function for a hash of this length, in the instance without a name.
  checksum_function : DigestFunctionValue → String → Result l.Function
  checksum_function value expected_digest =
      and_then (must (l.new_instance_name "")) λ instance_name.
        on_error no_function (l.get_digest_function instance_name value (len expected_digest))

  -- The value of the qualifier.
  unfoldable pub parse_sri : String → Result (ExpectedChecksum l)
  unfolding checksum_function
  parse_sri value = and_then (hash_parts value (split_first b'-' value)) λ parts.
      and_then (known_hash parts.0 (lookup parts.0 hash_types)) λ digest_function.
        and_then (decoded_hash parts.0 (decode_base64 parts.1)) λ decoded.
          and_then (checksum_function digest_function (hex decoded))
            λ function. ok (hex decoded, some function)

  -- The loop over the qualifiers. The enum that the loop tests is not the one that its body
  -- assigns, which is declared anew.
  unfoldable pub checksum_in : DigestFunctionValue → List Qualifier → Result (ExpectedChecksum l)
  unfolding parse_sri
  checksum_in seen [] = ok ("", none)
  checksum_in seen (q ∷ qs) =
      if q.name == "checksum.sri"
      then if is_unknown seen
        then parse_sri q.value
        else err none (invalid ("Multiple checksum.sri provided" ∷ []))
      else checksum_in seen qs

  -- `getChecksumSri`
  unfoldable pub get_checksum_sri : List Qualifier → Result (ExpectedChecksum l)
  unfolding checksum_in
  get_checksum_sri qualifiers = checksum_in unknown qualifiers
