-- ===== src/Fetch/Http/Checksum/Laws.antt =====
-- Which checksum a request asks for.
use Prim.Native.String
use Prim.Native.String.{len}
use bb_remote_asset.Prelude.{
  ℕ, String, ◌≡◌, refl, ap, ◌∙◌, inl, inr, false, none, some, List, [], ◌∷◌, ◌==◌, eq_iff,
  if◌then◌else◌, Bool-cases, All, has_char, split_first-append,
}
use bb_remote_asset.Prelude.Base64.{IsByte, hex, base64}
use bb_remote_asset.Prelude.Base64.RoundTrip.{decode_base64-base64}
use bb_remote_asset.Prelude.Effect.{ok, Result}
use bb_remote_asset.Dict.{lookup}
use bb_remote_asset.Qualifier.{Qualifier}
use bb_remote_asset.Storage.Messages.{DigestFunctionValue, unknown}
use bb_remote_asset.Storage.Libraries.{Libraries}
use bb_remote_asset.Fetch.Http.Checksum.{
  hash_types, ExpectedChecksum, parse_sri, checksum_in, get_checksum_sri,
}

-- The values of the qualifiers named checksum.sri.
abbrev pub sri_values : List Qualifier → List String
sri_values [] = []
sri_values (q ∷ qs) = if q.name == "checksum.sri" then q.value ∷ sri_values qs else sri_values qs

-- A hash in the notation of subresource integrity.
abbrev pub sri : String → List ℕ → String
sri hash_name bs = String.◌++◌ hash_name (String.◌∷◌ "-" (base64 bs))

abbrev NoDash : String × DigestFunctionValue → Type 0
NoDash entry = has_char b'-' entry.0 ≡ false

NoDash-lookup :
    (entries : List (String × DigestFunctionValue)) (name : String) (v : DigestFunctionValue)
    → All NoDash entries
    → lookup name entries ≡ some v
    → has_char b'-' name ≡ false
unfolding lookup
NoDash-lookup [] name v h e = cc
NoDash-lookup (x ∷ xs) name v (h, hs) e = elim (Bool-cases (x.0 == name)) [
  | inl same ↦ rw (← (eq_iff x.0 name).0 same) h
  | inr apart ↦ NoDash-lookup xs name v hs (rw apart at e)
]

hash_types-NoDash : All NoDash hash_types
unfolding has_char
hash_types-NoDash = (refl, (refl, (refl, (refl, (refl, (refl, tt))))))

module _ (l : Libraries) where
  abbrev of_first : List String → Result (ExpectedChecksum l)
  of_first [] = ok ("", none)
  of_first (value ∷ _) = parse_sri l value

  checksum_in-eq-of_first :
      (qs : List Qualifier) → checksum_in l unknown qs ≡ of_first (sri_values qs)
  unfolding checksum_in
  checksum_in-eq-of_first [] = refl
  checksum_in-eq-of_first (q ∷ qs) = elim (Bool-cases (q.name == "checksum.sri")) [
    | inl here ↦ rw here refl
    | inr later ↦ rw later (checksum_in-eq-of_first qs)
  ]

  parse_sri-sri :
      (hash_name : String) (v : DigestFunctionValue) (bs : List ℕ) (i : l.InstanceName)
      (f : l.Function)
      → lookup hash_name hash_types ≡ some v
      → All IsByte bs
      → l.new_instance_name "" ≡ ok i
      → l.get_digest_function i v (len (hex bs)) ≡ ok f
      → parse_sri l (sri hash_name bs) ≡ ok (hex bs, some f)
  unfolding parse_sri
  parse_sri-sri hash_name v bs i f known are_bytes is_name is_function =
      rw
        (split_first-append b'-' hash_name _ (base64 bs) refl
          (NoDash-lookup hash_types hash_name v hash_types-NoDash known))
        (rw (known, decode_base64-base64 bs are_bytes) (rw is_name (rw is_function refl)))

  -- The checksum of a request is the one that its first checksum.sri qualifier has, whatever
  -- others follow: where that names one of the six hashes and has the hash's bytes in base64, it
  -- is those bytes in hexadecimal, with the function for that hash and length.
  pub get_checksum_sri-sri :
      (qs : List Qualifier) (others : List String) (hash_name : String) (v : DigestFunctionValue)
      (bs : List ℕ) (i : l.InstanceName) (f : l.Function)
      → sri_values qs ≡ sri hash_name bs ∷ others
      → lookup hash_name hash_types ≡ some v
      → All IsByte bs
      → l.new_instance_name "" ≡ ok i
      → l.get_digest_function i v (len (hex bs)) ≡ ok f
      → get_checksum_sri l qs ≡ ok (hex bs, some f)
  unfolding get_checksum_sri
  get_checksum_sri-sri qs others hash_name v bs i f e known are_bytes is_name is_function =
      checksum_in-eq-of_first qs
      ∙ ap of_first e
      ∙ parse_sri-sri hash_name v bs i f known are_bytes is_name is_function
