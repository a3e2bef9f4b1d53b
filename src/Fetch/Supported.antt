-- ===== src/Fetch/Supported.antt =====
-- `CheckQualifiers` of the fetchers that do the work: pkg/fetch/http_fetcher.go and
-- pkg/fetch/remote_execution_fetcher.go. It returns the names that they do not support.
use text.Mathlib.Text.{starts_with}
use bb_remote_asset.Prelude.{
  String, ◌≡◌, refl, ap, inl, inr, Bool, true, ◌&&◌, ◌||◌, List, [], ◌∷◌, arith, ◌==◌, eq_iff,
  if◌then◌else◌, Bool-cases, any,
}
use bb_remote_asset.Qualifier.{Qualifier}
use bb_remote_asset.Qualifier.Translator.{qualifiers_to_command}
use bb_remote_asset.Qualifier.Translator.Laws.{last_value, read_names, qualifiers_to_command-cong}
use bb_remote_asset.Qualifier.Set.{NameSet, contains, add, new_set, difference}
use bb_remote_asset.Qualifier.Set.Laws.{
  contains-add, contains-any, contains-new_set-any, contains-difference,
}
use bb_remote_asset.Fetch.Validating.Laws.{ReportsUnsupported}

abbrev http_names : List String
http_names = "checksum.sri" ∷ "bazel.auth_headers" ∷ "bazel.canonical_id" ∷ []

abbrev is_header : String → Bool
is_header name = starts_with name "http_header:" || starts_with name "http_header_url:"

-- The loop over the names, which adds those of headers to `to_remove`.
add_headers : NameSet → List String → NameSet
add_headers to_remove [] = to_remove
add_headers to_remove (name ∷ names) =
    add_headers (if is_header name then add to_remove name else to_remove) names

-- `CheckQualifiers` of the HTTP fetcher
unfoldable pub http_check_qualifiers : NameSet → NameSet
unfolding add_headers
http_check_qualifiers qualifiers =
    difference qualifiers (add_headers (new_set http_names) qualifiers.names)

abbrev execution_names : List String
execution_names =
    "resource_type" ∷ "vcs.branch" ∷ "vcs.commit" ∷ "auth.basic.username" ∷ "auth.basic.password"
    ∷ "checksum.sri" ∷ []

-- `CheckQualifiers` of the remote execution fetcher
unfoldable pub execution_check_qualifiers : NameSet → NameSet
execution_check_qualifiers qualifiers = difference qualifiers (new_set execution_names)

-- The checksum, the two names that Bazel uses, and those of the headers for all URIs and for one of
-- them.
abbrev pub is_http_name : String → Bool
is_http_name name =
    starts_with name "http_header_url:"
    || starts_with name "http_header:"
    || "bazel.canonical_id" == name
    || "bazel.auth_headers" == name
    || "checksum.sri" == name

-- The names that the generation of a command reads.
abbrev pub is_execution_name : String → Bool
is_execution_name name = any (λ n. n == name) read_names

header_cong : (n k : String) → n ≡ k → is_header n ≡ is_header k
header_cong n k e = ap is_header e

contains-add_headers :
    (s : NameSet) (ns : List String) (k : String)
    → contains (add_headers s ns) k ≡ (any (λ n. n == k) ns && is_header k || contains s k)
unfolding add_headers
contains-add_headers s [] k = refl
contains-add_headers s (n ∷ ns) k = elim (Bool-cases (is_header n)) [
  | inl h ↦ rw h (
      ground (
        arith,
        h,
        contains-add_headers (add s n) ns k,
        contains-add s n k,
        eq_iff n k,
        header_cong n k,
      ))
  | inr h ↦ rw h (ground (arith, h, contains-add_headers s ns k, eq_iff n k, header_cong n k))
]

-- The HTTP fetcher reports, of the names that it is given, those that are none of `checksum.sri`,
-- `bazel.auth_headers` and `bazel.canonical_id`, and begin neither with `http_header:` nor with
-- `http_header_url:`.
pub http_check_qualifiers-ReportsUnsupported : ReportsUnsupported http_check_qualifiers is_http_name
unfolding http_check_qualifiers
http_check_qualifiers-ReportsUnsupported = record {
  contains-check = λ s k. ground (
    arith,
    contains-difference s (add_headers (new_set http_names) s.names) k,
    contains-add_headers (new_set http_names) s.names k,
    contains-new_set-any http_names k,
    contains-any s k,
  );
}

-- The qualifiers of the supported names, in their order.
unfoldable pub supported_qualifiers : List Qualifier → List Qualifier
supported_qualifiers [] = []
supported_qualifiers (q ∷ qs) =
    let rest = supported_qualifiers qs in if is_execution_name q.name then q ∷ rest else rest

last_value-supported_qualifiers :
    (k : String) (qs : List Qualifier)
    → is_execution_name k ≡ true
    → last_value k (supported_qualifiers qs) ≡ last_value k qs
unfolding last_value supported_qualifiers
last_value-supported_qualifiers k [] h = refl
last_value-supported_qualifiers k (q ∷ qs) h =
    let ih = last_value-supported_qualifiers k qs h in
    elim (Bool-cases (is_execution_name q.name)) [
      | inl e ↦ rw (e, ih) refl
      | inr e ↦ rw (e, ih) (ground (arith, h, e, eq_iff q.name k))
    ]

execution_check_qualifiers_lem : ReportsUnsupported execution_check_qualifiers is_execution_name
unfolding execution_check_qualifiers
execution_check_qualifiers_lem = record {
  contains-check = λ s k. ground (
    arith,
    contains-difference s (new_set execution_names) k,
    contains-new_set-any execution_names k,
  );
}

-- The remote execution fetcher reports, of the names that it is given, those that are not one of
-- six, and the qualifiers of these six generate the command that all qualifiers generate: none that
-- is reported has a part in it.
pub execution_check_qualifiers-ReportsUnsupported :
    ReportsUnsupported execution_check_qualifiers is_execution_name
    × ((qs : List Qualifier)
        → qualifiers_to_command (supported_qualifiers qs) ≡ qualifiers_to_command qs)
execution_check_qualifiers-ReportsUnsupported = (
  execution_check_qualifiers_lem,
  λ qs. qualifiers_to_command-cong (supported_qualifiers qs) qs (
    last_value-supported_qualifiers "resource_type" qs refl,
    (
      last_value-supported_qualifiers "vcs.branch" qs refl,
      (
        last_value-supported_qualifiers "vcs.commit" qs refl,
        (
          last_value-supported_qualifiers "auth.basic.username" qs refl,
          (
            last_value-supported_qualifiers "auth.basic.password" qs refl,
            (last_value-supported_qualifiers "checksum.sri" qs refl, tt),
          ),
        ),
      ),
    ),
  ),
)
