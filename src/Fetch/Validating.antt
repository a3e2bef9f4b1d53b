-- ===== src/Fetch/Validating.antt =====
-- pkg/fetch/validating_fetcher.go: requests without URIs and with unsupported qualifiers are
-- refused.
pub mod Laws
use bb_remote_asset.Prelude.{String, not, none, List, [], ◌∷◌, if◌then◌else◌, is_nil, concat}
use bb_remote_asset.Prelude.Effect.{
  Code, Status, FieldViolation, Error, Result, err, status_error, Exec, raise, lift, and_then,
}
use bb_remote_asset.Qualifier.Set.{NameSet, is_empty, qualifiers_to_set}
use bb_remote_asset.Storage.Libraries.{Libraries}
use bb_remote_asset.Fetch.Interface.{
  FetchRequest, FetchBlobResponse, FetchDirectoryResponse, Fetcher,
}

abbrev pub violations : List String → List FieldViolation
violations [] = []
violations (q ∷ qs) =
    record { field = "qualifiers.name"; description = concat ("\"" ∷ q ∷ "\" not supported" ∷ []) }
    ∷ violations qs

abbrev pub unsupported_status : Status
unsupported_status = record {
  code = Code.invalid_argument;
  message = "Unsupported Qualifier(s) found in request.";
  details = [];
}

-- The error that names the unsupported qualifiers.
abbrev unsupported_error : {A : Type 0} → Libraries → NameSet → Result A
unsupported_error l unsupported =
    and_then (l.with_details unsupported_status (violations unsupported.names))
      λ s. err none (Error.status s)

module _ (l : Libraries) {W : Type 0} (fetcher : Fetcher W) where
  -- `CheckQualifiers`
  unfoldable pub check_qualifiers : NameSet → NameSet
  check_qualifiers qualifiers = fetcher.check_qualifiers qualifiers

  -- What both methods check before they pass the request on by `forward`.
  validate : {A : Type 0} → String → FetchRequest → Exec W A → Exec W A
  unfolding check_qualifiers
  validate name req forward =
      if is_nil req.uris
      then raise (
          status_error Code.invalid_argument
            (concat (name ∷ " does not support requests without any URIs specified." ∷ [])))
      else let unsupported = check_qualifiers (qualifiers_to_set req.qualifiers) in
        if not (is_empty unsupported) then lift (unsupported_error l unsupported) else forward

  -- `FetchBlob`
  unfoldable pub fetch_blob : FetchRequest → Exec W FetchBlobResponse
  unfolding validate
  fetch_blob req = validate "FetchBlob" req (fetcher.fetch_blob req)

  -- `FetchDirectory`
  unfoldable pub fetch_directory : FetchRequest → Exec W FetchDirectoryResponse
  unfolding validate
  fetch_directory req = validate "FetchDirectory" req (fetcher.fetch_directory req)

  -- `NewValidatingFetcher`
  unfoldable pub new_validating_fetcher : Fetcher W
  unfolding fetch_blob fetch_directory
  new_validating_fetcher = record {
    fetch_blob = fetch_blob;
    fetch_directory = fetch_directory;
    check_qualifiers = check_qualifiers;
  }
