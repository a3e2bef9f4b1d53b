-- ===== src/Fetch/Logging.antt =====
-- pkg/fetch/logging_fetcher.go: requests and outcomes are logged.
use bb_remote_asset.Prelude.{String, ◌≡◌, refl, Option, none, some, List}
use bb_remote_asset.Prelude.Effect.{Code, ok, Status, Result, err, panic, convert, Exec}
use bb_remote_asset.Qualifier.{Qualifier}
use bb_remote_asset.Qualifier.Set.{NameSet}
use bb_remote_asset.Fetch.Interface.{
  FetchRequest, FetchBlobResponse, FetchDirectoryResponse, Fetcher,
}

-- A line of the log, with what is printed into its format.
pub data Line : Type 0 where
  fetching : String → List String → List Qualifier → Line
  completed : String → List String → Code → Line

-- status.GetCode(), which reads nil as OK, and status.Code(err)
abbrev get_code : Option Status → Code
get_code none = Code.ok
get_code (some s) = s.code

-- A wrapped fetcher may sort the URIs of the request in place. The two functions tell what a call
-- leaves in the slice, which the second line is printed from.
module _ {W : Type 0} (fetcher : Fetcher W) (printf : Line → W → W)
    (blob_uris directory_uris : FetchRequest → W → List String) where
  abbrev log_outcome :
      {A : Type 0} → List String → (A → Option Status) → Result A × W → Result A × W
  log_outcome uris status_of (ok resp, w) =
      (ok resp, printf (completed "FetchBlob" uris (get_code (status_of resp))) w)
  log_outcome uris status_of (err v e, w) =
      (err v e, printf (completed "FetchBlob" uris (convert e).code) w)
  log_outcome uris status_of (panic, w) = (panic, w)

  -- `FetchBlob`
  unfoldable pub fetch_blob : FetchRequest → Exec W FetchBlobResponse
  fetch_blob req w =
      let v = printf (fetching "Blob" req.uris req.qualifiers) w in
      log_outcome (blob_uris req v) (λ (r : FetchBlobResponse). r.status) (fetcher.fetch_blob req v)

  -- `FetchDirectory`, whose outcome is logged under the name of the other method
  unfoldable pub fetch_directory : FetchRequest → Exec W FetchDirectoryResponse
  fetch_directory req w =
      let v = printf (fetching "Directory" req.uris req.qualifiers) w in
      log_outcome (directory_uris req v) (λ (r : FetchDirectoryResponse). r.status)
        (fetcher.fetch_directory req v)

  -- `CheckQualifiers`
  unfoldable pub check_qualifiers : NameSet → NameSet
  check_qualifiers qualifiers = fetcher.check_qualifiers qualifiers

  -- `NewLoggingFetcher`
  unfoldable pub new_logging_fetcher : Fetcher W
  unfolding fetch_blob fetch_directory check_qualifiers
  new_logging_fetcher = record {
    fetch_blob = fetch_blob;
    fetch_directory = fetch_directory;
    check_qualifiers = check_qualifiers;
  }

  log_outcome-keeps :
      {A : Type 0} (uris : List String) (f : A → Option Status) (r : Result A × W)
      → (log_outcome uris f r).0 ≡ r.0
  log_outcome-keeps uris f (ok a, w) = refl
  log_outcome-keeps uris f (err v e, w) = refl
  log_outcome-keeps uris f (panic, w) = refl

  -- Logging hands on the outcome of the wrapped fetcher, called after the request is logged, as it
  -- is, the value beside an error included.
  pub new_logging_fetcher-keeps :
      (req : FetchRequest) (w : W)
      → ((new_logging_fetcher.fetch_blob req w).0
          ≡ (fetcher.fetch_blob req (printf (fetching "Blob" req.uris req.qualifiers) w)).0)
        × ((new_logging_fetcher.fetch_directory req w).0
            ≡ (fetcher.fetch_directory req
                (printf (fetching "Directory" req.uris req.qualifiers) w)).0)
  unfolding new_logging_fetcher fetch_blob fetch_directory
  new_logging_fetcher-keeps req w = (
    log_outcome-keeps _ (λ (r : FetchBlobResponse). r.status)
        (fetcher.fetch_blob req (printf (fetching "Blob" req.uris req.qualifiers) w)),
    log_outcome-keeps _ (λ (r : FetchDirectoryResponse). r.status)
        (fetcher.fetch_directory req (printf (fetching "Directory" req.uris req.qualifiers) w)),
  )
