-- ===== src/Fetch/Metrics.antt =====
-- pkg/fetch/metrics_fetcher.go: the duration of each request and the size of each blob are
-- observed. Registering the metrics is left out; the sink knows the name that labels them.
use bb_remote_asset.Prelude.{
  String, ◌≡◌, refl, Bool, ◌&&◌, Option, none, some, List, [], ◌∷◌, ◌==◌, if◌then◌else◌, is_some,
}
use bb_remote_asset.Prelude.Int.{ℤ}
use bb_remote_asset.Prelude.Effect.{Code, ok, Status, Result, err, panic, convert, Exec}
use bb_remote_asset.Time.{Time, Clock}
use bb_remote_asset.Qualifier.{Qualifier}
use bb_remote_asset.Qualifier.Set.{NameSet}
use bb_remote_asset.Storage.Messages.{ProtoDigest}
use bb_remote_asset.Fetch.Interface.{
  FetchRequest, FetchBlobResponse, FetchDirectoryResponse, Fetcher,
}

-- What is observed: the operation, the code, the resource type and the two readings of the clock
-- whose difference is taken; or the resource type and a size in bytes.
pub data Metric : Type 0 where
  duration : String → Code → String → Time → Time → Metric
  blob_size : String → ℤ → Metric

-- The value of the first qualifier `resource_type`.
unfoldable pub resource_type : List Qualifier → String
resource_type [] = "N/A"
resource_type (q ∷ qs) = if q.name == "resource_type" then q.value else resource_type qs

module _ {W : Type 0} (fetcher : Fetcher W) (clock : Clock W) (observe : Metric → W → W) where
  -- `updateDurationSeconds`
  unfoldable pub update_duration_seconds : String → Code → Time → List Qualifier → W → W
  unfolding resource_type
  update_duration_seconds operation code start qualifiers w =
      let (now, v) = clock.now w in
      observe (duration operation code (resource_type qualifiers) start now) v

  -- `updateBlobSizeBytes`
  unfoldable pub update_blob_size_bytes : ℤ → List Qualifier → W → W
  unfolding resource_type
  update_blob_size_bytes size qualifiers w = observe (blob_size (resource_type qualifiers) size) w

  -- The rest of `FetchBlob` after a response with this status and digest. Both are dereferenced,
  -- and the duration is observed before the digest is.
  abbrev blob_outcome :
      FetchRequest
      → Time
      → FetchBlobResponse
      → Option Status
      → Option ProtoDigest
      → Exec W FetchBlobResponse
  blob_outcome req start resp none digest w = (panic, w)
  blob_outcome req start resp (some s) none w =
      (panic, update_duration_seconds "FetchBlob" s.code start req.qualifiers w)
  blob_outcome req start resp (some s) (some d) w = (
    ok resp,
    update_blob_size_bytes d.size_bytes req.qualifiers
        (update_duration_seconds "FetchBlob" s.code start req.qualifiers w),
  )

  abbrev directory_outcome :
      FetchRequest → Time → FetchDirectoryResponse → Option Status → Exec W FetchDirectoryResponse
  directory_outcome req start resp none w = (panic, w)
  directory_outcome req start resp (some s) w =
      (ok resp, update_duration_seconds "FetchDirectory" s.code start req.qualifiers w)

  abbrev measured :
      {A : Type 0} → String → FetchRequest → Time → (A → Exec W A) → Result A × W → Result A × W
  measured operation req start outcome (ok resp, w) = outcome resp w
  measured operation req start outcome (err _ e, w) =
      (err none e, update_duration_seconds operation (convert e).code start req.qualifiers w)
  measured operation req start outcome (panic, w) = (panic, w)

  -- `FetchBlob`
  unfoldable pub fetch_blob : FetchRequest → Exec W FetchBlobResponse
  unfolding update_duration_seconds update_blob_size_bytes
  fetch_blob req w =
      let (start, v) = clock.now w in
      measured "FetchBlob" req start
        (λ resp. blob_outcome req start resp resp.status resp.blob_digest)
        (fetcher.fetch_blob req v)

  -- `FetchDirectory`
  unfoldable pub fetch_directory : FetchRequest → Exec W FetchDirectoryResponse
  unfolding update_duration_seconds
  fetch_directory req w =
      let (start, v) = clock.now w in
      measured "FetchDirectory" req start (λ resp. directory_outcome req start resp resp.status)
        (fetcher.fetch_directory req v)

  -- `CheckQualifiers`
  unfoldable pub check_qualifiers : NameSet → NameSet
  check_qualifiers qualifiers = fetcher.check_qualifiers qualifiers

  -- `NewMetricsFetcher`
  unfoldable pub new_metrics_fetcher : Fetcher W
  unfolding fetch_blob fetch_directory check_qualifiers
  new_metrics_fetcher = record {
    fetch_blob = fetch_blob;
    fetch_directory = fetch_directory;
    check_qualifiers = check_qualifiers;
  }

  -- The world in which the wrapped fetcher is called.
  abbrev pub after_start : W → W
  after_start w = (clock.now w).1

  abbrev pub is_complete : FetchBlobResponse → Bool
  is_complete resp = is_some resp.status && is_some resp.blob_digest

  -- A response of the wrapped FetchBlob with a status and a digest is handed on; one that lacks
  -- either panics.
  pub new_metrics_fetcher-fetch_blob :
      (req : FetchRequest) (w v : W) (resp : FetchBlobResponse)
      → fetcher.fetch_blob req (after_start w) ≡ (ok resp, v)
      → (new_metrics_fetcher.fetch_blob req w).0 ≡ (if is_complete resp then ok resp else panic)
  unfolding new_metrics_fetcher
  new_metrics_fetcher-fetch_blob req w v resp h = rw h (go resp.status resp.blob_digest)
    where
      go :
          (s : Option Status) (d : Option ProtoDigest)
          → (blob_outcome req (clock.now w).0 resp s d v).0
            ≡ (if is_some s && is_some d then ok resp else panic)
      go none d = refl
      go (some s) none = refl
      go (some s) (some d) = refl
