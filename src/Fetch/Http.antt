-- ===== src/Fetch/Http.antt =====
-- pkg/fetch/http_fetcher.go: blobs are downloaded over HTTP and put into the CAS.
pub mod Checksum
pub mod Headers
pub mod Client
pub mod Download
pub mod Tidy
pub mod Verified
pub mod Answered
use bb_remote_asset.Prelude.{
  ℕ, String, not, ◌&&◌, Option, none, some, List, [], ◌∷◌, ◌==◌, if◌then◌else◌, concat,
}
use bb_remote_asset.Prelude.Effect.{
  Code, ok, Error, status, Result, err, panic, status_error, Exec, pure, raise, crash, lift, ◌>>=◌,
  ◌>>◌,
}
use bb_remote_asset.Storage.Libraries.{Libraries, BlobAccess}
use bb_remote_asset.Storage.ActionCache.Value.{change_error}
use bb_remote_asset.Fetch.Interface.{
  FetchRequest, FetchBlobResponse, FetchDirectoryResponse, Fetcher, ok_status,
}
use bb_remote_asset.Fetch.Utils.{get_digest_function}
use bb_remote_asset.Fetch.Supported.{http_check_qualifiers}
use Checksum.{ExpectedChecksum, get_checksum_sri}
use Headers.{AuthHeaders, get_auth_headers}
use Client.{Transfer, log_error}
use Download.{Downloaded, log_download, download_blob}

module _ (l : Libraries) {W : Type 0} (t : Transfer l W)
    (content_addressable_storage : BlobAccess l.Digest l.Buffer W) where
  abbrev pub mismatch : String → String → Error
  mismatch expected_digest checksum = status_error Code.internal (
      concat (
        "Fetched content did not match checksum.sri qualifier: Expected " ∷ expected_digest
        ∷ ", Got " ∷ checksum ∷ []))

  abbrev pub not_placed : Error → Error
  not_placed e = l.status_wrap_with_code e Code.internal "Failed to place blob into CAS"

  abbrev pub response : FetchRequest → String → l.Digest → FetchBlobResponse
  response req uri digest = record {
    status = some (ok_status "Blob fetched successfully!");
    uri = uri;
    qualifiers = req.qualifiers;
    blob_digest = some (l.get_proto digest);
  }

  -- The put of a blob; what fails is logged.
  unfoldable pub place : String → Downloaded l t → Exec W (Unit {0})
  place uri d = change_error not_placed (λ w.
      log_error (λ e. log_download l t uri (l.error_text e))
        (content_addressable_storage.put d.digest d.buffer w))

  -- A blob that was downloaded is compared with the checksum, if there is one, and stored.
  unfoldable pub keep :
      FetchRequest → ExpectedChecksum l → String → Downloaded l t → Exec W FetchBlobResponse
  unfolding place
  keep req checksum uri d =
      if not (checksum.0 == "") && not (d.checksum == checksum.0)
      then (λ w. (err none (mismatch checksum.0 d.checksum), t.discard d.buffer w))
      else place uri d >>= λ _. pure (response req uri d.digest)

  -- The size of the buffer of a failed download is an error, after which the next URI is tried.
  abbrev pub on_size :
      Result ℕ
      → Exec W FetchBlobResponse
      → (Error → Exec W FetchBlobResponse)
      → Exec W FetchBlobResponse
  on_size (ok _) kept next = kept
  on_size (err _ e) kept next = next e
  on_size panic kept next = crash

  abbrev pub no_uri : Option Error → Exec W FetchBlobResponse
  no_uri none =
      lift (t.wrap_no_error Code.not_found "Unable to download blob from any provided URI") >>= λ e.
      raise e
  no_uri (some e) =
      raise
        (l.status_wrap_with_code e Code.not_found "Unable to download blob from any provided URI")

  -- The loop over the URIs, with the error of the last one.
  unfoldable pub try_uris :
      FetchRequest
      → l.Function
      → ExpectedChecksum l
      → AuthHeaders
      → List String
      → Option Error
      → Exec W FetchBlobResponse
  unfolding keep download_blob
  try_uris req digest_function checksum auth [] last = no_uri last
  try_uris req digest_function checksum auth (uri ∷ uris) last =
      download_blob l t uri digest_function checksum auth >>= λ d.
      on_size (l.get_size_bytes d.buffer) (keep req checksum uri d) λ e w.
        try_uris req digest_function checksum auth uris (some e)
          (log_download l t uri (l.error_text e) w)

  -- `FetchBlob`
  unfoldable pub fetch_blob : FetchRequest → Exec W FetchBlobResponse
  unfolding try_uris get_digest_function get_checksum_sri get_auth_headers
  fetch_blob req = do
    digest_function ← lift (get_digest_function l req.digest_function req.instance_name)
    checksum ← lift (get_checksum_sri l req.qualifiers)
    auth ← lift (get_auth_headers l t.unmarshal t.range req.uris req.qualifiers)
    try_uris req digest_function checksum auth req.uris none

  -- `FetchDirectory`
  unfoldable pub fetch_directory : FetchRequest → Exec W FetchDirectoryResponse
  fetch_directory req =
      raise (status_error Code.permission_denied "HTTP Fetching of directories is not supported!")

  -- `NewHTTPFetcher`
  unfoldable pub new_http_fetcher : Fetcher W
  unfolding fetch_blob fetch_directory http_check_qualifiers
  new_http_fetcher = record {
    fetch_blob = fetch_blob;
    fetch_directory = fetch_directory;
    check_qualifiers = http_check_qualifiers;
  }
