-- ===== src/Fetch/Authorizing.antt =====
-- pkg/fetch/authorizing_fetcher.go: a request is let through by the authorizer for its instance
-- name.
pub mod Laws
use bb_remote_asset.Prelude.Effect.{Exec, lift, ◌>>=◌, ◌>>◌}
use bb_remote_asset.Storage.Libraries.{Libraries, Authorizer}
use bb_remote_asset.Fetch.Interface.{
  FetchRequest, FetchBlobResponse, FetchDirectoryResponse, Fetcher,
}

module _ (l : Libraries) {W : Type 0} (fetcher : Fetcher W)
    (authorizer : Authorizer l.InstanceName W) where
  -- `FetchBlob`
  unfoldable pub fetch_blob : FetchRequest → Exec W FetchBlobResponse
  fetch_blob req = do
    instance_name ← lift (l.new_instance_name req.instance_name)
    _ ← authorizer.authorize instance_name
    fetcher.fetch_blob req

  -- `FetchDirectory`
  unfoldable pub fetch_directory : FetchRequest → Exec W FetchDirectoryResponse
  fetch_directory req = do
    instance_name ← lift (l.new_instance_name req.instance_name)
    _ ← authorizer.authorize instance_name
    fetcher.fetch_directory req

  -- `NewAuthorizingFetcher`; the check of qualifiers is the wrapped fetcher's.
  unfoldable pub new_authorizing_fetcher : Fetcher W
  unfolding fetch_blob fetch_directory
  new_authorizing_fetcher = record {
    fetch_blob = fetch_blob;
    fetch_directory = fetch_directory;
    check_qualifiers = fetcher.check_qualifiers;
  }
