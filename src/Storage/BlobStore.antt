-- ===== src/Storage/BlobStore.antt =====
-- pkg/storage/blob_access_asset_store.go: an asset store on a blob store of its own, keyed by the
-- digest of the serialised reference.
pub mod Refinement
use bb_remote_asset.Prelude.{ℕ}
use bb_remote_asset.Prelude.Effect.{Exec, lift, ◌>>=◌, ◌>>◌}
use bb_remote_asset.Storage.Messages.{AssetReference, Asset, reference, asset}
use bb_remote_asset.Storage.Libraries.{Libraries, BlobAccess}
use bb_remote_asset.Storage.Digest.{proto_serialise}
use bb_remote_asset.Storage.Store.{AssetStore}

module _ (l : Libraries) {W : Type 0} (blob_access : BlobAccess l.Digest l.Buffer W)
    (maximum_message_size_bytes : ℕ) where
  -- `Get`
  unfoldable pub get : AssetReference → l.Function → Exec W Asset
  get ref digest_function = do
    (_, ref_digest) ← lift (proto_serialise l (reference ref) digest_function)
    data_buffer ← blob_access.get ref_digest
    lift (l.to_asset data_buffer maximum_message_size_bytes)

  -- `Put`
  unfoldable pub put : AssetReference → Asset → l.Function → Exec W (Unit {0})
  put ref data_asset digest_function = do
    (_, ref_digest) ← lift (proto_serialise l (reference ref) digest_function)
    blob_access.put ref_digest (l.new_proto_buffer (asset data_asset))

  -- `NewBlobAccessAssetStore`
  unfoldable pub new_blob_access_asset_store : AssetStore l.Function W
  unfolding get put
  new_blob_access_asset_store = record { get = get; put = put }
