-- ===== src/Storage/Asset.antt =====
-- pkg/storage/asset.go: assets from request data, stamped with the time at which they are made.
use bb_remote_asset.Prelude.{Option, some}
use bb_remote_asset.Time.{unix_epoch, Timestamp, Clock}
use bb_remote_asset.Storage.Messages.{ProtoDigest, AssetType, blob, directory, Asset}
use bb_remote_asset.Storage.Libraries.{Libraries}

module _ (l : Libraries) {W : Type 0} (clock : Clock W) where
  open l use {new_timestamp}

  -- `NewAsset`; timestamppb.Now() reads the clock.
  unfoldable pub new_asset : Option ProtoDigest → AssetType → Option Timestamp → W → Asset × W
  new_asset digest asset_type expire_at w =
      let (t, w') = clock.now w in
      (
        record {
          digest = digest;
          expire_at = expire_at;
          last_updated = some (new_timestamp t);
          type = asset_type;
        },
        w',
      )

  -- `NewBlobAsset`
  unfoldable pub new_blob_asset : Option ProtoDigest → Option Timestamp → W → Asset × W
  unfolding new_asset
  new_blob_asset digest expire_at = new_asset digest blob expire_at

  -- `NewDirectoryAsset`
  unfoldable pub new_directory_asset : Option ProtoDigest → Option Timestamp → W → Asset × W
  unfolding new_asset
  new_directory_asset digest expire_at = new_asset digest directory expire_at

-- `getDefaultTimestamp`: the epoch, which stands for "never expires".
unfoldable pub get_default_timestamp : Libraries → Timestamp
get_default_timestamp l = l.new_timestamp unix_epoch
