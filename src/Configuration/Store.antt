-- ===== src/Configuration/Store.antt =====
-- pkg/configuration/new_asset_store.go: the asset store that a configuration stands for.
pub mod Refinement
use bb_remote_asset.Prelude.{ℕ, Option, none}
use bb_remote_asset.Prelude.Effect.{Code, ok, Result, err, status_error, and_then}
use bb_remote_asset.Qualifier.Translator.{Platform}
use bb_remote_asset.Storage.Libraries.{Libraries, BlobAccess, Authorizer}
use bb_remote_asset.Storage.Store.{AssetStore}
use bb_remote_asset.Storage.BlobStore.{new_blob_access_asset_store}
use bb_remote_asset.Storage.ActionCache.{new_action_cache_asset_store}
use bb_remote_asset.Storage.Authorizing.{new_authorizing_asset_store}

-- AssetCacheConfiguration.Backend; `unset` is a oneof that is not set.
pub data CacheBackend : Type 0 where
  blob_access action_cache unset : CacheBackend

-- AssetCacheConfiguration
pub record CacheConfiguration : Type 0 where
  pub backend : CacheBackend
  pub action_cache_platform : Option Platform

-- What NewBlobAccessFromConfiguration makes of the configuration of a backend.
pub record Backends (l : Libraries) (W : Type 0) : Type 0 where
  pub blob_access : Result (BlobAccess l.Digest l.Buffer W)
  pub action_cache : Result (BlobAccess l.Digest l.Buffer W)

module _ (l : Libraries) {W : Type 0} (backends : Backends l W)
    (content_addressable_storage : BlobAccess l.Digest l.Buffer W)
    (maximum_message_size_bytes stack : ℕ) where
  unfoldable pub new_base_store : CacheBackend → Option Platform → Result (AssetStore l.Function W)
  unfolding new_blob_access_asset_store new_action_cache_asset_store
  new_base_store blob_access platform =
      and_then backends.blob_access
        λ b. ok (new_blob_access_asset_store l b maximum_message_size_bytes)
  new_base_store action_cache platform = and_then backends.action_cache λ cache. ok (
      new_action_cache_asset_store l
        (record {
          action_cache = cache;
          content_addressable_storage = content_addressable_storage;
          maximum_message_size_bytes = maximum_message_size_bytes;
          platform = platform;
        })
        stack)
  new_base_store unset platform = err none (
      status_error Code.invalid_argument
        "Asset Cache configuration is invalid as no supported Asset Cache is defined.")

  -- `NewAssetStoreFromConfiguration`
  unfoldable pub new_asset_store_from_configuration :
      CacheConfiguration
      → Authorizer l.InstanceName W
      → Authorizer l.InstanceName W
      → Result (AssetStore l.Function W)
  unfolding new_base_store new_authorizing_asset_store
  new_asset_store_from_configuration configuration fetch_authorizer push_authorizer =
      and_then (new_base_store configuration.backend configuration.action_cache_platform)
        λ asset_store.
          ok (new_authorizing_asset_store l asset_store fetch_authorizer push_authorizer)
