-- ===== src/Configuration/Store/Refinement.antt =====
-- The configured asset store, over blobs, implements a map of assets.
use bb_remote_asset.Prelude.{ℕ, ◌≤◌, ◌≡◌, ap, ◌∙◌, subst, List, [], ◌∷◌}
use bb_remote_asset.Prelude.Effect.{ok, found}
use bb_remote_asset.Storage.Messages.{AssetReference, Asset, asset}
use bb_remote_asset.Storage.Libraries.{Libraries, BlobAccess, Authorizer}
use bb_remote_asset.Storage.Digest.{Serialises}
use bb_remote_asset.Storage.Store.{AssetStore, IsAssetMap}
use bb_remote_asset.Storage.Trace.{
  Operation, get, put, outcomes, expected, AllPuts, outcomes-expected-found,
}
use bb_remote_asset.Storage.BlobStore.{new_blob_access_asset_store}
use bb_remote_asset.Storage.BlobStore.Refinement.{
  IsBlobMap, ReadsAssets, new_blob_access_asset_store-IsAssetMap,
  new_blob_access_asset_store-IsStorable, new_blob_access_asset_store-view, put_returns,
}
use bb_remote_asset.Storage.Authorizing.{new_authorizing_asset_store}
use bb_remote_asset.Storage.Authorizing.Refinement.{
  LetsThrough, put-eq, new_authorizing_asset_store-IsAssetMap,
  new_authorizing_asset_store-IsStorable,
}
use bb_remote_asset.Configuration.Store.{
  blob_access, CacheConfiguration, Backends, new_base_store, new_asset_store_from_configuration,
}

module _ (l : Libraries) {W : Type 0} (b : BlobAccess l.Digest l.Buffer W) (size : ℕ)
    (f : l.Function) (s : Serialises l f) (m : IsBlobMap b) (r : ReadsAssets l f s size)
    (returns : (d : l.Digest) (x : l.Buffer) (w : W) → (b.put d x w).0 ≡ ok tt)
    (fetch_authorizer push_authorizer : Authorizer l.InstanceName W)
    (fetches : LetsThrough fetch_authorizer (l.get_instance_name f) m.view)
    (pushes : LetsThrough push_authorizer (l.get_instance_name f) m.view) where
  abbrev base : AssetStore l.Function W
  base = new_blob_access_asset_store l b size

  abbrev base_map : IsAssetMap base f
  base_map = new_blob_access_asset_store-IsAssetMap l b size f s m r

  lets_through :
      (a : Authorizer l.InstanceName W)
      → LetsThrough a (l.get_instance_name f) m.view
      → LetsThrough a (l.get_instance_name f) base_map.view
  lets_through a p = record {
    allows = p.allows;
    keeps = λ w. new_blob_access_asset_store-view l b size f s m r _ w (p.keeps w);
  }

  abbrev store : AssetStore l.Function W
  store = new_authorizing_asset_store l base fetch_authorizer push_authorizer

  abbrev map_of_assets : IsAssetMap store f
  map_of_assets =
      new_authorizing_asset_store-IsAssetMap l base fetch_authorizer push_authorizer f base_map
        (lets_through fetch_authorizer fetches) (lets_through push_authorizer pushes)

  store_returns : (ref : AssetReference) (a : Asset) (w : W) → (store.put ref a f w).0 ≡ ok tt
  store_returns ref a w =
      ap (λ p. p.0)
        (put-eq l base fetch_authorizer push_authorizer f base_map
          (lets_through fetch_authorizer fetches) (lets_through push_authorizer pushes) ref a w)
      ∙ put_returns l b size f s m r returns ref a _

  can_store :
      (ops : List Operation)
      → AllPuts (λ a. s.size_of (asset a) ≤ size) ops
      → AllPuts map_of_assets.IsStorable ops
  can_store [] fit = tt
  can_store (get ref ∷ rest) fit = can_store rest fit
  can_store (put ref a ∷ rest) (fits, fit) = (
    new_authorizing_asset_store-IsStorable l base fetch_authorizer push_authorizer f base_map
        (lets_through fetch_authorizer fetches) (lets_through push_authorizer pushes) a
        (new_blob_access_asset_store-IsStorable l b size f s m r a fits),
    can_store rest fit,
  )

  -- Over a blob store that is a map of blobs and takes every put, with authorizers that let the
  -- instance name through and leave it alone, the configured asset store runs every sequence of gets and puts, of
  -- assets that fit into a message, with the outcomes of a map from references to assets that
  -- starts as what gets find at the start.
  pub configured_store-outcomes :
      (backends : Backends l W) (content_addressable_storage : BlobAccess l.Digest l.Buffer W)
      (stack : ℕ) (configuration : CacheConfiguration) (made : AssetStore l.Function W)
      (ops : List Operation) (w : W)
      → configuration.backend ≡ blob_access
      → backends.blob_access ≡ ok b
      → new_asset_store_from_configuration l backends content_addressable_storage size stack
          configuration fetch_authorizer push_authorizer
        ≡ ok made
      → AllPuts (λ a. s.size_of (asset a) ≤ size) ops
      → outcomes made f ops w ≡ expected ops (λ ref. found (made.get ref f w).0)
  unfolding new_asset_store_from_configuration new_base_store
  configured_store-outcomes backends content_addressable_storage stack configuration made ops w
        is_blob_access has_blobs is_made fit =
      subst
        (λ (x : AssetStore l.Function W).
          outcomes x f ops w ≡ expected ops (λ ref. found (x.get ref f w).0))
        same (outcomes-expected-found store f map_of_assets store_returns ops w (can_store ops fit))
    where
      same : store ≡ made
      same = cc (rw (is_blob_access, has_blobs) at is_made)
