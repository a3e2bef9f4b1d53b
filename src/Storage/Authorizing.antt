-- ===== src/Storage/Authorizing.antt =====
-- pkg/storage/authorizing_asset_store.go: gets and puts are let through by one authorizer each.
pub mod Refinement
use bb_remote_asset.Prelude.{◌≡◌, refl, none}
use bb_remote_asset.Prelude.Effect.{ok, Error, Result, err, panic, Exec, continue, ◌>>=◌}
use bb_remote_asset.Storage.Messages.{AssetReference, Asset}
use bb_remote_asset.Storage.Libraries.{Libraries, Authorizer}
use bb_remote_asset.Storage.Store.{AssetStore}

pub record AuthorizingAssetStore (l : Libraries) (W : Type 0) : Type 0 where
  pub asset_store : AssetStore l.Function W
  pub fetch_authorizer : Authorizer l.InstanceName W
  pub push_authorizer : Authorizer l.InstanceName W

module _ (l : Libraries) {W : Type 0} (aas : AuthorizingAssetStore l W) where
  -- `Get`
  unfoldable pub get : AssetReference → l.Function → Exec W Asset
  get ref digest_function = do
    _ ← aas.fetch_authorizer.authorize (l.get_instance_name digest_function)
    aas.asset_store.get ref digest_function

  -- `Put`
  unfoldable pub put : AssetReference → Asset → l.Function → Exec W (Unit {0})
  put ref data_asset digest_function = do
    _ ← aas.push_authorizer.authorize (l.get_instance_name digest_function)
    aas.asset_store.put ref data_asset digest_function

-- `NewAuthorizingAssetStore`
unfoldable pub new_authorizing_asset_store :
    (l : Libraries) {W : Type 0}
    → AssetStore l.Function W
    → Authorizer l.InstanceName W
    → Authorizer l.InstanceName W
    → AssetStore l.Function W
unfolding get put
new_authorizing_asset_store l {W} s fetch_authorizer push_authorizer =
    let aas : AuthorizingAssetStore l W = record {
      asset_store = s;
      fetch_authorizer = fetch_authorizer;
      push_authorizer = push_authorizer;
    } in
    record { get = get l aas; put = put l aas }

module _ (l : Libraries) {W : Type 0} (s : AssetStore l.Function W)
    (fetch_authorizer push_authorizer : Authorizer l.InstanceName W) (f : l.Function) where
  abbrev authorized : AssetStore l.Function W
  authorized = new_authorizing_asset_store l s fetch_authorizer push_authorizer

  -- A get that returns an asset was let through by the fetch authorizer, and the asset is the one
  -- of the wrapped store.
  pub get_is_authorized :
      (ref : AssetReference) (a : Asset) (w : W)
      → (authorized.get ref f w).0 ≡ ok a
      → ((fetch_authorizer.authorize (l.get_instance_name f) w).0 ≡ ok tt)
        × ((s.get ref f (fetch_authorizer.authorize (l.get_instance_name f) w).1).0 ≡ ok a)
  unfolding new_authorizing_asset_store ◌>>=◌
  get_is_authorized ref a w h = go _ h
    where
      go :
          (r : Result Unit × W)
          → (continue r (λ _. s.get ref f)).0 ≡ ok a
          → (r.0 ≡ ok tt) × ((s.get ref f r.1).0 ≡ ok a)
      go (ok tt, v) e = (refl, e)
      go (err _ _, v) e = cc
      go (panic, v) e = cc

  -- A put that returns no error was let through by the push authorizer, and stored what it was
  -- given in the wrapped store.
  pub put_is_authorized :
      (ref : AssetReference) (a : Asset) (w : W)
      → (authorized.put ref a f w).0 ≡ ok tt
      → ((push_authorizer.authorize (l.get_instance_name f) w).0 ≡ ok tt)
        × ((s.put ref a f (push_authorizer.authorize (l.get_instance_name f) w).1).0 ≡ ok tt)
  unfolding new_authorizing_asset_store ◌>>=◌
  put_is_authorized ref a w h = go _ h
    where
      go :
          (r : Result Unit × W)
          → (continue r (λ _. s.put ref a f)).0 ≡ ok tt
          → (r.0 ≡ ok tt) × ((s.put ref a f r.1).0 ≡ ok tt)
      go (ok tt, v) e = (refl, e)
      go (err _ _, v) e = cc
      go (panic, v) e = cc

  -- What an authorizer refuses fails with its error, and the wrapped store is not called: the
  -- world is as the authorizer left it.
  pub refused_store_is_kept :
      (ref : AssetReference) (a : Asset) (w v : W) (e : Error)
      → fetch_authorizer.authorize (l.get_instance_name f) w ≡ (err none e, v)
      → push_authorizer.authorize (l.get_instance_name f) w ≡ (err none e, v)
      → (authorized.get ref f w ≡ (err none e, v)) × (authorized.put ref a f w ≡ (err none e, v))
  unfolding new_authorizing_asset_store ◌>>=◌
  refused_store_is_kept ref a w v e g p = (rw g, rw p)
