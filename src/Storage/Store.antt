-- ===== src/Storage/Store.antt =====
-- pkg/storage/asset_store.go: the interface of an asset store, and what a client may expect of
-- one.
use bb_remote_asset.Prelude.{◌≡◌, ◌≢◌, inl, inr, Option, none, some, Option-cases}
use bb_remote_asset.Prelude.Effect.{ok, Error, err, Exec, found}
use bb_remote_asset.Storage.Messages.{AssetReference, Asset}

-- `AssetStore`, over the type of digest functions.
pub record AssetStore (Function W : Type 0) : Type 0 where
  pub get : AssetReference → Function → Exec W Asset
  pub put : AssetReference → Asset → Function → Exec W (Unit {0})

-- The contract: for one digest function a store is a map from references to assets. `view` is
-- the map in a world, and `IsStorable` the assets that the store can give back. A put that
-- returns an error may have stored the asset or not.
pub record IsAssetMap {Function W : Type 0} (s : AssetStore Function W) (f : Function)
    : Type 1 where
  pub view : W → AssetReference → Option Asset
  pub IsStorable : Asset → Type 0
  pub get_hit :
      (r : AssetReference) (w : W) (a : Asset) → view w r ≡ some a → (s.get r f w).0 ≡ ok a
  pub get_miss :
      (r : AssetReference) (w : W) → view w r ≡ none → (e : Error) × ((s.get r f w).0 ≡ err none e)
  pub get_keeps : (r q : AssetReference) (w : W) → view (s.get r f w).1 q ≡ view w q
  pub put_stores :
      (r : AssetReference) (a : Asset) (w : W)
      → IsStorable a
      → (s.put r a f w).0 ≡ ok tt
      → view (s.put r a f w).1 r ≡ some a
  pub put_keeps :
      (r q : AssetReference) (a : Asset) (w : W) → r ≢ q → view (s.put r a f w).1 q ≡ view w q

module _ {Function W : Type 0} {s : AssetStore Function W} {f : Function} (c : IsAssetMap s f) where
  -- A get finds what the map holds.
  pub found-get : (r : AssetReference) (w : W) → found (s.get r f w).0 ≡ c.view w r
  found-get r w = elim (Option-cases (c.view w r)) [
    | inl n ↦ let (e, p) = c.get_miss r w n in rw (p, n)
    | inr (a, e) ↦ rw (c.get_hit r w a e, e)
  ]
