-- ===== src/Storage/Authorizing/Refinement.antt =====
-- The authorizing store is a map of assets, where both authorizers let the instance name through.
use bb_remote_asset.Prelude.{◌≡◌, ap, ◌∙◌}
use bb_remote_asset.Prelude.Effect.{ok, bind_step}
use bb_remote_asset.Storage.Messages.{AssetReference, Asset}
use bb_remote_asset.Storage.Libraries.{Libraries, Authorizer}
use bb_remote_asset.Storage.Store.{AssetStore, IsAssetMap}
use bb_remote_asset.Storage.Authorizing.{new_authorizing_asset_store}

-- The authorizer lets the name through, and leaves alone what `view` shows.
pub record LetsThrough {InstanceName W V : Type 0} (a : Authorizer InstanceName W)
    (i : InstanceName) (view : W → V) : Type 0 where
  pub allows : (w : W) → (a.authorize i w).0 ≡ ok tt
  pub keeps : (w : W) → view (a.authorize i w).1 ≡ view w

module _ (l : Libraries) {W : Type 0} (s : AssetStore l.Function W)
    (fetch_authorizer push_authorizer : Authorizer l.InstanceName W) (f : l.Function)
    (c : IsAssetMap s f) (fetches : LetsThrough fetch_authorizer (l.get_instance_name f) c.view)
    (pushes : LetsThrough push_authorizer (l.get_instance_name f) c.view) where
  abbrev authorized : AssetStore l.Function W
  authorized = new_authorizing_asset_store l s fetch_authorizer push_authorizer

  abbrev after_fetch : W → W
  after_fetch w = (fetch_authorizer.authorize (l.get_instance_name f) w).1

  abbrev after_push : W → W
  after_push w = (push_authorizer.authorize (l.get_instance_name f) w).1

  get-eq : (r : AssetReference) (w : W) → authorized.get r f w ≡ s.get r f (after_fetch w)
  unfolding new_authorizing_asset_store
  get-eq r w = bind_step (fetch_authorizer.authorize (l.get_instance_name f)) _ (fetches.allows w)

  pub put-eq :
      (r : AssetReference) (a : Asset) (w : W) → authorized.put r a f w ≡ s.put r a f (after_push w)
  unfolding new_authorizing_asset_store
  put-eq r a w = bind_step (push_authorizer.authorize (l.get_instance_name f)) _ (pushes.allows w)

  same_view : (r : AssetReference) {v w : W} → c.view v ≡ c.view w → c.view v r ≡ c.view w r
  same_view r e = ap (λ m. m r) e

  -- The map of the wrapped store.
  unfoldable pub new_authorizing_asset_store-IsAssetMap : IsAssetMap authorized f
  unfolding get-eq put-eq same_view
  new_authorizing_asset_store-IsAssetMap = record {
    view = c.view;
    IsStorable = c.IsStorable;
    get_hit =
        λ r w a e. ap (λ p. p.0) (get-eq r w) ∙ c.get_hit r _ a (same_view r (fetches.keeps w) ∙ e);
    get_miss = λ r w e.
        let (x, p) = c.get_miss r (after_fetch w) (same_view r (fetches.keeps w) ∙ e) in
        (x, ap (λ p. p.0) (get-eq r w) ∙ p);
    get_keeps = λ r q w.
        ap (λ p. c.view p.1 q) (get-eq r w) ∙ c.get_keeps r q _ ∙ same_view q (fetches.keeps w);
    put_stores = λ r a w can stored.
        rw (put-eq r a w) (c.put_stores r a _ can (rw (put-eq r a w) at stored));
    put_keeps = λ r q a w apart.
        ap (λ p. c.view p.1 q) (put-eq r a w)
        ∙ c.put_keeps r q a _ apart
        ∙ same_view q (pushes.keeps w);
  }

  -- It can store what the wrapped store can.
  pub new_authorizing_asset_store-IsStorable :
      (a : Asset) → c.IsStorable a → new_authorizing_asset_store-IsAssetMap.IsStorable a
  unfolding new_authorizing_asset_store-IsAssetMap
  new_authorizing_asset_store-IsStorable a can = can
