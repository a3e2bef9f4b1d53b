-- ===== src/Storage/ActionCache/RoundTrip.antt =====
-- What is put into the action cache under a reference is got back under it.
use bb_remote_asset.Prelude.{ℕ, ◌≤◌, ◌≡◌, sym, ap, ◌∙◌, false, some, List}
use bb_remote_asset.Prelude.Effect.{
  ok, Result, lift, bind_step, Ensures, Ensures-bind, Ensures-lift,
}
use bb_remote_asset.Storage.Messages.{
  AssetReference, Asset, Action, ActionResult, Message, action, action_result,
}
use bb_remote_asset.Storage.Libraries.{Libraries}
use bb_remote_asset.Storage.Digest.{proto_serialise, Serialises, digest_of, proto_serialise-eq}
use bb_remote_asset.Storage.BlobStore.Refinement.{IsBlobMap}
use bb_remote_asset.Storage.ActionCache.Key.{asset_reference_to_action}
use bb_remote_asset.Storage.ActionCache.Value.Laws.{
  forget_expiry, action_result_to_asset-asset_to_action_result,
}
use bb_remote_asset.Storage.ActionCache.Value.{on_error, is_missing, asset_to_action_result}
use bb_remote_asset.Storage.ActionCache.{
  ActionCacheAssetStore, get, put, digest_or_zero, lookup_error, get_result,
}

-- What the buffers document: an action result of at most `size` bytes is read back.
pub record ReadsResults (l : Libraries) (f : l.Function) (s : Serialises l f) (size : ℕ)
    : Type 0 where
  pub read_back :
      (r : ActionResult)
      → s.size_of (action_result r) ≤ size
      → l.to_action_result (l.new_proto_buffer (action_result r)) size ≡ ok r

module _ (l : Libraries) {W : Type 0} (rs : ActionCacheAssetStore l W) (stack : ℕ) (f : l.Function)
    (s : Serialises l f) (cache : IsBlobMap rs.action_cache)
    (reads : ReadsResults l f s rs.maximum_message_size_bytes) where
  -- Every action result that is made of the asset fits into a message.
  abbrev pub Fits : Asset → Type 0
  Fits a =
      (r : ActionResult) (w v : W)
      → asset_to_action_result l rs.content_addressable_storage rs.maximum_message_size_bytes f
          stack a w
        ≡ (ok r, v)
      → s.size_of (action_result r) ≤ rs.maximum_message_size_bytes

  -- What a put that returns leaves in the action cache.
  record Stored (ref : AssetReference) (a : Asset) (v : W) : Type 0 where
    key : Action
    objects : List Message
    is_key : asset_reference_to_action l rs.platform ref f ≡ ok (key, objects)
    result : ActionResult
    before_result : W
    after_result : W
    is_result :
        asset_to_action_result l rs.content_addressable_storage rs.maximum_message_size_bytes f
          stack a before_result
        ≡ (ok result, after_result)
    is_stored :
        cache.view v (digest_of l f s (action key))
        ≡ some (l.new_proto_buffer (action_result result))

  put-Stored :
      (ref : AssetReference) (a : Asset) (w : W)
      → Ensures w (put l rs stack ref a f) (λ _ v. Stored ref a v)
  unfolding put
  put-Stored ref a w = Ensures-lift _ _ λ (key, objects) is_key.
      Ensures-lift _ _ λ (pb, digest) is_digest. Ensures-bind _ _ λ _ w₁ _.
        Ensures-bind _ _ λ _ w₂ _. Ensures-bind _ _ λ r w₃ is_result. record {
          at = λ _ v h.
              let right : digest ≡ digest_of l f s (action key) =
                cc (proto_serialise-eq l f s (action key)) in
              record {
                key = key;
                objects = objects;
                is_key = is_key;
                result = r;
                before_result = w₂;
                after_result = w₃;
                is_result = is_result;
                is_stored = rw (← right) (
                    ap (λ (x : Result (Unit {0}) × W). cache.view x.1 digest) (sym h)
                    ∙ cache.put_stores digest (l.new_proto_buffer (action_result r)) w₃
                        (ap (λ (x : Result (Unit {0}) × W). x.0) h));
              };
        }

  -- The world after the action cache has been read for a key.
  abbrev after_read : l.Digest → W → W
  after_read d v = (rs.action_cache.get d v).1

  read_result :
      (d : l.Digest) (r : ActionResult) (v : W)
      → cache.view v d ≡ some (l.new_proto_buffer (action_result r))
      → s.size_of (action_result r) ≤ rs.maximum_message_size_bytes
      → get_result l rs d v ≡ (ok r, after_read d v)
  unfolding get_result
  read_result d r v there fits =
      ap (λ (x : Result ActionResult × W). (on_error (lookup_error l) x.0, x.1))
        (bind_step (rs.action_cache.get d) _ (cache.get_hit d v _ there)
          ∙ ap (λ x. (x, after_read d v)) (reads.read_back r fits))

  get_of_Stored :
      (ref : AssetReference) (a : Asset) (v : W)
      → Stored ref a v
      → Fits a
      → is_missing a.digest ≡ false
      → (get l rs stack ref f v).0 ≡ ok (forget_expiry l a)
  unfolding get
  get_of_Stored ref a v x fits there =
      let read =
        read_result (digest_of l f s (action x.key)) x.result v x.is_stored
          (fits x.result x.before_result x.after_result x.is_result) in
      let back =
        action_result_to_asset-asset_to_action_result l rs.content_addressable_storage
          rs.maximum_message_size_bytes f stack a x.result x.before_result x.after_result there
          x.is_result in
      ap (λ (y : Result Asset × W). y.0)
        (bind_step (lift (asset_reference_to_action l rs.platform ref f)) _ x.is_key
          ∙ bind_step (lift (digest_or_zero l (proto_serialise l (action x.key) f))) _
              (ap (digest_or_zero l) (proto_serialise-eq l f s (action x.key)))
          ∙ bind_step (get_result l rs (digest_of l f s (action x.key))) _
              (ap (λ (y : Result ActionResult × W). y.0) read))
      ∙ back

  -- A put of an asset that has a digest, and whose action result fits into a message, stores the
  -- asset, if it returns no error, so that a get of its reference returns it, but for its expiry,
  -- which has become the default timestamp. The action cache is a map of blobs, and the action
  -- results in it can be read back.
  pub get-put_forgets_expiry :
      (ref : AssetReference) (a : Asset) (w : W)
      → is_missing a.digest ≡ false
      → Fits a
      → (put l rs stack ref a f w).0 ≡ ok tt
      → (get l rs stack ref f (put l rs stack ref a f w).1).0 ≡ ok (forget_expiry l a)
  get-put_forgets_expiry ref a w there fits h =
      get_of_Stored ref a _
        ((put-Stored ref a w).at tt _ (λ i. (h i, (put l rs stack ref a f w).1))) fits there
