-- ===== src/Storage/ActionCache.antt =====
-- pkg/storage/action_cache_asset_store.go: an asset store on an action cache. A reference becomes
-- an action, an asset an action result.
pub mod Key
pub mod Value
pub mod RoundTrip
pub mod Integrity
use bb_remote_asset.Prelude.{ℕ, Option, List, [], ◌∷◌}
use bb_remote_asset.Prelude.Effect.{ok, Error, Result, err, panic, Exec, pure, lift, ◌>>=◌, ◌>>◌}
use bb_remote_asset.Qualifier.Translator.{Platform}
use bb_remote_asset.Storage.Messages.{
  AssetReference, Asset, ActionResult, Message, action, action_result,
}
use bb_remote_asset.Storage.Libraries.{Libraries, BlobAccess}
use bb_remote_asset.Storage.Digest.{proto_serialise}
use bb_remote_asset.Storage.Store.{AssetStore}
use Key.{asset_reference_to_action}
use Value.{action_result_to_asset, asset_to_action_result, change_error}

-- The digest that `Get` goes on with: it does not look at the error of the serialisation, so
-- after one it holds the zero digest.
abbrev digest_or_zero : (l : Libraries) → Result (l.Buffer × l.Digest) → Result l.Digest
digest_or_zero l (ok (_, digest)) = ok digest
digest_or_zero l (err _ _) = ok l.zero_digest
digest_or_zero l panic = panic

-- `actionCacheAssetStore`
pub record ActionCacheAssetStore (l : Libraries) (W : Type 0) : Type 0 where
  pub action_cache : BlobAccess l.Digest l.Buffer W
  pub content_addressable_storage : BlobAccess l.Digest l.Buffer W
  pub maximum_message_size_bytes : ℕ
  pub platform : Option Platform

abbrev lookup_error : Libraries → Error → Error
lookup_error l e = l.status_wrap e "could not get action from action cache"

-- The action result under a digest.
get_result :
    (l : Libraries) {W : Type 0} → ActionCacheAssetStore l W → l.Digest → Exec W ActionResult
get_result l rs digest =
    change_error (lookup_error l)
      (do b ← rs.action_cache.get digest; lift (l.to_action_result b rs.maximum_message_size_bytes))

module _ (l : Libraries) {W : Type 0} (rs : ActionCacheAssetStore l W) (stack : ℕ) where
  -- `Get`
  unfoldable pub get : AssetReference → l.Function → Exec W Asset
  unfolding get_result
  get ref f = do
    (a, _) ← lift (asset_reference_to_action l rs.platform ref f)
    digest ← lift (digest_or_zero l (proto_serialise l (action a) f))
    result ← get_result l rs digest
    lift (action_result_to_asset l result)

  -- The loop of `Put` over the messages that the action refers to.
  unfoldable pub put_objects : List Message → l.Function → Exec W (Unit {0})
  put_objects [] f = pure tt
  put_objects (obj ∷ objs) f = do
    (buf, digest) ← lift (proto_serialise l obj f)
    _ ← rs.content_addressable_storage.put digest buf
    put_objects objs f

  -- `Put`
  unfoldable pub put : AssetReference → Asset → l.Function → Exec W (Unit {0})
  unfolding put_objects
  put ref data_asset f = do
    (a, extra_objs) ← lift (asset_reference_to_action l rs.platform ref f)
    (action_pb, action_digest) ← lift (proto_serialise l (action a) f)
    _ ← rs.content_addressable_storage.put action_digest action_pb
    _ ← put_objects extra_objs f
    result ←
        asset_to_action_result l rs.content_addressable_storage rs.maximum_message_size_bytes f
          stack data_asset
    rs.action_cache.put action_digest (l.new_proto_buffer (action_result result))

  -- `NewActionCacheAssetStore`
  unfoldable pub new_action_cache_asset_store : AssetStore l.Function W
  unfolding get put
  new_action_cache_asset_store = record { get = get; put = put }
