-- ===== src/Push.antt =====
-- pkg/push: assets are pushed into a store, under the list of their URIs and under each of them.
pub mod Stored
pub mod Served
pub mod Metrics
use Prim.Native.String.{len}
use bb_remote_asset.Prelude.{
  ℕ, String, Bool, not, Option, none, some, List, [], ◌∷◌, ltb, if◌then◌else◌, length, is_nil,
  concat,
}
use bb_remote_asset.Prelude.Effect.{
  Code, ok, Status, Error, Result, status_error, Exec, pure, raise, lift, and_then, ◌>>=◌, ◌>>◌,
}
use bb_remote_asset.Time.{Timestamp, Clock}
use bb_remote_asset.Qualifier.{Qualifier}
use bb_remote_asset.Storage.Messages.{ProtoDigest, DigestFunctionValue, Asset}
use bb_remote_asset.Storage.Libraries.{Libraries}
use bb_remote_asset.Storage.Reference.{new_asset_reference}
use bb_remote_asset.Storage.Asset.{new_blob_asset, new_directory_asset}
use bb_remote_asset.Storage.Store.{AssetStore}
use bb_remote_asset.Storage.ActionCache.Value.{on_error}
use bb_remote_asset.Fetch.Utils.{invalid_instance_name}
use bb_remote_asset.Fetch.ErrorFetcher.{error_proto}

-- PushBlobRequest and PushDirectoryRequest; `digest` is the blob's or the root directory's.
pub record PushRequest : Type 0 where
  pub instance_name : String
  pub digest_function : DigestFunctionValue
  pub uris : List String
  pub qualifiers : List Qualifier
  pub expire_at : Option Timestamp
  pub digest : Option ProtoDigest

-- remoteasset.PushServer; the responses have no fields.
pub record PushServer (W : Type 0) : Type 0 where
  pub push_blob : PushRequest → Exec W (Unit {0})
  pub push_directory : PushRequest → Exec W (Unit {0})

-- len(sentDigest.GetHash()), in bytes
abbrev hash_length : Option ProtoDigest → ℕ
hash_length none = 0
hash_length (some d) = len d.hash

-- `getDigestFunction`
unfoldable pub get_digest_function :
    (l : Libraries) → DigestFunctionValue → String → Option ProtoDigest → Result l.Function
get_digest_function l digest_function instance_name sent_digest =
    and_then (on_error (invalid_instance_name l instance_name) (l.new_instance_name instance_name))
      λ instance_value.
        l.get_digest_function instance_value digest_function (hash_length sent_digest)

module _ (l : Libraries) {W : Type 0} (store : AssetStore l.Function W) (clock : Clock W) where
  abbrev pub made : (W → Asset × W) → Exec W Asset
  made make w = (ok (make w).0, (make w).1)

  -- The loop over the URIs
  unfoldable pub put_each :
      List String → List Qualifier → (W → Asset × W) → l.Function → Exec W (Unit {0})
  put_each [] qualifiers make f = pure tt
  put_each (uri ∷ uris) qualifiers make f = do
    a ← made make
    _ ← store.put (new_asset_reference (uri ∷ []) qualifiers) a f
    put_each uris qualifiers make f

  -- The puts of both methods. The first reference sorts the slices of the request, over which the
  -- loop then runs.
  unfoldable pub put_all :
      List String → List Qualifier → (W → Asset × W) → l.Function → Exec W (Unit {0})
  unfolding put_each
  put_all uris qualifiers make f =
      let ref = new_asset_reference uris qualifiers in
      made make >>= λ a. store.put ref a f >>= λ _.
      if ltb 1 (length uris) then put_each ref.uris ref.qualifiers make f else pure tt

  module _ (allow_updates : l.InstanceName → Bool) where
    abbrev no_uris : String → Error
    no_uris name =
        status_error Code.invalid_argument (concat (name ∷ " requires at least one URI" ∷ []))

    abbrev not_accepted : String → String → Error
    not_accepted kind name =
        status_error Code.permission_denied
          (concat ("This service does not accept " ∷ kind ∷ " for instance " ∷ l.quoted name ∷ []))

    -- `PushBlob`
    unfoldable pub push_blob : PushRequest → Exec W (Unit {0})
    unfolding put_all new_blob_asset get_digest_function
    push_blob req =
        if is_nil req.uris
        then raise (no_uris "PushBlob")
        else lift (get_digest_function l req.digest_function req.instance_name req.digest) >>= λ f.
            if not (allow_updates (l.get_instance_name f))
            then raise (not_accepted "Blobs" req.instance_name)
            else put_all req.uris req.qualifiers (new_blob_asset l clock req.digest req.expire_at) f

    -- `PushDirectory`
    unfoldable pub push_directory : PushRequest → Exec W (Unit {0})
    unfolding put_all new_directory_asset get_digest_function
    push_directory req =
        if is_nil req.uris
        then raise (no_uris "PushDirectory")
        else lift (get_digest_function l req.digest_function req.instance_name req.digest) >>= λ f.
            if not (allow_updates (l.get_instance_name f))
            then raise (not_accepted "Directories" req.instance_name)
            else put_all req.uris req.qualifiers
                (new_directory_asset l clock req.digest req.expire_at) f

    -- `NewAssetPushServer`
    unfoldable pub new_asset_push_server : PushServer W
    unfolding push_blob push_directory
    new_asset_push_server = record { push_blob = push_blob; push_directory = push_directory }

-- `NewErrorPushServer`
unfoldable pub new_error_push_server : {W : Type 0} → Status → PushServer W
new_error_push_server s = record {
  push_blob = λ req. lift (error_proto s);
  push_directory = λ req. lift (error_proto s);
}
