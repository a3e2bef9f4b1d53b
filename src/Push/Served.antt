-- ===== src/Push/Served.antt =====
-- pkg/push/push_server.go: what a push stores is served to fetches.
use mathlib.Core.List.{Perm}
use mathlib.Core.List.Perm
use bb_remote_asset.Prelude.{
  String, ◌≡◌, refl, ap, ◌∙◌, Bool, true, not, none, some, [], ◌∷◌, is_nil,
}
use bb_remote_asset.Prelude.Effect.{ok, Ensures, Ensures-step, Ensures-if, Ensures-raise}
use bb_remote_asset.Time.{Clock}
use bb_remote_asset.Storage.Messages.{AssetType, blob, directory, AssetReference, Asset}
use bb_remote_asset.Storage.Libraries.{Libraries}
use bb_remote_asset.Storage.Reference.{new_asset_reference, new_asset_reference-eq_iff}
use bb_remote_asset.Storage.Asset.{new_asset, new_blob_asset, new_directory_asset}
use bb_remote_asset.Storage.Store.{AssetStore, IsAssetMap}
use bb_remote_asset.Fetch.Interface.{FetchRequest, Fetcher, ok_status}
use bb_remote_asset.Fetch.Caching.{
  fetch_blob, fetch_directory, remove_volatile_qualifiers, is_expired,
}
use bb_remote_asset.Fetch.Caching.Kept.{AsksAgain, IsKept, serves_blob, serves_directory}
use bb_remote_asset.Push.{PushRequest, get_digest_function, put_all, push_blob, push_directory}
use bb_remote_asset.Push.Stored.{is_among, put_all_Ensures}

module _ (l : Libraries) {W : Type 0} (store : AssetStore l.Function W) (clock : Clock W)
    (allow_updates : l.InstanceName → Bool) (f : l.Function) (req : PushRequest)
    (same_function : get_digest_function l req.digest_function req.instance_name req.digest
      ≡ ok f) where
  module _ (c : IsAssetMap store f)
      (clock_keeps : (w : W) (r : AssetReference) → c.view (clock.now w).1 r ≡ c.view w r)
      (can_store : (a : Asset) → a.digest ≡ req.digest → c.IsStorable a) where
    -- The asset is what the request pushes, as an asset of this type.
    abbrev pub IsPushed : AssetType → Asset → Type 0
    IsPushed t a = (a.digest ≡ req.digest) × (a.expire_at ≡ req.expire_at) × (a.type ≡ t)

    abbrev pub HasPushed : AssetType → W → Type 0
    HasPushed t v =
        (uri : String)
        → is_among uri req.uris ≡ true
        → (a : Asset) × IsPushed t a
          × (c.view v (new_asset_reference (uri ∷ []) req.qualifiers) ≡ some a)

    blob_put_all :
        (w : W)
        → Ensures w
            (put_all l store clock req.uris req.qualifiers
              (new_blob_asset l clock req.digest req.expire_at)
              f)
            (λ _ v. HasPushed blob v)
    unfolding new_blob_asset new_asset
    blob_put_all w =
        put_all_Ensures l store clock f c (new_blob_asset l clock req.digest req.expire_at)
          (IsPushed blob) (λ u. (refl, refl, refl)) (λ a p. can_store a p.0) clock_keeps req.uris
          req.qualifiers w

    directory_put_all :
        (w : W)
        → Ensures w
            (put_all l store clock req.uris req.qualifiers
              (new_directory_asset l clock req.digest req.expire_at)
              f)
            (λ _ v. HasPushed directory v)
    unfolding new_directory_asset new_asset
    directory_put_all w =
        put_all_Ensures l store clock f c (new_directory_asset l clock req.digest req.expire_at)
          (IsPushed directory) (λ u. (refl, refl, refl)) (λ a p. can_store a p.0) clock_keeps
          req.uris req.qualifiers w

    pub push_blob_Ensures :
        (w : W) → Ensures w (push_blob l store clock allow_updates req) (λ _ v. HasPushed blob v)
    unfolding push_blob
    push_blob_Ensures w =
        Ensures-if (is_nil req.uris) _ _ (λ _. Ensures-raise _)
          (Ensures-step _ _ same_function (
            Ensures-if (not (allow_updates (l.get_instance_name f))) _ _ (λ _. Ensures-raise _)
              (blob_put_all w)))

    push_directory_Ensures :
        (w : W)
        → Ensures w (push_directory l store clock allow_updates req) (λ _ v. HasPushed directory v)
    unfolding push_directory
    push_directory_Ensures w =
        Ensures-if (is_nil req.uris) _ _ (λ _. Ensures-raise _)
          (Ensures-step _ _ same_function (
            Ensures-if (not (allow_updates (l.get_instance_name f))) _ _ (λ _. Ensures-raise _)
              (directory_put_all w)))

    pub kept :
        (t : AssetType) (v : W) (uri : String)
        → req.expire_at ≡ none
        → Perm (remove_volatile_qualifiers req.qualifiers) req.qualifiers
        → HasPushed t v
        → is_among uri req.uris ≡ true
        → IsKept l store clock f c v uri req.qualifiers req.digest
    unfolding is_expired
    kept t v uri never stable has p =
        let (a, (same, expiry, _), e) = has uri p in
        record {
          asset = a;
          same_digest = same;
          never_expires = λ now. rw (expiry ∙ never) refl;
          is_there =
              ap (c.view v) (
                (new_asset_reference-eq_iff (uri ∷ []) (uri ∷ []) _ _).1
                  (Perm.refl (uri ∷ []), stable))
              ∙ e;
        }

    -- The store is a map of assets for the digest function of the push, it can store assets of the
    -- digest that is pushed, and reading the clock leaves it alone. A blob that was pushed without
    -- an expiry and with no volatile qualifier is what a later FetchBlob with the same digest
    -- function, for any URI of the push and its qualifiers (up to order and volatile ones), for
    -- content of any age, is served from the store, whatever the wrapped fetcher would do.
    pub fetch_blob-push_blob :
        (w v : W) (uri : String) (fetcher : Fetcher W) (again : FetchRequest)
        → push_blob l store clock allow_updates req w ≡ (ok tt, v)
        → is_among uri req.uris ≡ true
        → req.expire_at ≡ none
        → Perm (remove_volatile_qualifiers req.qualifiers) req.qualifiers
        → AsksAgain l store clock f c again uri req.qualifiers
        → (fetch_blob l fetcher store clock again v).0
          ≡ ok (record {
            status = some (ok_status "Blob fetched successfully from asset cache");
            uri = uri;
            qualifiers = again.qualifiers;
            blob_digest = req.digest;
          })
    fetch_blob-push_blob w v uri fetcher again h p never stable asks =
        serves_blob l store clock f c fetcher again uri req.qualifiers req.digest v asks
          (kept blob v uri never stable ((push_blob_Ensures w).at tt v h) p)

    -- The store is a map of assets for the digest function of the push, it can store assets of the
    -- digest that is pushed, and reading the clock leaves it alone. A directory that was pushed without
    -- an expiry and with no volatile qualifier is what a later FetchDirectory with the same digest
    -- function, for any URI of the push and its qualifiers (up to order and volatile ones), for
    -- content of any age, is served from the store, whatever the wrapped fetcher would do.
    pub fetch_directory-push_directory :
        (w v : W) (uri : String) (fetcher : Fetcher W) (again : FetchRequest)
        → push_directory l store clock allow_updates req w ≡ (ok tt, v)
        → is_among uri req.uris ≡ true
        → req.expire_at ≡ none
        → Perm (remove_volatile_qualifiers req.qualifiers) req.qualifiers
        → AsksAgain l store clock f c again uri req.qualifiers
        → (fetch_directory l fetcher store clock again v).0
          ≡ ok (record {
            status = some (ok_status "Directory fetched successfully from asset cache");
            uri = uri;
            qualifiers = again.qualifiers;
            root_directory_digest = req.digest;
          })
    fetch_directory-push_directory w v uri fetcher again h p never stable asks =
        serves_directory l store clock f c fetcher again uri req.qualifiers req.digest v asks
          (kept directory v uri never stable ((push_directory_Ensures w).at tt v h) p)
