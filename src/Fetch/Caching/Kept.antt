-- ===== src/Fetch/Caching/Kept.antt =====
-- What the store keeps is served from then on.
use mathlib.Core.List.{Perm}
use mathlib.Core.List.Perm
use bb_remote_asset.Prelude.{
  String, ◌≡◌, refl, ap, ◌∙◌, ◌⊎◌, inl, false, Option, none, some, List, [], ◌∷◌,
}
use bb_remote_asset.Prelude.Effect.{ok, Error, Result, lift, ◌>>=◌, caught, bind_step, caught_of_ok}
use bb_remote_asset.Time.{Time, unix_epoch, Timestamp, Clock}
use bb_remote_asset.Qualifier.{Qualifier}
use bb_remote_asset.Storage.Messages.{ProtoDigest, Asset}
use bb_remote_asset.Storage.Libraries.{Libraries}
use bb_remote_asset.Storage.Reference.{new_asset_reference, new_asset_reference-eq_iff}
use bb_remote_asset.Storage.Store.{AssetStore, IsAssetMap}
use bb_remote_asset.Fetch.Interface.{
  FetchRequest, FetchBlobResponse, FetchDirectoryResponse, Fetcher, ok_status,
}
use bb_remote_asset.Fetch.Utils.{get_digest_function}
use bb_remote_asset.Fetch.Caching.{
  remove_volatile_qualifiers, is_expired, is_too_old, check_expiry, check_age, get_and_check_asset,
  look_up, oldest_of, check_oldest, finish_blob, fetch_blob, finish_directory, fetch_directory,
}

module _ (l : Libraries) {W : Type 0} (store : AssetStore l.Function W) (clock : Clock W)
    (f : l.Function) (c : IsAssetMap store f) where
  any_age_is_accepted : (t : Option Timestamp) → is_too_old l unix_epoch t ≡ false
  unfolding is_too_old
  any_age_is_accepted t = refl

  check_expiry-eq-ok :
      (o : Option Timestamp) (w : W)
      → ((now : Time) → is_expired l now o ≡ false)
      → (check_expiry l store clock o w).0 ≡ ok tt
  unfolding check_expiry ◌>>=◌
  check_expiry-eq-ok none w never = refl
  check_expiry-eq-ok (some t) w never = rw (never (clock.now w).0) refl

  check_age-eq-ok : (a : Asset) (w : W) → check_age l store clock unix_epoch a w ≡ (ok a, w)
  unfolding check_age
  check_age-eq-ok a w = rw (any_age_is_accepted a.last_updated) refl

  get_and_check_asset-eq-hit :
      (qs : List Qualifier) (uri : String) (a : Asset) (w : W)
      → ((now : Time) → is_expired l now a.expire_at ≡ false)
      → c.view w (new_asset_reference (uri ∷ []) qs) ≡ some a
      → (get_and_check_asset l store clock uri qs f unix_epoch w).0 ≡ ok a
  unfolding get_and_check_asset
  get_and_check_asset-eq-hit qs uri a w never h =
      let ref = new_asset_reference (uri ∷ []) qs in
      ap (λ (r : Result Asset × W). r.0)
        (bind_step (store.get ref f) _ (c.get_hit ref w a h)
          ∙ bind_step (check_expiry l store clock a.expire_at) _
              (check_expiry-eq-ok a.expire_at (store.get ref f w).1 never)
          ∙ check_age-eq-ok a _)

  -- A stored asset that never expires is what the look-up of its URI finds.
  look_up-eq-hit :
      (qs : List Qualifier) (uri : String) (uris : List String) (a : Asset) (w : W)
      → ((now : Time) → is_expired l now a.expire_at ≡ false)
      → c.view w (new_asset_reference (uri ∷ []) qs) ≡ some a
      → (look_up l store clock qs f unix_epoch [] (uri ∷ uris) w).0 ≡ ok (inl (uri, a))
  unfolding look_up
  look_up-eq-hit qs uri uris a w never h =
      ap (λ (r : Result ((String × Asset) ⊎ List Error) × W). r.0)
        (bind_step (λ v. caught (get_and_check_asset l store clock uri qs f unix_epoch v)) _
          (caught_of_ok (get_and_check_asset l store clock uri qs f unix_epoch w)
            (get_and_check_asset-eq-hit qs uri a w never h)))

  -- The request asks for the URI first, for the same stable qualifiers, by the digest function
  -- `f`, and accepts content of any age.
  pub record AsksAgain (req : FetchRequest) (uri : String) (qs : List Qualifier) : Type 0 where
    pub uris : List String
    pub is_first : req.uris ≡ uri ∷ uris
    pub same_qualifiers :
        Perm (remove_volatile_qualifiers req.qualifiers) (remove_volatile_qualifiers qs)
    pub same_function : get_digest_function l req.digest_function req.instance_name ≡ ok f
    pub any_age : req.oldest_content_accepted ≡ none

  -- The store has, for a URI and qualifiers, an asset of this digest that does not expire.
  pub record IsKept (v : W) (uri : String) (qs : List Qualifier) (digest : Option ProtoDigest)
      : Type 0 where
    pub asset : Asset
    pub same_digest : asset.digest ≡ digest
    pub never_expires : (now : Time) → is_expired l now asset.expire_at ≡ false
    pub is_there :
        c.view v (new_asset_reference (uri ∷ []) (remove_volatile_qualifiers qs)) ≡ some asset

  module _ (fetcher : Fetcher W) (req : FetchRequest) (uri : String) (qs : List Qualifier)
      (digest : Option ProtoDigest) (v : W) (again : AsksAgain req uri qs)
      (kept : IsKept v uri qs digest) where
    finds :
        (look_up l store clock
          (remove_volatile_qualifiers req.qualifiers)
          f
          unix_epoch
          []
          req.uris
          v).0
        ≡ ok (inl (uri, kept.asset))
    finds = rw again.is_first (
        look_up-eq-hit (remove_volatile_qualifiers req.qualifiers) uri again.uris kept.asset v
          kept.never_expires
          (ap (c.view v) (
              (new_asset_reference-eq_iff (uri ∷ []) (uri ∷ []) _ _).1
                (Perm.refl (uri ∷ []), again.same_qualifiers))
            ∙ kept.is_there))

    finds_any_age :
        (look_up l store clock
          (remove_volatile_qualifiers req.qualifiers)
          f
          (oldest_of l req.oldest_content_accepted)
          []
          req.uris
          v).0
        ≡ ok (inl (uri, kept.asset))
    finds_any_age = rw again.any_age finds

    pub serves_blob :
        (fetch_blob l fetcher store clock req v).0
        ≡ ok (record {
          status = some (ok_status "Blob fetched successfully from asset cache");
          uri = uri;
          qualifiers = req.qualifiers;
          blob_digest = digest;
        })
    unfolding fetch_blob finish_blob
    serves_blob = rw (← kept.same_digest) (
        ap (λ (r : Result FetchBlobResponse × W). r.0)
          (bind_step (lift (get_digest_function l req.digest_function req.instance_name)) _
              again.same_function
            ∙ bind_step (lift (check_oldest l req.oldest_content_accepted)) _
                (ap (check_oldest l) again.any_age)
            ∙ bind_step
                (look_up l store clock (remove_volatile_qualifiers req.qualifiers) f unix_epoch []
                  req.uris)
                _ finds))

    pub serves_directory :
        (fetch_directory l fetcher store clock req v).0
        ≡ ok (record {
          status = some (ok_status "Directory fetched successfully from asset cache");
          uri = uri;
          qualifiers = req.qualifiers;
          root_directory_digest = digest;
        })
    unfolding fetch_directory finish_directory
    serves_directory = rw (← kept.same_digest) (
        ap (λ (r : Result FetchDirectoryResponse × W). r.0)
          (bind_step (lift (get_digest_function l req.digest_function req.instance_name)) _
              again.same_function
            ∙ bind_step
                (look_up l store clock (remove_volatile_qualifiers req.qualifiers) f
                  (oldest_of l req.oldest_content_accepted) [] req.uris)
                _ finds_any_age))
