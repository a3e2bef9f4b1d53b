-- ===== src/Fetch/Caching/Stored.antt =====
-- What is stored of the responses of the wrapped fetcher, and that it is served again.
use mathlib.Core.List.{Mem}
use bb_remote_asset.Prelude.{
  String, ◌≡◌, refl, ap, subst, ◌⊎◌, inr, true, not, Option, none, some, List, [], ◌∷◌, arith,
}
use bb_remote_asset.Prelude.Effect.{
  ok, is_ok_code, Status, Error, Result, pure, Ensures, Ensures-bind, Ensures-step, Ensures-lift,
  Ensures-pure, Ensures-if,
}
use bb_remote_asset.Time.{Time, Clock}
use bb_remote_asset.Storage.Messages.{ProtoDigest, Asset}
use bb_remote_asset.Storage.Libraries.{Libraries}
use bb_remote_asset.Storage.Reference.{new_asset_reference}
use bb_remote_asset.Storage.Asset.{
  new_asset, new_blob_asset, new_directory_asset, get_default_timestamp,
}
use bb_remote_asset.Storage.Store.{AssetStore, IsAssetMap}
use bb_remote_asset.Fetch.Interface.{
  FetchRequest, FetchBlobResponse, FetchDirectoryResponse, Fetcher, ok_status,
}
use bb_remote_asset.Fetch.Utils.{get_digest_function}
use bb_remote_asset.Fetch.Caching.{
  remove_volatile_qualifiers, look_up, store_fetched, oldest_of, keep_blob, finish_blob, fetch_blob,
  finish_directory, fetch_directory,
}
use bb_remote_asset.Fetch.Caching.Returns.{store_fetched-Returns}
use bb_remote_asset.Fetch.Caching.Refetch.{
  KeepsInstants, store_fetched-stores, look_up-eq-missed, default_never_expires,
}
use bb_remote_asset.Fetch.Caching.Kept.{AsksAgain, IsKept, serves_blob, serves_directory}

module _ (l : Libraries) {W : Type 0} (store : AssetStore l.Function W) (clock : Clock W)
    (f : l.Function) (c : IsAssetMap store f) (fetcher : Fetcher W) (req : FetchRequest) where
  -- The store has nothing for any URI of the request.
  abbrev pub IsMissed : W → Type 0
  IsMissed w =
      (uri : String)
      → Mem uri req.uris
      → c.view w (new_asset_reference (uri ∷ []) (remove_volatile_qualifiers req.qualifiers)) ≡ none

  -- Every asset of this digest can be stored.
  abbrev pub CanStore : Option ProtoDigest → Type 0
  CanStore digest = (a : Asset) → a.digest ≡ digest → c.IsStorable a

  -- What the store has for a response of the wrapped fetcher.
  abbrev KeepsDirectory : FetchDirectoryResponse → W → Type 0
  KeepsDirectory resp v =
      CanStore resp.root_directory_digest
      → KeepsInstants l
      → IsKept l store clock f c v resp.uri resp.qualifiers resp.root_directory_digest

  abbrev KeepsBlob : FetchBlobResponse → W → Type 0
  KeepsBlob resp v =
      (s : Status)
      → resp.status ≡ some s
      → is_ok_code s.code ≡ true
      → CanStore resp.blob_digest
      → KeepsInstants l
      → IsKept l store clock f c v resp.uri resp.qualifiers resp.blob_digest

  directory_stores :
      (response : FetchDirectoryResponse) (u : W)
      → Ensures u
          (store_fetched l store clock req.uris response.uri response.qualifiers
            (new_directory_asset l clock response.root_directory_digest
              (some (get_default_timestamp l)))
            f
            response)
          KeepsDirectory
  unfolding new_directory_asset new_asset
  directory_stores response u = record {
    at = λ r v h.
        let make =
          new_directory_asset l clock response.root_directory_digest
            (some (get_default_timestamp l)) in
        subst (λ x. KeepsDirectory x v)
          ((store_fetched-Returns l store clock req.uris response.uri response.qualifiers make f
              response u).at
            r v h)
          λ can_store k. record {
            asset = (make u).0;
            same_digest = refl;
            never_expires = λ now. default_never_expires l store clock f c now k;
            is_there =
                (store_fetched-stores l store clock f c req.uris response.uri response.qualifiers
                    response make u (can_store (make u).0 refl)).at
                  r v h;
          };
  }

  blob_stores :
      (response : FetchBlobResponse) (u : W)
      → Ensures u
          (store_fetched l store clock req.uris response.uri response.qualifiers
            (new_blob_asset l clock response.blob_digest (some (get_default_timestamp l)))
            f
            response)
          KeepsBlob
  unfolding new_blob_asset new_asset
  blob_stores response u = record {
    at = λ r v h.
        let make = new_blob_asset l clock response.blob_digest (some (get_default_timestamp l)) in
        subst (λ x. KeepsBlob x v)
          ((store_fetched-Returns l store clock req.uris response.uri response.qualifiers make f
              response u).at
            r v h)
          λ s is_status good can_store k. record {
            asset = (make u).0;
            same_digest = refl;
            never_expires = λ now. default_never_expires l store clock f c now k;
            is_there =
                (store_fetched-stores l store clock f c req.uris response.uri response.qualifiers
                    response make u (can_store (make u).0 refl)).at
                  r v h;
          };
  }

  keep_blob-stores :
      (response : FetchBlobResponse) (o : Option Status) (u : W)
      → response.status ≡ o
      → Ensures u (keep_blob l fetcher store clock req f response o) KeepsBlob
  unfolding keep_blob
  keep_blob-stores response none u e = record { at = λ r v h. cc }
  keep_blob-stores response (some s) u e =
      Ensures-if (not (is_ok_code s.code)) (pure response) _
        (λ bad. Ensures-pure response λ s' is_status good can_store k.
          let same : s ≡ s' = cc in
          absurd (ground (arith, bad, good, ap (λ (t : Status). is_ok_code t.code) same)))
        (blob_stores response u)

  finish_directory-stores :
      (errors : List Error) (w : W)
      → Ensures w (finish_directory l fetcher store clock req f (inr errors)) KeepsDirectory
  unfolding finish_directory
  finish_directory-stores errors w = Ensures-bind _ _ λ response u e. directory_stores response u

  finish_blob-stores :
      (errors : List Error) (w : W)
      → Ensures w (finish_blob l fetcher store clock req f (inr errors)) KeepsBlob
  unfolding finish_blob
  finish_blob-stores errors w =
      Ensures-bind _ _ λ response u e. keep_blob-stores response response.status u refl

  -- What the look-up returns for a missed request is no asset.
  look_up-eq-inr :
      (oldest : Time) (w : W) (r : (String × Asset) ⊎ List Error) (u : W)
      → IsMissed w
      → look_up l store clock (remove_volatile_qualifiers req.qualifiers) f oldest [] req.uris w
        ≡ (ok r, u)
      → (es : List Error) × (inr es ≡ r)
  look_up-eq-inr oldest w r u missed e =
      let (es, p) =
        look_up-eq-missed l store clock f c (remove_volatile_qualifiers req.qualifiers) oldest
          req.uris [] w missed in
      (es, cc (ap (λ (x : Result ((String × Asset) ⊎ List Error) × W). x.0) e))

  module _
      (same_function : get_digest_function l req.digest_function req.instance_name ≡ ok f) where
    fetch_directory-stores :
        (w : W) → IsMissed w → Ensures w (fetch_directory l fetcher store clock req) KeepsDirectory
    unfolding fetch_directory
    fetch_directory-stores w missed = Ensures-step _ _ same_function (
        Ensures-bind _ _ λ r u e.
          let (es, p) = look_up-eq-inr (oldest_of l req.oldest_content_accepted) w r u missed e in
          subst (λ x. Ensures u (finish_directory l fetcher store clock req f x) KeepsDirectory) p
            (finish_directory-stores es u))

    fetch_blob-stores :
        (w : W) → IsMissed w → Ensures w (fetch_blob l fetcher store clock req) KeepsBlob
    unfolding fetch_blob
    fetch_blob-stores w missed = Ensures-step _ _ same_function (
        Ensures-lift _ _ λ oldest _. Ensures-bind _ _ λ r u e.
          let (es, p) = look_up-eq-inr oldest w r u missed e in
          subst (λ x. Ensures u (finish_blob l fetcher store clock req f x) KeepsBlob) p
            (finish_blob-stores es u))

    -- The store is a map of assets for the digest function of the request, it can store assets of
    -- the digest of the response, and times survive the conversion to timestamps and back. When it
    -- has nothing for any URI of the request, and FetchBlob returns the response of the wrapped
    -- fetcher with the status OK, a later request with the same digest function for the URI of the
    -- response and its qualifiers (up to order and volatile ones), for content of any age, is
    -- served from the store, whatever the wrapped fetcher then does.
    pub fetch_blob-fetch_blob :
        (w v : W) (resp : FetchBlobResponse) (s : Status) (again : FetchRequest) (later : Fetcher W)
        → KeepsInstants l
        → IsMissed w
        → fetch_blob l fetcher store clock req w ≡ (ok resp, v)
        → resp.status ≡ some s
        → is_ok_code s.code ≡ true
        → CanStore resp.blob_digest
        → AsksAgain l store clock f c again resp.uri resp.qualifiers
        → (fetch_blob l later store clock again v).0
          ≡ ok (record {
            status = some (ok_status "Blob fetched successfully from asset cache");
            uri = resp.uri;
            qualifiers = again.qualifiers;
            blob_digest = resp.blob_digest;
          })
    fetch_blob-fetch_blob w v resp s again later k missed h is_status good can_store asks =
        serves_blob l store clock f c later again resp.uri resp.qualifiers resp.blob_digest v asks
          ((fetch_blob-stores w missed).at resp v h s is_status good can_store k)

    -- The store is a map of assets for the digest function of the request, it can store assets of
    -- the digest of the response, and times survive the conversion to timestamps and back. When it
    -- has nothing for any URI of the request, and FetchDirectory returns the response of the
    -- wrapped fetcher, whatever its status says, a later request with the same digest function for
    -- the URI of the response and its qualifiers (up to order and volatile ones), for content of
    -- any age, is served from the store with the status OK, whatever the wrapped fetcher then does.
    pub fetch_directory-fetch_directory :
        (w v : W) (resp : FetchDirectoryResponse) (again : FetchRequest) (later : Fetcher W)
        → KeepsInstants l
        → IsMissed w
        → fetch_directory l fetcher store clock req w ≡ (ok resp, v)
        → CanStore resp.root_directory_digest
        → AsksAgain l store clock f c again resp.uri resp.qualifiers
        → (fetch_directory l later store clock again v).0
          ≡ ok (record {
            status = some (ok_status "Directory fetched successfully from asset cache");
            uri = resp.uri;
            qualifiers = again.qualifiers;
            root_directory_digest = resp.root_directory_digest;
          })
    fetch_directory-fetch_directory w v resp again later k missed h can_store asks =
        serves_directory l store clock f c later again resp.uri resp.qualifiers
          resp.root_directory_digest v asks
          ((fetch_directory-stores w missed).at resp v h can_store k)
