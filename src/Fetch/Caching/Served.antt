-- ===== src/Fetch/Caching/Served.antt =====
-- Where the responses of the caching fetcher come from.
use bb_remote_asset.Prelude.{
  String, ◌≡◌, refl, sym, ap, ◌∙◌, subst, ◌⊎◌, inl, inr, not, Option, none, some, List, [],
}
use bb_remote_asset.Prelude.Effect.{
  ok, is_ok_code, Status, Error, Result, and_then-eq-ok, Ensures, Ensures-bind, Ensures-lift,
  Ensures-pure,
}
use bb_remote_asset.Time.{Time, Timestamp, Clock}
use bb_remote_asset.Qualifier.{Qualifier}
use bb_remote_asset.Storage.Messages.{Asset}
use bb_remote_asset.Storage.Libraries.{Libraries}
use bb_remote_asset.Storage.Asset.{new_directory_asset, get_default_timestamp}
use bb_remote_asset.Storage.Store.{AssetStore}
use bb_remote_asset.Fetch.Interface.{
  FetchRequest, FetchBlobResponse, FetchDirectoryResponse, Fetcher, ok_status,
}
use bb_remote_asset.Fetch.Utils.{get_digest_function}
use bb_remote_asset.Fetch.Caching.{
  remove_volatile_qualifiers, with_caching_errors, oldest_of, check_oldest, keep_blob, finish_blob,
  fetch_blob, finish_directory, fetch_directory,
}
use bb_remote_asset.Fetch.Caching.Lookup.{IsOutcome, look_up_Ensures}
use bb_remote_asset.Fetch.Caching.Usable.{Passes, IsFound}
use bb_remote_asset.Fetch.Caching.Returns.{
  Returns, pure-Returns, if-Returns, change_failure-eq-ok, store_fetched-Returns,
}

module _ (l : Libraries) {W : Type 0} (fetcher : Fetcher W) (store : AssetStore l.Function W)
    (clock : Clock W) where
  keep_blob-Returns :
      (req : FetchRequest) (f : l.Function) (response : FetchBlobResponse) (s : Option Status)
      → Returns (keep_blob l fetcher store clock req f response s) response
  unfolding keep_blob
  keep_blob-Returns req f response none w = record { at = λ r v h. cc }
  keep_blob-Returns req f response (some s) w =
      if-Returns (not (is_ok_code s.code)) response _ _ (pure-Returns response)
        (store_fetched-Returns l store clock req.uris response.uri response.qualifiers _ f response)
        w

  module _ (req : FetchRequest) where
    abbrev qualifiers : List Qualifier
    qualifiers = remove_volatile_qualifiers req.qualifiers

    abbrev accepted : Time
    accepted = oldest_of l req.oldest_content_accepted

    -- Asked for the URIs of the request in their order, from the world `w` on, the store has this
    -- usable asset for this one, and for none before it.
    abbrev pub IsHit : l.Function → W → String → Asset → Type 0
    IsHit f w uri a = IsFound l store clock qualifiers f accepted req.uris w uri a

    -- Asked for the URIs of the request in their order, from the world `w` on, the store has a
    -- usable asset for none of them; `u` is the world after that.
    abbrev pub IsMiss : l.Function → W → W → Type 0
    IsMiss f w u = Passes l store clock qualifiers f accepted req.uris w u

    -- The response tells of the asset that the look-up finds.
    abbrev pub IsBlobHit : l.Function → W → FetchBlobResponse → Type 0
    IsBlobHit f w resp =
        (uri : String) × (a : Asset) × IsHit f w uri a
        × (resp ≡ record {
          status = some (ok_status "Blob fetched successfully from asset cache");
          uri = uri;
          qualifiers = req.qualifiers;
          blob_digest = a.digest;
        })

    -- The look-up finds nothing, and in the world that it leaves the wrapped fetcher answers the
    -- request with the response.
    abbrev pub IsBlobForwarded : l.Function → W → FetchBlobResponse → Type 0
    IsBlobForwarded f w resp = (u : W) × IsMiss f w u × ((fetcher.fetch_blob req u).0 ≡ ok resp)

    -- The response is a hit or forwarded, for the digest function of the request.
    abbrev pub IsBlobServed : W → FetchBlobResponse → Type 0
    IsBlobServed w resp =
        (f : l.Function) × (get_digest_function l req.digest_function req.instance_name ≡ ok f)
        × (IsBlobHit f w resp ⊎ IsBlobForwarded f w resp)

    finish_blob_Ensures :
        (f : l.Function) (r : (String × Asset) ⊎ List Error) (w u : W)
        → IsOutcome l store clock qualifiers f accepted [] req.uris w r u
        → Ensures u
            (finish_blob l fetcher store clock req f r)
            (λ resp _. IsBlobHit f w resp ⊎ IsBlobForwarded f w resp)
    unfolding finish_blob
    finish_blob_Ensures f (inl (uri, a)) w u found = Ensures-pure _ (inl (uri, a, found, refl))
    finish_blob_Ensures f (inr errors) w u (_, missed) = Ensures-bind _ _ λ response x e. record {
      at = λ r v h. inr (
        u,
        missed,
        ap (λ (x : Result FetchBlobResponse × W). x.0)
              (change_failure-eq-ok (with_caching_errors l "blob" errors) _ e)
            ∙ ap ok ((keep_blob-Returns req f response response.status x).at r v h),
      );
    }

    pub check_oldest-eq :
        (o : Option Timestamp) (t : Time) → check_oldest l o ≡ ok t → oldest_of l o ≡ t
    check_oldest-eq none t e = cc
    check_oldest-eq (some s) t e = let (_, _, q) = and_then-eq-ok (l.check_valid s) _ e in cc

    fetch_blob_Ensures :
        (w : W) → Ensures w (fetch_blob l fetcher store clock req) (λ resp _. IsBlobServed w resp)
    unfolding fetch_blob
    fetch_blob_Ensures w = Ensures-lift _ _ λ f is_f. Ensures-lift _ _ λ oldest is_oldest.
        Ensures-bind _ _ λ r u e. record {
          at = λ resp v h. (
            f,
            is_f,
            (finish_blob_Ensures f r w u (
                  subst (λ t. IsOutcome l store clock qualifiers f t [] req.uris w r u)
                    (sym (check_oldest-eq req.oldest_content_accepted oldest is_oldest))
                    ((look_up_Ensures l store clock qualifiers f oldest req.uris [] w).at r u
                      e))).at
                resp v h,
          );
        }

    -- FetchBlob, for the digest function of the request, asks the store for the URIs of the request
    -- in their order, without the volatile qualifiers. A response tells of the asset that the store
    -- has for the first of them for which it has one that is neither expired nor older than the
    -- request accepts; or there is no such URI, and in the world after all were asked the wrapped
    -- fetcher answers the same request with this response.
    pub fetch_blob_is_served :
        (resp : FetchBlobResponse) (w v : W)
        → fetch_blob l fetcher store clock req w ≡ (ok resp, v)
        → IsBlobServed w resp
    fetch_blob_is_served resp w v h = (fetch_blob_Ensures w).at resp v h

    -- The response tells of the asset that the look-up finds.
    abbrev pub IsDirectoryHit : l.Function → W → FetchDirectoryResponse → Type 0
    IsDirectoryHit f w resp =
        (uri : String) × (a : Asset) × IsHit f w uri a
        × (resp ≡ record {
          status = some (ok_status "Directory fetched successfully from asset cache");
          uri = uri;
          qualifiers = req.qualifiers;
          root_directory_digest = a.digest;
        })

    -- The look-up finds nothing, and in the world that it leaves the wrapped fetcher answers the
    -- request with the response.
    abbrev pub IsDirectoryForwarded : l.Function → W → FetchDirectoryResponse → Type 0
    IsDirectoryForwarded f w resp =
        (u : W) × IsMiss f w u × ((fetcher.fetch_directory req u).0 ≡ ok resp)

    -- The response is a hit or forwarded, for the digest function of the request.
    abbrev pub IsDirectoryServed : W → FetchDirectoryResponse → Type 0
    IsDirectoryServed w resp =
        (f : l.Function) × (get_digest_function l req.digest_function req.instance_name ≡ ok f)
        × (IsDirectoryHit f w resp ⊎ IsDirectoryForwarded f w resp)

    finish_directory_Ensures :
        (f : l.Function) (r : (String × Asset) ⊎ List Error) (w u : W)
        → IsOutcome l store clock qualifiers f accepted [] req.uris w r u
        → Ensures u
            (finish_directory l fetcher store clock req f r)
            (λ resp _. IsDirectoryHit f w resp ⊎ IsDirectoryForwarded f w resp)
    unfolding finish_directory
    finish_directory_Ensures f (inl (uri, a)) w u found = Ensures-pure _ (inl (uri, a, found, refl))
    finish_directory_Ensures f (inr errors) w u (_, missed) = Ensures-bind _ _ λ response x e.
        record {
          at = λ r v h. inr (
            u,
            missed,
            ap (λ (x : Result FetchDirectoryResponse × W). x.0)
                  (change_failure-eq-ok (with_caching_errors l "directory" errors) _ e)
                ∙ ap ok (
                    (store_fetched-Returns l store clock req.uris response.uri response.qualifiers
                        (new_directory_asset l clock response.root_directory_digest
                          (some (get_default_timestamp l)))
                        f response x).at
                      r v h),
          );
        }

    fetch_directory_Ensures :
        (w : W)
        → Ensures w (fetch_directory l fetcher store clock req) (λ resp _. IsDirectoryServed w resp)
    unfolding fetch_directory
    fetch_directory_Ensures w = Ensures-lift _ _ λ f is_f. Ensures-bind _ _ λ r u e. record {
      at = λ resp v h. (
        f,
        is_f,
        (finish_directory_Ensures f r w u
              ((look_up_Ensures l store clock qualifiers f accepted req.uris [] w).at r u e)).at
            resp v h,
      );
    }

    -- FetchDirectory, for the digest function of the request, asks the store for the URIs of the
    -- request in their order, without the volatile qualifiers. A response tells of the asset that
    -- the store has for the first of them for which it has one that is neither expired nor older
    -- than the request accepts; or there is no such URI, and in the world after all were asked the
    -- wrapped fetcher answers the same request with this response.
    pub fetch_directory_is_served :
        (resp : FetchDirectoryResponse) (w v : W)
        → fetch_directory l fetcher store clock req w ≡ (ok resp, v)
        → IsDirectoryServed w resp
    fetch_directory_is_served resp w v h = (fetch_directory_Ensures w).at resp v h
