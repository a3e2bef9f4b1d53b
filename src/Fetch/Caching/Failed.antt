-- ===== src/Fetch/Caching/Failed.antt =====
-- What becomes of a fetch that does not succeed.
use bb_remote_asset.Prelude.{◌≡◌, refl, ap, ◌∙◌, inr, false, Option, none, some, List, []}
use bb_remote_asset.Prelude.Effect.{
  ok, is_ok_code, Status, Error, Result, err, convert, lift, continue, ◌>>=◌, bind_step,
}
use bb_remote_asset.Time.{Time, Clock}
use bb_remote_asset.Storage.Libraries.{Libraries}
use bb_remote_asset.Storage.Store.{AssetStore, IsAssetMap}
use bb_remote_asset.Fetch.Interface.{FetchRequest, FetchBlobResponse, Fetcher}
use bb_remote_asset.Fetch.Utils.{get_digest_function}
use bb_remote_asset.Fetch.Caching.{
  remove_volatile_qualifiers, with_caching_errors, change_failure, look_up, check_oldest, keep_blob,
  finish_blob, fetch_blob,
}
use bb_remote_asset.Fetch.Caching.Stored.{IsMissed}
use bb_remote_asset.Fetch.Caching.Refetch.{look_up-eq-missed}

module _ (l : Libraries) {W : Type 0} (store : AssetStore l.Function W) (clock : Clock W)
    (f : l.Function) (c : IsAssetMap store f) (fetcher : Fetcher W) (req : FetchRequest) where
  -- The world in which the wrapped fetcher is called.
  abbrev pub after_look_up : Time → W → W
  after_look_up oldest w =
      (look_up l store clock (remove_volatile_qualifiers req.qualifiers) f oldest [] req.uris w).1

  change_failure-eq-err :
      {A : Type 0} (g : Status → Status) (r : Result A × W) {o : Option A} {e : Error} {x : W}
      → r ≡ (err o e, x)
      → is_ok_code (g (convert e)).code ≡ false
      → change_failure g r ≡ (err none (Error.status (g (convert e))), x)
  change_failure-eq-err g r h bad = rw h (rw bad refl)

  -- On a miss the rest of the method runs with the errors of the look-up.
  fetch_blob_on_miss :
      (oldest : Time) (w : W)
      → get_digest_function l req.digest_function req.instance_name ≡ ok f
      → check_oldest l req.oldest_content_accepted ≡ ok oldest
      → IsMissed l store clock f c fetcher req w
      → (es : List Error) × (fetch_blob l fetcher store clock req w
          ≡ finish_blob l fetcher store clock req f (inr es) (after_look_up oldest w))
  unfolding fetch_blob
  fetch_blob_on_miss oldest w is_f is_oldest missed =
      let (es, p) =
        look_up-eq-missed l store clock f c (remove_volatile_qualifiers req.qualifiers) oldest
          req.uris [] w missed in
      (
        es,
        bind_step (lift (get_digest_function l req.digest_function req.instance_name)) _ is_f
            ∙ bind_step (lift (check_oldest l req.oldest_content_accepted)) _ is_oldest
            ∙ bind_step
                (look_up l store clock (remove_volatile_qualifiers req.qualifiers) f oldest []
                  req.uris)
                _ p,
      )

  finish_blob_on_err :
      (es : List Error) (u x : W) (o : Option FetchBlobResponse) (e : Error)
      → fetcher.fetch_blob req u ≡ (err o e, x)
      → is_ok_code (convert e).code ≡ false
      → finish_blob l fetcher store clock req f (inr es) u
        ≡ (err none (Error.status (with_caching_errors l "blob" es (convert e))), x)
  unfolding finish_blob ◌>>=◌
  finish_blob_on_err es u x o e h bad =
      ap
        (λ r.
          continue r
            (λ (resp : FetchBlobResponse). keep_blob l fetcher store clock req f resp resp.status))
        (change_failure-eq-err (with_caching_errors l "blob" es) _ h bad)

  finish_blob_on_bad_status :
      (es : List Error) (u x : W) (resp : FetchBlobResponse) (s : Status)
      → fetcher.fetch_blob req u ≡ (ok resp, x)
      → resp.status ≡ some s
      → is_ok_code s.code ≡ false
      → finish_blob l fetcher store clock req f (inr es) u ≡ (ok resp, x)
  unfolding finish_blob keep_blob ◌>>=◌
  finish_blob_on_bad_status es u x resp s h is_status bad = rw h (rw is_status (rw bad refl))

  module _ (oldest : Time) (w x : W)
      (is_f : get_digest_function l req.digest_function req.instance_name ≡ ok f)
      (is_oldest : check_oldest l req.oldest_content_accepted ≡ ok oldest)
      (missed : IsMissed l store clock f c fetcher req w) where
    -- When the store has nothing for any URI of the request and the wrapped fetcher fails, with a
    -- code other than OK, FetchBlob fails with that code, in the world that the wrapped fetcher
    -- left: nothing is stored.
    pub failed_fetch_blob_is_not_stored :
        (o : Option FetchBlobResponse) (e : Error)
        → fetcher.fetch_blob req (after_look_up oldest w) ≡ (err o e, x)
        → is_ok_code (convert e).code ≡ false
        → (s : Status) × (s.code ≡ (convert e).code)
          × (fetch_blob l fetcher store clock req w ≡ (err none (Error.status s), x))
    failed_fetch_blob_is_not_stored o e h bad =
        let (es, p) = fetch_blob_on_miss oldest w is_f is_oldest missed in
        (
          with_caching_errors l "blob" es (convert e),
          refl,
          p ∙ finish_blob_on_err es (after_look_up oldest w) x o e h bad,
        )

    -- When the store has nothing for any URI of the request and the status of the response of the
    -- wrapped fetcher is not OK, FetchBlob returns that response as it is, in the world that the
    -- wrapped fetcher left: nothing is stored.
    pub unsuccessful_response_is_not_stored :
        (resp : FetchBlobResponse) (s : Status)
        → fetcher.fetch_blob req (after_look_up oldest w) ≡ (ok resp, x)
        → resp.status ≡ some s
        → is_ok_code s.code ≡ false
        → fetch_blob l fetcher store clock req w ≡ (ok resp, x)
    unsuccessful_response_is_not_stored resp s h is_status bad =
        let (es, p) = fetch_blob_on_miss oldest w is_f is_oldest missed in
        p ∙ finish_blob_on_bad_status es (after_look_up oldest w) x resp s h is_status bad
