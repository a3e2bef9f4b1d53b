-- ===== src/Configuration/Served.antt =====
-- What the store has is served through the configured stack of fetchers.
use bb_remote_asset.Prelude.{String, ◌≡◌, ap, ◌∙◌, true, Bool, some, List, [], ◌∷◌}
use bb_remote_asset.Prelude.Effect.{ok}
use bb_remote_asset.Qualifier.{Qualifier}
use bb_remote_asset.Storage.Messages.{ProtoDigest}
use bb_remote_asset.Storage.Libraries.{Libraries}
use bb_remote_asset.Storage.Reference.{new_asset_reference}
use bb_remote_asset.Storage.Store.{AssetStore, IsAssetMap}
use bb_remote_asset.Fetch.Interface.{FetchRequest, FetchBlobResponse, Fetcher, ok_status}
use bb_remote_asset.Fetch.Authorizing.Laws.{new_authorizing_fetcher-IsGuardedBy}
use bb_remote_asset.Fetch.Validating.{new_validating_fetcher}
use bb_remote_asset.Fetch.Validating.Laws.{
  ReportsUnsupported, is_acceptable, acceptable_request_is_forwarded,
}
use bb_remote_asset.Fetch.Caching.{new_caching_fetcher, remove_volatile_qualifiers}
use bb_remote_asset.Fetch.Caching.Kept.{AsksAgain, IsKept, serves_blob}
use bb_remote_asset.Fetch.Logging.{new_logging_fetcher, new_logging_fetcher-keeps, fetching}
use bb_remote_asset.Fetch.Metrics.{new_metrics_fetcher, new_metrics_fetcher-fetch_blob}
use bb_remote_asset.Configuration.{Services, with_store, decorate}
use bb_remote_asset.Configuration.Laws.{LeavesAlone, stack_reports}

module _ (l : Libraries) {W : Type 0} (services : Services l W) (fetcher : Fetcher W)
    (store : AssetStore l.Function W) (has_store : services.asset_store ≡ some store)
    (f : l.Function) (c : IsAssetMap store f) (quiet : LeavesAlone l services fetcher c.view)
    (supported : String → Bool) (reports : ReportsUnsupported fetcher.check_qualifiers supported)
    (req : FetchRequest) (uri : String) (qs : List Qualifier) (digest : ProtoDigest) where
  abbrev pub served : FetchBlobResponse
  served = record {
    status = some (ok_status "Blob fetched successfully from asset cache");
    uri = uri;
    qualifiers = req.qualifiers;
    blob_digest = some digest;
  }

  abbrev inner : Fetcher W
  inner = with_store l services services.asset_store fetcher

  abbrev logged : Fetcher W
  logged =
      new_logging_fetcher (new_validating_fetcher l inner) services.printf services.blob_uris
        services.directory_uris

  module _ (again : AsksAgain l store services.clock f c req uri qs)
      (acceptable : is_acceptable supported req ≡ true) where
    -- The caching fetcher, called by the validating one.
    validated :
        (w : W)
        → IsKept l store services.clock f c w uri qs (some digest)
        → ((new_validating_fetcher l inner).fetch_blob req w).0 ≡ ok served
    unfolding new_caching_fetcher
    validated w kept =
        ap (λ m. (m w).0)
          (acceptable_request_is_forwarded l inner supported
            (stack_reports l services fetcher services.asset_store supported reports) req
            acceptable).0
        ∙ rw has_store
            (serves_blob l store services.clock f c fetcher req uri qs (some digest) w again kept)

    -- What is kept in a world is kept in one that looks like it.
    abbrev still_kept :
        {v w : W}
        → c.view v ≡ c.view w
        → IsKept l store services.clock f c w uri qs (some digest)
        → IsKept l store services.clock f c v uri qs (some digest)
    still_kept e kept = record {
      asset = kept.asset;
      same_digest = kept.same_digest;
      never_expires = kept.never_expires;
      is_there =
          ap (λ m. m (new_asset_reference (uri ∷ []) (remove_volatile_qualifiers qs))) e
          ∙ kept.is_there;
    }

    pub decorate-serves :
        (i : l.InstanceName) (w v : W)
        → l.new_instance_name req.instance_name ≡ ok i
        → services.authorizer.authorize i w ≡ (ok tt, v)
        → IsKept l store services.clock f c v uri qs (some digest)
        → ((decorate l services fetcher).fetch_blob req w).0 ≡ ok served
    unfolding decorate
    decorate-serves i w v is_name allowed kept =
        ap (λ r. r.0) guarded
        ∙ new_metrics_fetcher-fetch_blob logged services.clock services.observe req v _ served
            (λ j. (is_logged j, (logged.fetch_blob req (services.clock.now v).1).1))
      where
        guarded :
            (decorate l services fetcher).fetch_blob req w
            ≡ (new_metrics_fetcher logged services.clock services.observe).fetch_blob req v
        guarded =
            rw allowed at
              (new_authorizing_fetcher-IsGuardedBy l
                (new_metrics_fetcher logged services.clock services.observe) services.authorizer req
                w i is_name).0

        is_logged : (logged.fetch_blob req (services.clock.now v).1).0 ≡ ok served
        is_logged =
            (new_logging_fetcher-keeps (new_validating_fetcher l inner) services.printf
              services.blob_uris services.directory_uris req (services.clock.now v).1).0
            ∙ validated
                (services.printf (fetching "Blob" req.uris req.qualifiers) (services.clock.now v).1)
                (still_kept (quiet.printf _ (services.clock.now v).1 ∙ quiet.clock v) kept)
