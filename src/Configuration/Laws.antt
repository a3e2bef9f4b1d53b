-- ===== src/Configuration/Laws.antt =====
-- What passes the configured stack of fetchers.
use bb_remote_asset.Prelude.{◌∙◌, refl, String, ◌≡◌, Bool, false, Option, none, some}
use bb_remote_asset.Prelude.Effect.{Code, ok, Status, Error, err, Exec, ◌>>=◌}
use bb_remote_asset.Storage.Libraries.{Libraries}
use bb_remote_asset.Storage.Store.{AssetStore}
use bb_remote_asset.Fetch.Interface.{FetchRequest, Fetcher}
use bb_remote_asset.Fetch.Validating.Laws.{
  unacceptable_request-IsRefused, ReportsUnsupported, TakesDetails, is_acceptable,
}
use bb_remote_asset.Fetch.Caching.{new_caching_fetcher}
use bb_remote_asset.Fetch.Logging.{Line, fetching}
use bb_remote_asset.Fetch.Metrics.{Metric}
use bb_remote_asset.Configuration.{Services, with_store, decorate}

module _ (l : Libraries) {W : Type 0} (services : Services l W) (fetcher : Fetcher W) where
  pub stack_reports :
      (o : Option (AssetStore l.Function W)) (supported : String → Bool)
      → ReportsUnsupported fetcher.check_qualifiers supported
      → ReportsUnsupported (with_store l services o fetcher).check_qualifiers supported
  unfolding new_caching_fetcher
  stack_reports none supported c = c
  stack_reports (some store) supported c = record { contains-check = c.contains-check }

  -- The log, the metrics and the clock leave alone what `view` shows of the world.
  pub record LeavesAlone {V : Type 0} (view : W → V) : Type 0 where
    pub clock : (w : W) → view (services.clock.now w).1 ≡ view w
    pub printf : (line : Line) (w : W) → view (services.printf line w) ≡ view w
    pub observe : (m : Metric) (w : W) → view (services.observe m w) ≡ view w

  -- The call fails with InvalidArgument and leaves what `view` shows.
  abbrev pub FailsQuietly : {A V : Type 0} → (W → V) → W → Exec W A → W → Type 0
  FailsQuietly {A} view w m v =
      (s : Status) × (s.code ≡ Code.invalid_argument)
      × ((m v).0 ≡ err none (Error.status s))
      × (view (m v).1 ≡ view w)

  module _ (supported : String → Bool) (c : ReportsUnsupported fetcher.check_qualifiers supported)
      (d : TakesDetails l) {V : Type 0} (view : W → V) (quiet : LeavesAlone view) where
    -- Over a backend that reports exactly the qualifiers it does not support, and where a gRPC
    -- status whose code is not OK takes details on and keeps its code, a request that the
    -- authorizer lets through, but which has no URIs or names such a qualifier, fails with
    -- InvalidArgument from the whole stack, and nothing that the clock, the log and the metrics
    -- leave alone has changed since the authorizer answered.
    pub decorate-FailsQuietly :
        (req : FetchRequest) (i : l.InstanceName) (w v : W)
        → l.new_instance_name req.instance_name ≡ ok i
        → services.authorizer.authorize i w ≡ (ok tt, v)
        → is_acceptable supported req ≡ false
        → FailsQuietly view v ((decorate l services fetcher).fetch_blob req) w
          × FailsQuietly view v ((decorate l services fetcher).fetch_directory req) w
    unfolding decorate ◌>>=◌
    decorate-FailsQuietly req i w v is_name allowed bad =
        let inner = with_store l services services.asset_store fetcher in
        let reports = stack_reports services.asset_store supported c in
        let started = (services.clock.now v).1 in
        let (s, is_code, fails) =
          (unacceptable_request-IsRefused l inner supported reports req
            (services.printf (fetching "Blob" req.uris req.qualifiers) started) d bad).0 in
        let (t, is_code', fails') =
          (unacceptable_request-IsRefused l inner supported reports req
            (services.printf (fetching "Directory" req.uris req.qualifiers) started) d bad).1 in
        rw (is_name, allowed, fails, fails')
          ((s, is_code, refl, quiet_path "Blob"), (t, is_code', refl, quiet_path "Directory"))
      where
        quiet_path :
            (kind : String) {m : Metric} {line : Line}
            → view (
                services.observe m
                  (services.clock.now (
                    services.printf line (
                      services.printf
                        (fetching kind req.uris req.qualifiers)
                        (services.clock.now v).1))).1)
              ≡ view v
        quiet_path kind =
            quiet.observe _ _ ∙ quiet.clock _ ∙ quiet.printf _ _ ∙ quiet.printf _ _ ∙ quiet.clock v
