-- ===== src/Configuration.antt =====
-- pkg/configuration/new_fetcher.go: the stack of fetchers that a configuration stands for.
pub mod Laws
pub mod Store
pub mod Served
use bb_remote_asset.Prelude.{ℕ, String, List, Option, none, some}
use bb_remote_asset.Prelude.Effect.{Code, ok, Status, Result, err, status_error, and_then}
use bb_remote_asset.Time.{Clock}
use bb_remote_asset.Storage.Libraries.{Libraries, BlobAccess, Authorizer}
use bb_remote_asset.Storage.Store.{AssetStore}
use bb_remote_asset.Fetch.Interface.{FetchRequest, Fetcher}
use bb_remote_asset.Fetch.ErrorFetcher.{new_error_fetcher, default_fetcher}
use bb_remote_asset.Fetch.Authorizing.{new_authorizing_fetcher}
use bb_remote_asset.Fetch.Validating.{new_validating_fetcher}
use bb_remote_asset.Fetch.Caching.{new_caching_fetcher}
use bb_remote_asset.Fetch.Logging.{Line, new_logging_fetcher}
use bb_remote_asset.Fetch.Http.{new_http_fetcher}
use bb_remote_asset.Fetch.Http.Client.{Transfer}
use bb_remote_asset.Fetch.RemoteExecution.{new_remote_execution_fetcher}
use bb_remote_asset.Fetch.RemoteExecution.Client.{Execution}
use bb_remote_asset.Fetch.Metrics.{Metric, new_metrics_fetcher}

-- FetcherConfiguration.Backend; `unset` is a oneof that is not set.
pub data Backend : Type 0 where
  http remote_execution unset : Backend
  error : Status → Backend

-- What the stack reaches: the store, the clock, the log, the metrics and the authorizer.
pub record Services (l : Libraries) (W : Type 0) : Type 0 where
  pub asset_store : Option (AssetStore l.Function W)
  pub clock : Clock W
  pub printf : Line → W → W
  -- What a fetch below the log leaves in the slice of URIs.
  pub blob_uris : FetchRequest → W → List String
  pub directory_uris : FetchRequest → W → List String
  pub observe : Metric → W → W
  pub authorizer : Authorizer l.InstanceName W

-- The clients that a backend may need. Making one of them may fail.
pub record Clients (l : Libraries) (W : Type 0) : Type 1 where
  pub http_client : Result (Transfer l W)
  pub execution_client : Result (Execution W)

module _ (l : Libraries) {W : Type 0} (services : Services l W) where
  -- The fetcher of the backend.
  unfoldable pub new_backend :
      Clients l W → BlobAccess l.Digest l.Buffer W → ℕ → Option Backend → Result (Fetcher W)
  unfolding default_fetcher new_error_fetcher new_http_fetcher new_remote_execution_fetcher
  new_backend clients content_addressable_storage maximum_message_size_bytes none =
      ok default_fetcher
  new_backend clients content_addressable_storage maximum_message_size_bytes (some http) =
      and_then clients.http_client λ t. ok (new_http_fetcher l t content_addressable_storage)
  new_backend clients content_addressable_storage maximum_message_size_bytes (some (error s)) =
      ok (new_error_fetcher s)
  new_backend clients content_addressable_storage maximum_message_size_bytes
        (some remote_execution) =
      and_then clients.execution_client λ execution. ok (
        new_remote_execution_fetcher l content_addressable_storage execution
          maximum_message_size_bytes)
  new_backend clients content_addressable_storage maximum_message_size_bytes (some unset) =
      err none (
        status_error Code.invalid_argument
          "Fetcher configuration is invalid as no supported Fetchers are defined.")

  -- `if assetStore != nil`
  abbrev pub with_store : Option (AssetStore l.Function W) → Fetcher W → Fetcher W
  with_store none fetcher = fetcher
  with_store (some store) fetcher = new_caching_fetcher l fetcher store services.clock

  -- The decorators around a backend
  unfoldable pub decorate : Fetcher W → Fetcher W
  unfolding new_authorizing_fetcher new_metrics_fetcher new_logging_fetcher new_validating_fetcher
      new_caching_fetcher
  decorate fetcher =
      new_authorizing_fetcher l
        (new_metrics_fetcher
          (new_logging_fetcher (new_validating_fetcher l (with_store services.asset_store fetcher))
            services.printf services.blob_uris services.directory_uris)
          services.clock services.observe)
        services.authorizer

  -- `NewFetcherFromConfiguration`
  unfoldable pub new_fetcher_from_configuration :
      Clients l W → BlobAccess l.Digest l.Buffer W → ℕ → Option Backend → Result (Fetcher W)
  unfolding new_backend decorate
  new_fetcher_from_configuration clients content_addressable_storage maximum_message_size_bytes
        configuration =
      and_then
        (new_backend clients content_addressable_storage maximum_message_size_bytes configuration)
        λ fetcher. ok (decorate fetcher)
