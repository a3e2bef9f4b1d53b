-- ===== src/Server.antt =====
-- cmd/bb_remote_asset/main.go: the servers of a configuration. What other code makes of parts of the
-- configuration is a parameter; serving is a call that may fail.
pub mod Served
pub mod Allowed
use bb_remote_asset.Prelude.{ℕ, String, Bool, Option, none, some, List, [], ◌∷◌, any, concat}
use bb_remote_asset.Prelude.Effect.{Code, ok, Error, Result, err, status_error, and_then}
use bb_remote_asset.Time.{Clock}
use bb_remote_asset.Qualifier.{Qualifier}
use bb_remote_asset.Storage.Libraries.{Libraries, BlobAccess, Authorizer}
use bb_remote_asset.Storage.Store.{AssetStore}
use bb_remote_asset.Storage.ActionCache.Value.{on_error}
use bb_remote_asset.Fetch.Interface.{FetchRequest, Fetcher}
use bb_remote_asset.Fetch.Utils.{invalid_instance_name}
use bb_remote_asset.Fetch.Logging.{Line}
use bb_remote_asset.Fetch.Metrics.{Metric}
use bb_remote_asset.Push.{PushRequest, PushServer, new_asset_push_server, new_error_push_server}
use bb_remote_asset.Push.Metrics.{new_metrics_asset_push_server}
use bb_remote_asset.Configuration.{Backend, Services, Clients, new_fetcher_from_configuration}
use bb_remote_asset.Configuration.Store.{
  CacheConfiguration, Backends, new_asset_store_from_configuration,
}

-- ApplicationConfiguration, as far as it is read here.
pub record ApplicationConfiguration : Type 0 where
  pub fetcher : Option Backend
  pub asset_cache : Option CacheConfiguration
  pub allow_updates_for_instances : List String
  pub maximum_message_size_bytes : ℕ

pub record Environment (l : Libraries) (W : Type 0) : Type 1 where
  -- util.UnmarshalConfigurationFromFile and global.ApplyConfiguration
  pub read_configuration : String → Result ApplicationConfiguration
  pub apply_configuration : Result (Unit {0})
  -- What is made of the configuration of the authorizers, the CAS, the cache and the clients.
  pub fetch_authorizer : Result (Authorizer l.InstanceName W)
  pub push_authorizer : Result (Authorizer l.InstanceName W)
  pub content_addressable_storage : Result (BlobAccess l.Digest l.Buffer W)
  pub backends : Backends l W
  pub clients : Clients l W
  -- The equality of instance names, as keys of a map.
  pub same_instance : l.InstanceName → l.InstanceName → Bool
  pub clock : Clock W
  pub printf : Line → W → W
  -- What a fetch below the log leaves in the slice of URIs.
  pub blob_uris : FetchRequest → W → List String
  pub directory_uris : FetchRequest → W → List String
  pub observe_fetch : Metric → W → W
  pub observe_push : Metric → W → W
  -- What a push leaves in the slice of qualifiers.
  pub blob_qualifiers : PushRequest → W → List Qualifier
  pub directory_qualifiers : PushRequest → W → List Qualifier
  -- How deep calls may nest.
  pub stack : ℕ
  pub serve : Fetcher W → PushServer W → Result (Unit {0})

module _ (l : Libraries) {W : Type 0} (env : Environment l W) where
  -- util.StatusWrap
  abbrev wrap {ℓ} : {A : Type ℓ} → String → Result A → Result A
  wrap message r = on_error (λ e. l.status_wrap e message) r

  -- The loop over the instance names that accept updates.
  unfoldable pub allowed_instances : List String → Result (List l.InstanceName)
  allowed_instances [] = ok []
  allowed_instances (instance_name ∷ names) =
      and_then
        (on_error (invalid_instance_name l instance_name) (l.new_instance_name instance_name))
        λ i. and_then (allowed_instances names) λ is. ok (i ∷ is)

  -- `allowUpdatesForInstances`
  abbrev pub allow_updates : List l.InstanceName → l.InstanceName → Bool
  allow_updates allowed i = any (env.same_instance i) allowed

  -- `if config.AssetCache != nil`
  unfoldable pub new_store :
      ApplicationConfiguration
      → Option CacheConfiguration
      → BlobAccess l.Digest l.Buffer W
      → Authorizer l.InstanceName W
      → Authorizer l.InstanceName W
      → Result (Option (AssetStore l.Function W))
  unfolding new_asset_store_from_configuration
  new_store config none content_addressable_storage fetch_authorizer push_authorizer = ok none
  new_store config (some cache) content_addressable_storage fetch_authorizer push_authorizer =
      and_then
        (wrap "Failed to create asset store" (
          new_asset_store_from_configuration l env.backends content_addressable_storage
            config.maximum_message_size_bytes env.stack cache fetch_authorizer push_authorizer))
        λ store. ok (some store)

  abbrev pub services :
      Option (AssetStore l.Function W) → Authorizer l.InstanceName W → Services l W
  services asset_store fetch_authorizer = record {
    asset_store = asset_store;
    clock = env.clock;
    printf = env.printf;
    blob_uris = env.blob_uris;
    directory_uris = env.directory_uris;
    observe = env.observe_fetch;
    authorizer = fetch_authorizer;
  }

  -- `metricsPushServer`
  unfoldable pub new_push_server :
      Option (AssetStore l.Function W) → List l.InstanceName → PushServer W
  unfolding new_error_push_server new_asset_push_server new_metrics_asset_push_server
  new_push_server none allowed = new_error_push_server (record {
    code = Code.failed_precondition;
    message = "Server is not configured to allow pushing assets";
    details = [];
  })
  new_push_server (some store) allowed =
      new_metrics_asset_push_server
        (new_asset_push_server l store env.clock (allow_updates allowed)) env.blob_qualifiers
        env.directory_qualifiers env.clock env.observe_push

  -- The servers that are registered.
  unfoldable pub new_servers : ApplicationConfiguration → Result (Fetcher W × PushServer W)
  unfolding allowed_instances new_store new_push_server new_fetcher_from_configuration
  new_servers config =
      and_then (wrap "Failed to apply global configuration options" env.apply_configuration) λ _.
        and_then (wrap "Failed to create Fetch Authorizer from Configuration" env.fetch_authorizer)
          λ fetch_authorizer.
            and_then
              (wrap "Failed to create Push Authorizer from Configuration" env.push_authorizer)
              λ push_authorizer.
                and_then (wrap "Failed to create CAS blob access" env.content_addressable_storage)
                  λ content_addressable_storage.
                    and_then
                      (new_store config config.asset_cache content_addressable_storage
                        fetch_authorizer push_authorizer)
                      λ asset_store.
                        and_then (allowed_instances config.allow_updates_for_instances) λ allowed.
                          and_then
                            (wrap "Failed to initialize fetch server from configuration" (
                              new_fetcher_from_configuration l
                                (services asset_store fetch_authorizer) env.clients
                                content_addressable_storage config.maximum_message_size_bytes
                                config.fetcher))
                            λ fetch_server. ok (fetch_server, new_push_server asset_store allowed)

  -- What is run with the arguments of the command.
  unfoldable pub run : List String → Result (Unit {0})
  unfolding new_servers
  run (_ ∷ path ∷ []) =
      and_then
        (on_error (λ e. l.status_wrap e (concat ("Failed to read configuration from " ∷ path ∷ [])))
          (env.read_configuration path))
        λ config.
          and_then (new_servers config)
            λ servers. wrap "gRPC server failure" (env.serve servers.0 servers.1)
  run _ =
      err none (status_error Code.invalid_argument "Usage: bb_remote_asset bb_remote_asset.jsonnet")
