-- ===== src/Tests/Servers.antt =====
-- The theorems on the configured server at concrete inputs.
use mathlib.Core.List.Perm
use bb_remote_asset.Fetch.Utils.{get_digest_function as fetch_digest_function}
use bb_remote_asset.Prelude.{
  String, ◌≡◌, refl, inl, Bool, true, none, some, [], ◌∷◌, arith, ◌==◌, text_less, List,
}
use bb_remote_asset.Prelude.Sorting.{sort}
use bb_remote_asset.Prelude.Effect.{ok, plain, err, ◌>>=◌, found}
use bb_remote_asset.Qualifier.Set.{contains}
use bb_remote_asset.Storage.Messages.{DigestFunctionValue, sha256, directory}
use bb_remote_asset.Storage.Digest.{proto_serialise}
use bb_remote_asset.Storage.Reference.{new_asset_reference}
use bb_remote_asset.Storage.Store.{AssetStore, IsAssetMap}
use bb_remote_asset.Storage.BlobStore.{new_blob_access_asset_store}
use bb_remote_asset.Storage.BlobStore.Refinement.{
  new_blob_access_asset_store-IsAssetMap, new_blob_access_asset_store-IsStorable,
}
use bb_remote_asset.Storage.Authorizing.{new_authorizing_asset_store}
use bb_remote_asset.Storage.Authorizing.Refinement.{LetsThrough}
use bb_remote_asset.Fetch.Interface.{Fetcher, ok_status}
use bb_remote_asset.Fetch.ErrorFetcher.{new_error_fetcher, default_fetcher}
use bb_remote_asset.Fetch.Validating.Laws.{ReportsUnsupported}
use bb_remote_asset.Fetch.Caching.{remove_volatile_qualifiers}
use bb_remote_asset.Fetch.Caching.Kept.{AsksAgain}
use bb_remote_asset.Push.{PushServer, get_digest_function, new_asset_push_server}
use bb_remote_asset.Push.Metrics.{new_metrics_asset_push_server}
use bb_remote_asset.Configuration.{Services, new_backend, decorate}
use bb_remote_asset.Configuration.Laws.{LeavesAlone}
use bb_remote_asset.Configuration.Store.{
  blob_access, CacheConfiguration, new_base_store, new_asset_store_from_configuration,
}
use bb_remote_asset.Storage.Trace.{Operation, get, put, outcomes, expected}
use bb_remote_asset.Configuration.Store.Refinement.{configured_store-outcomes}
use bb_remote_asset.Server.{
  ApplicationConfiguration, Environment, allowed_instances, new_push_server, new_servers,
}
use bb_remote_asset.Server.Served.{
  IsDeployed, store, stack_services, servers-eq, store_map, pushed_blob_is_served,
}
use bb_remote_asset.Server.Allowed.{IsListed, returned_push-IsListed}
use bb_remote_asset.Tests.World.{
  World, empty_world, blob_store, action_cache, blob_map, libraries, serialises, clock, allows,
  digest, label, stored_asset, one_uri, two_uris,
}
use bb_remote_asset.Tests.Stores.{reads_assets}
use bb_remote_asset.Tests.Fetches.{later_request}
use bb_remote_asset.Tests.Pushes.{push_request, push_function, stable}
use bb_remote_asset.Tests.Decorators.{silent, ignore}

abbrev env : Environment libraries World
env = record {
  read_configuration = λ path. err none (plain "no such file");
  apply_configuration = ok tt;
  fetch_authorizer = ok (allows "main");
  push_authorizer = ok (allows "main");
  content_addressable_storage = ok action_cache;
  backends = record { blob_access = ok blob_store; action_cache = err none (plain "no cache") };
  clients = record {
    http_client = err none (plain "no client");
    execution_client = err none (plain "no client");
  };
  same_instance = λ i j. i == j;
  clock = clock;
  printf = silent;
  observe_fetch = ignore;
  observe_push = ignore;
  blob_uris = λ req w. req.uris;
  directory_uris = λ req w. req.uris;
  blob_qualifiers = λ req w. req.qualifiers;
  directory_qualifiers = λ req w. req.qualifiers;
  stack = 10;
  serve = λ fetch_server push_server. ok tt;
}

abbrev cache : CacheConfiguration
cache = record { backend = blob_access; action_cache_platform = none }

abbrev config : ApplicationConfiguration
config = record {
  fetcher = none;
  asset_cache = some cache;
  allow_updates_for_instances = "other" ∷ "main" ∷ [];
  maximum_message_size_bytes = 1000;
}

abbrev base : AssetStore DigestFunctionValue World
base = new_blob_access_asset_store libraries blob_store 1000

abbrev base_map : IsAssetMap base sha256
base_map =
    new_blob_access_asset_store-IsAssetMap libraries blob_store 1000 sha256 (serialises sha256)
      blob_map reads_assets

deployed :
    IsDeployed libraries env config cache base
      (allows "main")
      (allows "main")
      action_cache
      ("other" ∷ "main" ∷ [])
      default_fetcher
unfolding new_base_store allowed_instances new_backend
deployed = record {
  is_applied = refl;
  has_fetch_authorizer = refl;
  has_push_authorizer = refl;
  has_storage = refl;
  has_cache = refl;
  has_base = refl;
  has_allowed = refl;
  has_fetcher = refl;
}

lets_through : LetsThrough (allows "main") "main" base_map.view
lets_through = record { allows = λ w. refl; keeps = λ w. refl }

abbrev the_store : AssetStore DigestFunctionValue World
the_store =
    store libraries env config cache base (allows "main") (allows "main") action_cache
      ("other" ∷ "main" ∷ []) default_fetcher deployed

abbrev the_services : Services libraries World
the_services =
    stack_services libraries env config cache base (allows "main") (allows "main") action_cache
      ("other" ∷ "main" ∷ []) default_fetcher deployed

quiet : LeavesAlone libraries the_services default_fetcher base_map.view
quiet = record { clock = λ w. refl; printf = λ line w. refl; observe = λ m w. refl }

abbrev supports_all : String → Bool
supports_all name = true

reports_nothing : ReportsUnsupported (default_fetcher {W = World}).check_qualifiers supports_all
unfolding default_fetcher new_error_fetcher contains
reports_nothing = record { contains-check = λ s k. ground arith }

abbrev the_map : IsAssetMap the_store sha256
the_map =
    store_map libraries env config cache base (allows "main") (allows "main") action_cache
      ("other" ∷ "main" ∷ []) default_fetcher deployed sha256 base_map lets_through lets_through
      quiet (λ m w. refl) supports_all reports_nothing

asks_server :
    AsksAgain libraries the_store clock sha256 the_map later_request "https://example.com/b"
      (label ∷ [])
unfolding fetch_digest_function remove_volatile_qualifiers
asks_server = record {
  uris = [];
  is_first = refl;
  same_qualifiers = Perm.refl (label ∷ []);
  same_function = refl;
  any_age = refl;
}

abbrev servers : Fetcher World × PushServer World
servers = (
  decorate libraries the_services default_fetcher,
  new_push_server libraries env (some the_store) ("other" ∷ "main" ∷ []),
)

started : new_servers libraries env config ≡ ok servers
started =
    servers-eq libraries env config cache base (allows "main") (allows "main") action_cache
      ("other" ∷ "main" ∷ []) default_fetcher deployed

abbrev after_push : World
after_push = (servers.1.push_blob push_request empty_world).1

pushes : (servers.1.push_blob push_request empty_world).0 ≡ ok tt
unfolding new_push_server new_asset_push_server new_metrics_asset_push_server ◌>>=◌
    get_digest_function new_asset_reference sort text_less new_authorizing_asset_store
    new_blob_access_asset_store proto_serialise
pushes = refl

pushed_blob_is_served_example :
    (servers.0.fetch_blob later_request after_push).0
    ≡ ok (record {
      status = some (ok_status "Blob fetched successfully from asset cache");
      uri = "https://example.com/b";
      qualifiers = later_request.qualifiers;
      blob_digest = some digest;
    })
pushed_blob_is_served_example =
    pushed_blob_is_served libraries env config cache base (allows "main") (allows "main")
      action_cache ("other" ∷ "main" ∷ []) default_fetcher deployed sha256 base_map lets_through
      lets_through quiet (λ m w. refl) supports_all reports_nothing push_request digest
      "https://example.com/b" refl refl refl stable push_function
      (λ a e.
        new_blob_access_asset_store-IsStorable libraries blob_store 1000 sha256 (serialises sha256)
          blob_map reads_assets a (omega arith))
      servers later_request empty_world after_push started (λ i. (pushes i, after_push)) asks_server
      refl refl

returned_push-IsListed_example :
    (f : DigestFunctionValue) × (get_digest_function libraries sha256 "main" (some digest) ≡ ok f)
    × IsListed libraries env ("other" ∷ "main" ∷ []) "main"
returned_push-IsListed_example =
    returned_push-IsListed libraries env config servers push_request started
      (empty_world, inl pushes)

-- An asset is stored, found, and replaced.
abbrev ops : List Operation
ops =
    get one_uri
    ∷ put one_uri stored_asset
    ∷ get one_uri
    ∷ get two_uris
    ∷ put one_uri (record stored_asset { type = directory })
    ∷ get one_uri
    ∷ []

abbrev authorized_store : AssetStore DigestFunctionValue World
authorized_store = new_authorizing_asset_store libraries base (allows "main") (allows "main")

authorizes : LetsThrough (allows "main") "main" blob_map.view
authorizes = record { allows = λ w. refl; keeps = λ w. refl }

makes_store :
    new_asset_store_from_configuration libraries env.backends action_cache 1000 10 cache
      (allows "main")
      (allows "main")
    ≡ ok authorized_store
unfolding new_asset_store_from_configuration
makes_store = refl

configured_store-outcomes_example :
    outcomes authorized_store sha256 ops empty_world
    ≡ expected ops (λ ref. found (authorized_store.get ref sha256 empty_world).0)
configured_store-outcomes_example =
    configured_store-outcomes libraries blob_store 1000 sha256 (serialises sha256) blob_map
      reads_assets (λ d x w. refl) (allows "main") (allows "main") authorizes authorizes
      env.backends action_cache 10 cache authorized_store ops empty_world refl refl makes_store
      (omega arith, (omega arith, tt))
