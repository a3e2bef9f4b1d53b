-- ===== src/Tests/Configurations.antt =====
-- The theorem on the configured stack at a concrete input.
use bb_remote_asset.Prelude.{some, refl}
use bb_remote_asset.Configuration.{Services, decorate}
use bb_remote_asset.Configuration.Laws.{LeavesAlone, FailsQuietly, decorate-FailsQuietly}
use bb_remote_asset.Tests.World.{World, empty_world, libraries, asset_store, clock, allows}
use bb_remote_asset.Tests.Fetches.{request}
use bb_remote_asset.Tests.Decorators.{takes_details, reports, supported, selective, silent, ignore}

abbrev services : Services libraries World
services = record {
  asset_store = some asset_store;
  clock = clock;
  printf = silent;
  blob_uris = λ req w. req.uris;
  directory_uris = λ req w. req.uris;
  observe = ignore;
  authorizer = allows "main";
}

quiet : LeavesAlone libraries services selective (λ (w : World). w.assets)
quiet = record { clock = λ w. refl; printf = λ line w. refl; observe = λ m w. refl }

decorate-FailsQuietly_example :
    FailsQuietly libraries services selective
      (λ (w : World). w.assets)
      empty_world
      ((decorate libraries services selective).fetch_blob request)
      empty_world
    × FailsQuietly libraries services selective
        (λ (w : World). w.assets)
        empty_world
        ((decorate libraries services selective).fetch_directory request)
        empty_world
decorate-FailsQuietly_example =
    decorate-FailsQuietly libraries services selective supported reports takes_details
      (λ (w : World). w.assets) quiet request "main" empty_world empty_world refl refl refl
