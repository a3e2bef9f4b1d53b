-- ===== src/Tests/Pushes.antt =====
-- The theorems on pushes at concrete inputs.
use mathlib.Core.List.{Perm}
use mathlib.Core.List.Perm
use bb_remote_asset.Prelude.{
  ℕ, suc, String, ◌≡◌, refl, Bool, true, false, none, some, List, [], ◌∷◌, text_less,
}
use bb_remote_asset.Prelude.Effect.{Code, ok, ◌>>=◌}
use bb_remote_asset.Prelude.Sorting.{sort}
use bb_remote_asset.Prelude.Int.{pos}
use bb_remote_asset.Time.{Clock, local}
use bb_remote_asset.Qualifier.{Qualifier}
use bb_remote_asset.Storage.Messages.{sha256}
use bb_remote_asset.Storage.Reference.{new_asset_reference}
use bb_remote_asset.Fetch.Interface.{ok_status}
use bb_remote_asset.Fetch.Utils.{get_digest_function as fetch_digest_function}
use bb_remote_asset.Fetch.Caching.{fetch_blob, fetch_directory, remove_volatile_qualifiers}
use bb_remote_asset.Fetch.Caching.Kept.{AsksAgain}
use bb_remote_asset.Push.{PushRequest, PushServer, get_digest_function, push_blob, push_directory}
use bb_remote_asset.Fetch.Metrics.{Metric, duration, blob_size}
use bb_remote_asset.Push.Metrics.{
  new_metrics_asset_push_server, IsTransparent, new_metrics_asset_push_server-IsTransparent,
}
use bb_remote_asset.Push.Served.{fetch_blob-push_blob, fetch_directory-push_directory}
use bb_remote_asset.Tests.World.{
  World, empty_world, asset_store, asset_map, libraries, clock, digest, label,
}
use bb_remote_asset.Tests.Fetches.{broken, later_request}

abbrev pub push_request : PushRequest
push_request = record {
  instance_name = "main";
  digest_function = sha256;
  uris = "https://example.com/b" ∷ "https://example.com/a" ∷ [];
  qualifiers = label ∷ [];
  expire_at = none;
  digest = some digest;
}

pub push_function : get_digest_function libraries sha256 "main" (some digest) ≡ ok sha256
unfolding get_digest_function
push_function = refl

pub stable : Perm (remove_volatile_qualifiers (label ∷ [])) (label ∷ [])
unfolding remove_volatile_qualifiers
stable = Perm.refl (label ∷ [])

asks_pushed :
    AsksAgain libraries asset_store clock sha256
      (asset_map sha256)
      later_request
      "https://example.com/b"
      (label ∷ [])
unfolding fetch_digest_function remove_volatile_qualifiers
asks_pushed = record {
  uris = [];
  is_first = refl;
  same_qualifiers = Perm.refl (label ∷ []);
  same_function = refl;
  any_age = refl;
}

abbrev allow_all : String → Bool
allow_all name = true

abbrev allow_none : String → Bool
allow_none name = false

abbrev after_blob : World
after_blob = (push_blob libraries asset_store clock allow_all push_request empty_world).1

pushes_blob : (push_blob libraries asset_store clock allow_all push_request empty_world).0 ≡ ok tt
unfolding push_blob ◌>>=◌ get_digest_function new_asset_reference sort text_less
pushes_blob = refl

fetch_blob-push_blob_example :
    (fetch_blob libraries broken asset_store clock later_request after_blob).0
    ≡ ok (record {
      status = some (ok_status "Blob fetched successfully from asset cache");
      uri = "https://example.com/b";
      qualifiers = later_request.qualifiers;
      blob_digest = some digest;
    })
fetch_blob-push_blob_example =
    fetch_blob-push_blob libraries asset_store clock allow_all sha256 push_request push_function
      (asset_map sha256) (λ w r. refl) (λ a e. tt) empty_world after_blob "https://example.com/b"
      broken later_request (λ i. (pushes_blob i, after_blob)) refl refl stable asks_pushed

abbrev after_directory : World
after_directory = (push_directory libraries asset_store clock allow_all push_request empty_world).1

pushes_directory :
    (push_directory libraries asset_store clock allow_all push_request empty_world).0 ≡ ok tt
unfolding push_directory ◌>>=◌ get_digest_function new_asset_reference sort text_less
pushes_directory = refl

fetch_directory-push_directory_example :
    (fetch_directory libraries broken asset_store clock later_request after_directory).0
    ≡ ok (record {
      status = some (ok_status "Directory fetched successfully from asset cache");
      uri = "https://example.com/b";
      qualifiers = later_request.qualifiers;
      root_directory_digest = some digest;
    })
fetch_directory-push_directory_example =
    fetch_directory-push_directory libraries asset_store clock allow_all sha256 push_request
      push_function (asset_map sha256) (λ w r. refl) (λ a e. tt) empty_world after_directory
      "https://example.com/b" broken later_request (λ i. (pushes_directory i, after_directory)) refl
      refl stable asks_pushed

-- A world that counts the pushes and lists the metrics.
record Counted : Type 0 where
  pushes : ℕ
  metrics : List Metric

abbrev counting_server : PushServer Counted
counting_server = record {
  push_blob = λ req w. (ok tt, record w { pushes = suc w.pushes });
  push_directory = λ req w. (ok tt, record w { pushes = suc w.pushes });
}

abbrev still_clock : Clock Counted
still_clock = record { now = λ w. (record { instant = pos 100; location = local }, w) }

-- What an accepted push leaves in the slice of qualifiers.
abbrev sorted_qualifiers : PushRequest → Counted → List Qualifier
sorted_qualifiers req w = (new_asset_reference req.uris req.qualifiers).qualifiers

abbrev list_metric : Metric → Counted → Counted
list_metric metric w = record w { metrics = metric ∷ w.metrics }

abbrev metrics_server : PushServer Counted
metrics_server =
    new_metrics_asset_push_server counting_server sorted_qualifiers sorted_qualifiers still_clock
      list_metric

abbrev uncounted : Counted
uncounted = record { pushes = 0; metrics = [] }

counts_and_lists : (metrics_server.push_blob push_request uncounted).1 ≡ record {
  pushes = 1;
  metrics =
      duration "PushBlob" Code.ok "N/A" (still_clock.now uncounted).0 (still_clock.now uncounted).0
      ∷ blob_size "N/A" digest.size_bytes
      ∷ [];
}
unfolding new_metrics_asset_push_server new_asset_reference sort text_less
counts_and_lists = refl

new_metrics_asset_push_server-IsTransparent_example :
    IsTransparent counting_server sorted_qualifiers sorted_qualifiers still_clock list_metric
      (λ (w : Counted). w.pushes)
      (λ w. refl)
      (λ m w. refl)
      (metrics_server.push_blob push_request)
      (counting_server.push_blob push_request)
      uncounted
    × IsTransparent counting_server sorted_qualifiers sorted_qualifiers still_clock list_metric
        (λ (w : Counted). w.pushes)
        (λ w. refl)
        (λ m w. refl)
        (metrics_server.push_directory push_request)
        (counting_server.push_directory push_request)
        uncounted
new_metrics_asset_push_server-IsTransparent_example =
    new_metrics_asset_push_server-IsTransparent counting_server sorted_qualifiers sorted_qualifiers
      still_clock list_metric (λ (w : Counted). w.pushes) (λ w. refl) (λ m w. refl) push_request
      uncounted
