-- ===== src/Tests/Fetches.antt =====
-- The theorems on the fetchers at concrete inputs.

use mathlib.Core.List.Perm
use bb_remote_asset.Prelude.{◌≡◌, refl, ap, none, some, [], ◌∷◌}
use bb_remote_asset.Prelude.Effect.{Code, ok, Status, Error, err, status_error, ◌>>=◌}
use bb_remote_asset.Time.{unix_epoch}
use bb_remote_asset.Qualifier.{Qualifier}
use bb_remote_asset.Storage.Messages.{sha256}
use bb_remote_asset.Fetch.Interface.{
  FetchRequest, FetchBlobResponse, FetchDirectoryResponse, Fetcher, ok_status,
}
use bb_remote_asset.Fetch.Utils.{get_digest_function}
use bb_remote_asset.Fetch.Caching.{
  remove_volatile_qualifiers, beside, look_up, fetch_blob, fetch_directory,
}
use bb_remote_asset.Fetch.Caching.Served.{
  IsBlobServed, fetch_blob_is_served, IsDirectoryServed, fetch_directory_is_served,
}
use bb_remote_asset.Fetch.Caching.Refetch.{KeepsInstants}
use bb_remote_asset.Fetch.Caching.Kept.{AsksAgain}
use bb_remote_asset.Fetch.Caching.Stored.{fetch_blob-fetch_blob, fetch_directory-fetch_directory}
use bb_remote_asset.Fetch.Caching.Failed.{
  after_look_up, failed_fetch_blob_is_not_stored, unsuccessful_response_is_not_stored,
}
use bb_remote_asset.Tests.World.{
  World, empty_world, asset_store, asset_map, libraries, clock, digest, label,
}

abbrev pub header : Qualifier
header = record { name = "bazel.auth_headers"; value = "{}" }

abbrev pub request : FetchRequest
request = record {
  instance_name = "main";
  digest_function = sha256;
  uris = "https://example.com/a" ∷ "https://example.com/b" ∷ [];
  qualifiers = header ∷ label ∷ [];
  oldest_content_accepted = none;
}

abbrev pub blob_response : Code → FetchBlobResponse
blob_response code = record {
  status = some (record { code = code; message = "fetched"; details = [] });
  uri = "https://example.com/b";
  qualifiers = label ∷ [];
  blob_digest = some digest;
}

abbrev pub directory_response : FetchDirectoryResponse
directory_response = record {
  status = some (record { code = Code.not_found; message = "fetched"; details = [] });
  uri = "https://example.com/b";
  qualifiers = label ∷ [];
  root_directory_digest = some digest;
}

abbrev pub remote : Code → Fetcher World
remote code = record {
  fetch_blob = λ req w. (ok (blob_response code), w);
  fetch_directory = λ req w. (ok directory_response, w);
  check_qualifiers = λ names. names;
}

abbrev pub broken : Fetcher World
broken = record {
  fetch_blob = λ req w. (err none (status_error Code.unavailable "down"), w);
  fetch_directory = λ req w. (err none (status_error Code.unavailable "down"), w);
  check_qualifiers = λ names. names;
}

abbrev pub later_request : FetchRequest
later_request = record request {
  uris = "https://example.com/b" ∷ [];
  qualifiers = label ∷ header ∷ [];
}

keeps_instants : KeepsInstants libraries
keeps_instants = record { same = λ t. refl }

asks_again :
    AsksAgain libraries asset_store clock sha256
      (asset_map sha256)
      later_request
      "https://example.com/b"
      (label ∷ [])
unfolding get_digest_function remove_volatile_qualifiers
asks_again = record {
  uris = [];
  is_first = refl;
  same_qualifiers = Perm.refl (label ∷ []);
  same_function = refl;
  any_age = refl;
}

same_function : get_digest_function libraries sha256 "main" ≡ ok sha256
unfolding get_digest_function
same_function = refl

abbrev after_blob : World
after_blob = (fetch_blob libraries (remote Code.ok) asset_store clock request empty_world).1

fetches_blob :
    (fetch_blob libraries (remote Code.ok) asset_store clock request empty_world).0
    ≡ ok (blob_response Code.ok)
unfolding fetch_blob ◌>>=◌ get_digest_function beside
fetches_blob = refl

fetch_blob-fetch_blob_example :
    (fetch_blob libraries broken asset_store clock later_request after_blob).0
    ≡ ok (record {
      status = some (ok_status "Blob fetched successfully from asset cache");
      uri = "https://example.com/b";
      qualifiers = label ∷ header ∷ [];
      blob_digest = some digest;
    })
fetch_blob-fetch_blob_example =
    fetch_blob-fetch_blob libraries asset_store clock sha256 (asset_map sha256) (remote Code.ok)
      request same_function empty_world after_blob (blob_response Code.ok) (ok_status "fetched")
      later_request broken keeps_instants (λ uri m. refl) (λ i. (fetches_blob i, after_blob)) refl
      refl (λ a e. tt) asks_again

abbrev after_directory : World
after_directory =
    (fetch_directory libraries (remote Code.ok) asset_store clock request empty_world).1

fetches_directory :
    (fetch_directory libraries (remote Code.ok) asset_store clock request empty_world).0
    ≡ ok directory_response
unfolding fetch_directory ◌>>=◌ get_digest_function beside
fetches_directory = refl

fetch_directory-fetch_directory_example :
    (fetch_directory libraries broken asset_store clock later_request after_directory).0
    ≡ ok (record {
      status = some (ok_status "Directory fetched successfully from asset cache");
      uri = "https://example.com/b";
      qualifiers = label ∷ header ∷ [];
      root_directory_digest = some digest;
    })
fetch_directory-fetch_directory_example =
    fetch_directory-fetch_directory libraries asset_store clock sha256 (asset_map sha256)
      (remote Code.ok) request same_function empty_world after_directory directory_response
      later_request broken keeps_instants (λ uri m. refl)
      (λ i. (fetches_directory i, after_directory)) (λ a e. tt) asks_again

abbrev blob_hit : FetchBlobResponse
blob_hit = record {
  status = some (ok_status "Blob fetched successfully from asset cache");
  uri = "https://example.com/b";
  qualifiers = label ∷ header ∷ [];
  blob_digest = some digest;
}

serves_blob_hit :
    (fetch_blob libraries broken asset_store clock later_request after_blob).0 ≡ ok blob_hit
serves_blob_hit =
    fetch_blob-fetch_blob libraries asset_store clock sha256 (asset_map sha256) (remote Code.ok)
      request same_function empty_world after_blob (blob_response Code.ok) (ok_status "fetched")
      later_request broken keeps_instants (λ uri m. refl) (λ i. (fetches_blob i, after_blob)) refl
      refl (λ a e. tt) asks_again

fetch_blob_is_served_example :
    IsBlobServed libraries broken asset_store clock later_request after_blob blob_hit
fetch_blob_is_served_example =
    fetch_blob_is_served libraries broken asset_store clock later_request blob_hit after_blob
      (fetch_blob libraries broken asset_store clock later_request after_blob).1
      (λ i. (
        serves_blob_hit i,
        (fetch_blob libraries broken asset_store clock later_request after_blob).1,
      ))

abbrev directory_hit : FetchDirectoryResponse
directory_hit = record {
  status = some (ok_status "Directory fetched successfully from asset cache");
  uri = "https://example.com/b";
  qualifiers = label ∷ header ∷ [];
  root_directory_digest = some digest;
}

serves_directory_hit :
    (fetch_directory libraries broken asset_store clock later_request after_directory).0
    ≡ ok directory_hit
serves_directory_hit =
    fetch_directory-fetch_directory libraries asset_store clock sha256 (asset_map sha256)
      (remote Code.ok) request same_function empty_world after_directory directory_response
      later_request broken keeps_instants (λ uri m. refl)
      (λ i. (fetches_directory i, after_directory)) (λ a e. tt) asks_again

fetch_directory_is_served_example :
    IsDirectoryServed libraries broken asset_store clock later_request after_directory directory_hit
fetch_directory_is_served_example =
    fetch_directory_is_served libraries broken asset_store clock later_request directory_hit
      after_directory
      (fetch_directory libraries broken asset_store clock later_request after_directory).1
      (λ i. (
        serves_directory_hit i,
        (fetch_directory libraries broken asset_store clock later_request after_directory).1,
      ))

looks_up :
    after_look_up libraries asset_store clock sha256
      (asset_map sha256)
      broken
      request
      unix_epoch
      empty_world
    ≡ empty_world
unfolding look_up ◌>>=◌
looks_up = refl

failed_fetch_blob_is_not_stored_example :
    (s : Status) × (s.code ≡ Code.unavailable)
    × (fetch_blob libraries broken asset_store clock request empty_world
        ≡ (err none (Error.status s), empty_world))
failed_fetch_blob_is_not_stored_example =
    failed_fetch_blob_is_not_stored libraries asset_store clock sha256 (asset_map sha256) broken
      request unix_epoch empty_world empty_world same_function refl (λ uri m. refl) none
      (status_error Code.unavailable "down") (ap (broken.fetch_blob request) looks_up) refl

unsuccessful_response_is_not_stored_example :
    fetch_blob libraries (remote Code.not_found) asset_store clock request empty_world
    ≡ (ok (blob_response Code.not_found), empty_world)
unsuccessful_response_is_not_stored_example =
    unsuccessful_response_is_not_stored libraries asset_store clock sha256 (asset_map sha256)
      (remote Code.not_found) request unix_epoch empty_world empty_world same_function refl
      (λ uri m. refl) (blob_response Code.not_found)
      (record { code = Code.not_found; message = "fetched"; details = [] })
      (ap ((remote Code.not_found).fetch_blob request) looks_up) refl refl
