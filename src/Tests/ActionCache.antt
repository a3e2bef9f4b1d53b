-- ===== src/Tests/ActionCache.antt =====
-- The theorems on the action cache store at concrete inputs.
use mathlib.Core.List.{Perm}
use bb_remote_asset.Prelude.{
  String, ◌≡◌, refl, ◌↔◌, inl, false, Option, none, some, List, [], ◌∷◌, arith, text_less,
}
use bb_remote_asset.Prelude.Effect.{ok, Error, Result, panic, ◌>>=◌}
use bb_remote_asset.Dict.{lookup, insert}
use bb_remote_asset.Qualifier.{Qualifier}
use bb_remote_asset.Qualifier.Translator.{Command, make_map, git_command, qualifiers_to_command}
use bb_remote_asset.Qualifier.Translator.Laws.{last_value, read_names, AgreeOn}
use bb_remote_asset.Storage.Messages.{
  sha256, directory, AssetReference, Node, Directory, Action, ActionResult, Message, reference,
  action,
}
use bb_remote_asset.Storage.Reference.{new_asset_reference}
use bb_remote_asset.Prelude.Sorting.{sort}
use bb_remote_asset.Qualifier.Sorter.{less}
use bb_remote_asset.Storage.Digest.{proto_serialise, digest_of}
use bb_remote_asset.Storage.ActionCache.Value.{
  is_missing, action_result_to_asset, result_with, directory_to_tree, asset_to_action_result,
}
use bb_remote_asset.Storage.ActionCache.Value.Directories.{
  LeadsTo, nothing, descend, Shows, directory_to_tree_complete,
}
use bb_remote_asset.Storage.ActionCache.{ActionCacheAssetStore, get, put}
use bb_remote_asset.Storage.ActionCache.Key.{qualifier_directory, asset_reference_to_action}
use bb_remote_asset.Storage.ActionCache.Key.Complete.{IsComplete}
use bb_remote_asset.Storage.ActionCache.Key.Laws.{
  key_of, sorted, UsesUris, key_of-AgreeOn, uris_key_injective,
}
use bb_remote_asset.Storage.ActionCache.Value.Laws.{
  forget_expiry, action_result_to_asset-asset_to_action_result, result_digest,
  action_result_to_asset-eq-panic_iff,
}
use bb_remote_asset.Storage.ActionCache.RoundTrip.{ReadsResults, get-put_forgets_expiry}
use bb_remote_asset.Storage.ActionCache.Integrity.{IsUploaded, put-IsUploaded}
use bb_remote_asset.Tests.World.{
  World, empty_world, blob_store, action_cache, blob_map, result_map, libraries, serialises, digest,
  stored_asset, label, git_type, two_uris,
}

abbrev store : ActionCacheAssetStore libraries World
store = record {
  action_cache = action_cache;
  content_addressable_storage = blob_store;
  maximum_message_size_bytes = 1000;
  platform = none;
}

reads_results : ReadsResults libraries sha256 (serialises sha256) 1000
reads_results = record { read_back = λ r _. refl }

action_put_returns : (put libraries store 8 two_uris stored_asset sha256 empty_world).0 ≡ ok tt
unfolding put ◌>>=◌ asset_reference_to_action proto_serialise qualifiers_to_command lookup make_map
    new_asset_reference sort asset_to_action_result
action_put_returns = refl

get-put_forgets_expiry_example :
    (get libraries store 8 two_uris sha256
      (put libraries store 8 two_uris stored_asset sha256 empty_world).1).0
    ≡ ok (forget_expiry libraries stored_asset)
get-put_forgets_expiry_example =
    get-put_forgets_expiry libraries store 8 sha256 (serialises sha256) result_map reads_results
      two_uris stored_asset empty_world refl (λ r w v _. omega arith) action_put_returns

put-IsUploaded_example :
    (key : Action) × (key_of (asset_reference_to_action libraries none two_uris sha256) ≡ ok key)
    × (IsUploaded libraries store 8 sha256
          (serialises sha256)
          blob_map
          (put libraries store 8 two_uris stored_asset sha256 empty_world).1)
        (action key)
    × IsComplete libraries none sha256
        (serialises sha256)
        (IsUploaded libraries store 8 sha256
          (serialises sha256)
          blob_map
          (put libraries store 8 two_uris stored_asset sha256 empty_world).1)
        key
put-IsUploaded_example =
    put-IsUploaded libraries store 8 sha256 (serialises sha256) blob_map (λ d c x w. refl) two_uris
      stored_asset empty_world (put libraries store 8 two_uris stored_asset sha256 empty_world).1
      (λ i.
        (action_put_returns i, (put libraries store 8 two_uris stored_asset sha256 empty_world).1))

abbrev owner : Qualifier
owner = record { name = "owner"; value = "y" }

abbrev ascending : AssetReference
ascending = record { uris = "https://example.com/a" ∷ []; qualifiers = label ∷ owner ∷ [] }

abbrev descending : AssetReference
descending = record { uris = "https://example.com/a" ∷ []; qualifiers = owner ∷ label ∷ [] }

uses_uris : UsesUris ascending × UsesUris descending
unfolding qualifiers_to_command lookup make_map insert new_asset_reference sort less text_less
uses_uris = (
  inl (Error.plain "missing resource_type", refl),
  inl (Error.plain "missing resource_type", refl),
)

uris_key_injective_example :
    (ascending.uris ≡ descending.uris) × Perm ascending.qualifiers descending.qualifiers
unfolding asset_reference_to_action proto_serialise qualifiers_to_command lookup make_map insert
    new_asset_reference sort less text_less digest_of qualifier_directory
uris_key_injective_example =
    uris_key_injective libraries none sha256 (serialises sha256) ascending descending uses_uris.0
      uses_uris.1 (λ _. refl) (λ _. refl) (λ _. refl) refl

abbrev made_result : ActionResult
made_result =
    result_with stored_asset.last_updated
      (record { path = "out"; digest = stored_asset.digest } ∷ []) []

action_result_to_asset-asset_to_action_result_example :
    action_result_to_asset libraries made_result ≡ ok (forget_expiry libraries stored_asset)
unfolding asset_to_action_result
action_result_to_asset-asset_to_action_result_example =
    action_result_to_asset-asset_to_action_result libraries blob_store 1000 sha256 8 stored_asset
      made_result empty_world empty_world refl refl

abbrev unstamped : ActionResult
unstamped = record made_result { execution_metadata = none }

action_result_to_asset-eq-panic_iff_example :
    (action_result_to_asset libraries unstamped ≡ panic)
    ↔ ((is_missing (result_digest unstamped) ≡ false) × (unstamped.execution_metadata ≡ none))
action_result_to_asset-eq-panic_iff_example =
    action_result_to_asset-eq-panic_iff libraries unstamped

abbrev leaf : Directory
leaf = record { files = []; directories = []; unread = "" }

abbrev child : Node
child = record { name = "child"; digest = some digest; unread = "" }

abbrev parent : Directory
parent = record { files = []; directories = child ∷ []; unread = "" }

abbrev leaves : Message → Option Message
leaves (reference _) = some (directory leaf)
leaves _ = none

abbrev leafy_world : World
leafy_world = record empty_world { blobs = leaves }

leads : LeadsTo libraries 1000 sha256 leaves child leaf
leads = record {
  digest = reference (record { uris = "root" ∷ []; qualifiers = [] });
  is_digest = refl;
  buffer = directory leaf;
  is_there = refl;
  is_directory = refl;
}

directory_to_tree_complete_example :
    ((directory_to_tree libraries blob_store 1000 sha256 1 parent leafy_world).0
      ≡ ok (record { root = some parent; children = leaf ∷ [] }))
    × Shows libraries blob_store blob_map 1000 sha256 leaves
        (directory_to_tree libraries blob_store 1000 sha256 1 parent leafy_world).1
directory_to_tree_complete_example =
    directory_to_tree_complete libraries blob_store blob_map 1000 sha256 leaves 1 parent (leaf ∷ [])
      leafy_world (descend leads nothing nothing) (λ d. refl)

abbrev labelled : List Qualifier
labelled = git_type ∷ label ∷ []

agree : AgreeOn read_names (sorted (git_type ∷ [])) (sorted labelled)
unfolding last_value new_asset_reference sort less text_less
agree = (refl, (refl, (refl, (refl, (refl, (refl, tt))))))

abbrev git : String → Result Command
git url = ok (git_command (make_map (git_type ∷ [])) url)

generates : qualifiers_to_command (sorted (git_type ∷ [])) ≡ ok git
unfolding qualifiers_to_command new_asset_reference make_map lookup insert sort
generates = refl

key_of-AgreeOn_example :
    key_of (
      asset_reference_to_action libraries none
        (record { uris = "https://example.com/a" ∷ []; qualifiers = git_type ∷ [] })
        sha256)
    ≡ key_of (
        asset_reference_to_action libraries none
          (record { uris = "https://example.com/a" ∷ []; qualifiers = labelled })
          sha256)
key_of-AgreeOn_example =
    key_of-AgreeOn libraries none sha256 (serialises sha256) "https://example.com/a" (git_type ∷ [])
      labelled git (git_command (make_map (git_type ∷ [])) "https://example.com/a") agree generates
      refl
