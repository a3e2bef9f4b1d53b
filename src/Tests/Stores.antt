-- ===== src/Tests/Stores.antt =====
-- The theorems on the stores at concrete inputs.

use bb_remote_asset.Prelude.{◌≡◌, refl, ◌⊎◌, inl, inr, none, arith}
use bb_remote_asset.Prelude.Effect.{ok, Error, err, ◌>>=◌}
use bb_remote_asset.Storage.Messages.{
  sha256, directory, AssetReference, Asset, Message, reference, asset, tree, command, action,
  action_result,
}
use bb_remote_asset.Storage.Digest.{proto_serialise}
use bb_remote_asset.Storage.BlobStore.{get as blob_get, put as blob_put}
use bb_remote_asset.Storage.BlobStore.Refinement.{ReadsAssets, get-put_self}
use bb_remote_asset.Tests.World.{
  World, empty_world, missing, blob_store, blob_map, libraries, serialises, stored_asset, one_uri,
}

pub reads_assets : ReadsAssets libraries sha256 (serialises sha256) 1000
reads_assets = record { read_back = λ a _. refl; read_fails = λ x. reads x }
  where
    reads :
        (x : Message)
        → ((a : Asset) × (libraries.to_asset x 1000 ≡ ok a))
          ⊎ ((e : Error) × (libraries.to_asset x 1000 ≡ err none e))
    reads (reference _) = inr (missing, refl)
    reads (asset a) = inl (a, refl)
    reads (directory _) = inr (missing, refl)
    reads (tree _) = inr (missing, refl)
    reads (command _) = inr (missing, refl)
    reads (action _) = inr (missing, refl)
    reads (action_result _) = inr (missing, refl)

blob_put_returns :
    (ref : AssetReference) (w : World)
    → (blob_put libraries blob_store 1000 ref stored_asset sha256 w).0 ≡ ok tt
unfolding blob_put proto_serialise ◌>>=◌
blob_put_returns ref w = refl

get-put_self_example :
    (blob_get libraries blob_store 1000 one_uri sha256
      (blob_put libraries blob_store 1000 one_uri stored_asset sha256 empty_world).1).0
    ≡ ok stored_asset
get-put_self_example =
    get-put_self libraries blob_store 1000 sha256 (serialises sha256) blob_map reads_assets one_uri
      stored_asset empty_world (omega arith) (blob_put_returns one_uri empty_world)
