-- ===== src/Storage/ActionCache/Value.antt =====
-- `assetToActionResult`, `actionResultToAsset` and the conversion of directories to trees.
pub mod Laws
pub mod Directories
use bb_remote_asset.Prelude.{
  ℕ, zero, suc, String, ◌≡◌, refl, ◌∙◌, Bool, true, Option, none, some, List, [], ◌∷◌, ◌++◌, ◌==◌,
  if◌then◌else◌, concat,
}
use bb_remote_asset.Prelude.Int.{pos}
use bb_remote_asset.Prelude.Effect.{
  Code, ok, Error, Result, err, panic, status_error, Exec, pure, raise, crash, lift, ◌>>=◌, ◌>>◌,
  Ensures,
}
use bb_remote_asset.Time.{Timestamp}
use bb_remote_asset.Storage.Messages.{
  ProtoDigest, AssetType, blob, directory, other, Asset, Node, Directory, Tree, OutputFile,
  OutputDirectory, ExecutionMetadata, ActionResult, tree,
}
use bb_remote_asset.Storage.Libraries.{Libraries, BlobAccess}
use bb_remote_asset.Storage.Asset.{get_default_timestamp}
use bb_remote_asset.Storage.Digest.{proto_serialise}

-- `if err != nil { return nil, change(err) }`
abbrev pub on_error {ℓ} : {A : Type ℓ} → (Error → Error) → Result A → Result A
on_error change (ok a) = ok a
on_error change (err _ e) = err none (change e)
on_error change panic = panic

module _ {W A : Type 0} where
  abbrev pub change_error : (Error → Error) → Exec W A → Exec W A
  change_error change m w = let (r, w') = m w in (on_error change r, w')

module _ {W A : Type 0} {w : W} {Q : A → W → Type 0} where
  -- What holds after the action holds after it with its errors changed.
  pub Ensures-change_error :
      (change : Error → Error) (m : Exec W A) → Ensures w m Q → Ensures w (change_error change m) Q
  Ensures-change_error change m k = record { at = λ a v h. go (m w) refl a v h }
    where
      go :
          (r : Result A × W)
          → m w ≡ r
          → (a : A) (v : W) → ◌≡◌ {A = Result A × W} (on_error change r.0, r.1) (ok a, v)
          → Q a v
      go (ok b, u) e a v h = k.at a v (e ∙ h)
      go (err x y, u) e a v h = cc
      go (panic, u) e a v h = cc

-- The path of the only output of an action for an asset.
abbrev pub out_path : String
out_path = "out"

-- The digest of the last output directory called "out", `digest` if there is none.
unfoldable pub last_directory : List OutputDirectory → Option ProtoDigest → Option ProtoDigest
last_directory [] digest = digest
last_directory (dir ∷ dirs) digest =
    last_directory dirs (if dir.path == out_path then dir.root_directory_digest else digest)

unfoldable pub last_file : List OutputFile → Option ProtoDigest → Option ProtoDigest
last_file [] digest = digest
last_file (file ∷ files) digest =
    last_file files (if file.path == out_path then file.digest else digest)

-- `digest == nil || digest.Hash == ""`
abbrev pub is_missing : Option ProtoDigest → Bool
is_missing none = true
is_missing (some d) = d.hash == ""

module _ (l : Libraries) where
  -- `a.ExecutionMetadata.QueuedTimestamp` panics if there is no metadata.
  abbrev cached_asset : Option ProtoDigest → AssetType → Option ExecutionMetadata → Result Asset
  cached_asset digest asset_type none = panic
  cached_asset digest asset_type (some metadata) = ok (record {
    digest = digest;
    expire_at = some (get_default_timestamp l);
    last_updated = metadata.queued_timestamp;
    type = asset_type;
  })

  abbrev file_asset : Option ProtoDigest → Option ExecutionMetadata → Result Asset
  file_asset digest metadata =
      if is_missing digest
      then err none (
          status_error Code.invalid_argument
            "could not find digest (either directory or blob) in ActionResult")
      else cached_asset digest blob metadata

  -- `actionResultToAsset`
  unfoldable pub action_result_to_asset : ActionResult → Result Asset
  unfolding last_directory last_file get_default_timestamp
  action_result_to_asset a =
      let digest =
        last_directory a.output_directories (some (record { hash = ""; size_bytes = pos 0 })) in
      if is_missing digest
      then file_asset (last_file a.output_files digest) a.execution_metadata
      else cached_asset digest directory a.execution_metadata

-- The action result for these outputs.
abbrev pub result_with : Option Timestamp → List OutputFile → List OutputDirectory → ActionResult
result_with last_updated files directories = record {
  output_files = files;
  output_directories = directories;
  exit_code = pos 0;
  execution_metadata = some (record { queued_timestamp = last_updated });
}

module _ (l : Libraries) {W : Type 0} (content_addressable_storage : BlobAccess l.Digest l.Buffer W)
    (maximum_message_size_bytes : ℕ) (f : l.Function) where
  -- A digest is looked up and read as a directory.
  unfoldable pub get_directory : l.Digest → Exec W Directory
  get_directory digest = do
    b ← content_addressable_storage.get digest
    lift (l.to_directory b maximum_message_size_bytes)

  -- The loop over the child nodes; `visit` lists what is below one of them.
  unfoldable pub append_children :
      (Node → Exec W (List Directory)) → List Node → List Directory → Exec W (List Directory)
  append_children visit [] directories = pure directories
  append_children visit (node ∷ nodes) directories = do
    children ← visit node
    append_children visit nodes (directories ++ children)

  -- `directoryNodeToDirectories`. The number counts the nested calls that the stack still holds;
  -- when it overflows the program crashes.
  unfoldable pub directory_node_to_directories : ℕ → Node → Exec W (List Directory)
  directory_node_to_directories zero node = crash
  directory_node_to_directories (suc stack) node = do
    digest ← lift (l.new_digest_from_proto f node.digest)
    d ← get_directory digest
    append_children (directory_node_to_directories stack) d.directories (d ∷ [])

  -- `directoryToTree`
  unfoldable pub directory_to_tree : ℕ → Directory → Exec W Tree
  unfolding directory_node_to_directories append_children
  directory_to_tree stack d = do
    children ← append_children (directory_node_to_directories stack) d.directories []
    pure (record { root = some d; children = children })

  abbrev not_a_directory : Error → Error
  not_a_directory e = l.status_wrap e "digest in directory asset does not reference a Directory"

  abbrev no_tree : Error → Error
  no_tree e = status_error Code.invalid_argument (
      concat (
        "Failed to convert directory to tree (one of the subdirs is not in the CAS?): "
        ∷ l.error_text e
        ∷ []))

  -- The branch of a directory asset.
  unfoldable pub directory_result : ℕ → Asset → Exec W ActionResult
  directory_result stack a = do
    digest ← lift (l.new_digest_from_proto f a.digest)
    d ← change_error not_a_directory (get_directory digest)
    t ← change_error no_tree (directory_to_tree stack d)
    (tree_pb, tree_digest) ← lift (proto_serialise l (tree t) f)
    _ ← content_addressable_storage.put tree_digest tree_pb
    pure (
        result_with a.last_updated [] (
          record {
            path = out_path;
            root_directory_digest = a.digest;
            tree_digest = some (l.get_proto tree_digest);
          }
          ∷ []))

  -- The branches on the type of the asset.
  unfoldable pub typed_result : ℕ → Asset → AssetType → Exec W ActionResult
  typed_result stack a directory = directory_result stack a
  typed_result stack a blob =
      pure (result_with a.last_updated (record { path = out_path; digest = a.digest } ∷ []) [])
  typed_result stack a (other n) = raise (
      status_error Code.invalid_argument
        (concat ("unknown asset Type " ∷ l.type_text (other n) ∷ [])))

  -- `assetToActionResult`
  unfoldable pub asset_to_action_result : ℕ → Asset → Exec W ActionResult
  unfolding typed_result directory_result directory_to_tree
  asset_to_action_result stack a = typed_result stack a a.type
