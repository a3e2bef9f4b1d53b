-- ===== src/Fetch/RemoteExecution.antt =====
-- pkg/fetch/remote_execution_fetcher.go: assets are fetched by actions of a remote execution
-- service. What Execute streams back is the operations up to the end of the stream or an error.
pub mod Client
pub mod Executed
pub mod Answered
pub mod Directories
use bb_remote_asset.Prelude.{
  ℕ, String, Bool, Option, none, some, List, [], ◌∷◌, ◌==◌, if◌then◌else◌, any, concat,
}
use bb_remote_asset.Prelude.Effect.{
  Code, ok, Status, Error, status, Result, err, panic, status_error, Exec, pure, raise, lift, ◌>>=◌,
  ◌>>◌,
}
use bb_remote_asset.Qualifier.Translator.{Command, qualifiers_to_command}
use bb_remote_asset.Storage.Messages.{
  ProtoDigest, unknown, directory, Directory, Tree, Action, OutputFile, OutputDirectory,
  ActionResult, command, action, action_result,
}
use bb_remote_asset.Storage.Libraries.{Libraries, BlobAccess}
use bb_remote_asset.Storage.Digest.{proto_serialise, empty_digest}
use bb_remote_asset.Fetch.Interface.{
  FetchRequest, FetchBlobResponse, FetchDirectoryResponse, Fetcher, ok_status,
}
use bb_remote_asset.Fetch.Utils.{get_digest_function}
use bb_remote_asset.Fetch.Supported.{execution_check_qualifiers}
use bb_remote_asset.Fetch.RemoteExecution.Client.{
  ExecuteResponse, Execution, receive, is_failure, files_of, directories_of, file_at, tree_at,
  is_empty_digest,
}

-- What `fetchCommon` returns: the action result, the URI that was fetched and the output path.
pub record Fetched : Type 0 where
  pub action_result : Option ActionResult
  pub uri : String
  pub output_path : String

-- `command.OutputPaths[0]`
abbrev pub first_path : List String → Result String
first_path [] = panic
first_path (path ∷ _) = ok path

module _ (l : Libraries) {W : Type 0} (content_addressable_storage : BlobAccess l.Digest l.Buffer W)
    (execution : Execution W) where
  -- The action for a command: its input root is empty.
  abbrev pub action_for : l.Function → l.Digest → Action
  action_for f command_digest = record {
    command_digest = l.get_proto command_digest;
    input_root_digest = l.get_proto (empty_digest l f);
    platform = none;
  }

  -- The body of the loop over the URIs, up to the response of the execution.
  unfoldable pub run : String → l.Function → Command → Exec W ExecuteResponse
  unfolding receive empty_digest proto_serialise
  run instance_name f c = do
    (command_pb, command_digest) ← lift (proto_serialise l (command c) f)
    (action_pb, action_digest) ← lift (proto_serialise l (action (action_for f command_digest)) f)
    _ ← content_addressable_storage.put action_digest action_pb
    _ ← content_addressable_storage.put command_digest command_pb
    stream ←
        execution.execute
          (record { instance_name = instance_name; action_digest = l.get_proto action_digest })
    lift (receive stream)

  abbrev pub not_found : Error
  not_found = status_error Code.not_found "Unable to download blob from any of the provided URIs"

  -- `Remote execution fetch was unsuccessful for URI: %v`
  abbrev pub log_failure : String → W → W
  log_failure uri =
      execution.printf (concat ("Remote execution fetch was unsuccessful for URI: " ∷ uri ∷ []))

  unfoldable pub try_uris :
      String → l.Function → (String → Result Command) → List String → Exec W Fetched
  unfolding run
  try_uris instance_name f generator [] = raise not_found
  try_uris instance_name f generator (uri ∷ uris) = lift (generator uri) >>= λ c.
      run instance_name f c >>= λ response.
      if is_failure response.result
      then (λ w. try_uris instance_name f generator uris (log_failure uri w))
      else lift (first_path c.output_paths) >>= λ path.
          pure (record { action_result = response.result; uri = uri; output_path = path })

  -- `fetchCommon`
  unfoldable pub fetch_common : FetchRequest → l.Function → Exec W Fetched
  unfolding try_uris qualifiers_to_command
  fetch_common req f = lift (qualifiers_to_command req.qualifiers) >>= λ generator.
      try_uris req.instance_name f generator req.uris

  abbrev pub empty_proto : l.Function → Option ProtoDigest
  empty_proto f = some (l.get_proto (empty_digest l f))

  -- What was fetched is not of the kind that was asked for.
  abbrev wrong_kind : String → Error
  wrong_kind message = status_error Code.aborted message

  abbrev status_of : String → Option Status
  status_of message = some (record { code = Code.aborted; message = message; details = [] })

  abbrev pub is_file_path : String → List OutputFile → Bool
  is_file_path path = any (λ file. file.path == path)

  abbrev pub is_directory_path : String → List OutputDirectory → Bool
  is_directory_path path = any (λ dir. dir.path == path)

  -- There is no blob at the path. An error is returned beside the response if a directory is.
  abbrev pub no_blob : FetchRequest → Fetched → Exec W FetchBlobResponse
  no_blob req fetched w =
      if is_directory_path fetched.output_path (directories_of fetched.action_result)
      then (
        err
            (some (record {
              status = status_of "Expected blob but downloaded directory";
              uri = fetched.uri;
              qualifiers = req.qualifiers;
              blob_digest = none;
            }))
            (wrong_kind "Expected blob but downloaded directory"),
        w,
      )
      else (
        err none
            (status_error Code.not_found "Unable to fetch blob from any of the URIs specified"),
        w,
      )

  -- `FetchBlob`
  unfoldable pub fetch_blob : FetchRequest → Exec W FetchBlobResponse
  unfolding fetch_common file_at empty_digest get_digest_function
  fetch_blob req = lift (get_digest_function l req.digest_function req.instance_name) >>= λ f.
      fetch_common req f >>= λ fetched.
      let digest = file_at fetched.output_path (files_of fetched.action_result) (empty_proto f) in
      if is_empty_digest digest
      then no_blob req fetched
      else pure (record {
        status = some (ok_status "Blob fetched successfully!");
        uri = fetched.uri;
        qualifiers = req.qualifiers;
        blob_digest = digest;
      })

  abbrev pub no_directory : FetchRequest → Fetched → Exec W (FetchDirectoryResponse)
  no_directory req fetched w =
      if is_file_path fetched.output_path (files_of fetched.action_result)
      then (
        err
            (some (record {
              status = status_of "Expected directory but downloaded file";
              uri = fetched.uri;
              qualifiers = req.qualifiers;
              root_directory_digest = none;
            }))
            (wrong_kind "Expected directory but downloaded file"),
        w,
      )
      else (
        err none (
            status_error Code.not_found "Unable to fetch directory from any of the URIs specified"),
        w,
      )

  -- A nil root is serialised like a directory without anything in it.
  abbrev pub root_of : Option Directory → Directory
  root_of none = record { files = []; directories = []; unread = "" }
  root_of (some d) = d

  -- A directory is put into the CAS; its digest is returned.
  unfoldable pub put_directory : l.Function → Directory → Exec W l.Digest
  unfolding proto_serialise
  put_directory f d = do
    (pb, digest) ← lift (proto_serialise l (directory d) f)
    _ ← content_addressable_storage.put digest pb
    pure digest

  -- The loop over the children of the tree.
  unfoldable pub put_children : l.Function → List Directory → Exec W (Unit {0})
  unfolding put_directory
  put_children f [] = pure tt
  put_children f (child ∷ children) = do _ ← put_directory f child; put_children f children

  module _ (maximum_message_size_bytes : ℕ) where
    -- The tree under a digest.
    unfoldable pub get_tree : l.Function → Option ProtoDigest → Exec W Tree
    get_tree f digest = do
      tree_digest ← lift (l.new_digest_from_proto f digest)
      b ← content_addressable_storage.get tree_digest
      lift (l.to_tree b maximum_message_size_bytes)

    -- The directories of the tree are put into the CAS; the digest of its root is returned.
    unfoldable pub put_tree : l.Function → Tree → Exec W l.Digest
    unfolding put_children
    put_tree f t = do
      root_digest ← put_directory f (root_of t.root)
      _ ← put_children f t.children
      pure root_digest

    -- The request that is made of one for a directory.
    abbrev pub blob_request : FetchRequest → FetchRequest
    blob_request req = record {
      instance_name = req.instance_name;
      digest_function = unknown;
      uris = req.uris;
      qualifiers = req.qualifiers;
      oldest_content_accepted = none;
    }

    -- `FetchDirectory`
    unfoldable pub fetch_directory : FetchRequest → Exec W FetchDirectoryResponse
    unfolding fetch_common tree_at empty_digest get_tree put_tree get_digest_function
    fetch_directory req =
        lift (get_digest_function l req.digest_function req.instance_name) >>= λ f.
        fetch_common (blob_request req) f >>= λ fetched.
        let digest =
          tree_at fetched.output_path (directories_of fetched.action_result) (empty_proto f) in
        if is_empty_digest digest
        then no_directory req fetched
        else get_tree f digest >>= λ t. put_tree f t >>= λ root_digest. pure (record {
          status = some (ok_status "Directory fetched successfully!");
          uri = fetched.uri;
          qualifiers = req.qualifiers;
          root_directory_digest = some (l.get_proto root_digest);
        })

    -- `NewRemoteExecutionFetcher`
    unfoldable pub new_remote_execution_fetcher : Fetcher W
    unfolding fetch_blob fetch_directory execution_check_qualifiers
    new_remote_execution_fetcher = record {
      fetch_blob = fetch_blob;
      fetch_directory = fetch_directory;
      check_qualifiers = execution_check_qualifiers;
    }
