-- ===== src/Tests/Executions.antt =====
-- The theorems on the fetches by remote execution at concrete inputs.
use bb_remote_asset.Prelude.{
  ◌≡◌, refl, ◌∙◌, true, false, none, some, [], ◌∷◌, String, concat, ◌==◌, if◌then◌else◌,
}
use bb_remote_asset.Prelude.Int.{pos}
use bb_remote_asset.Prelude.Effect.{Code, ok, plain, err, status_error, ◌>>=◌, Result}
use bb_remote_asset.Dict.{lookup, insert}
use bb_remote_asset.Qualifier.Translator.{
  Command, make_map, git_command, qualifiers_to_command, tree_and_directory,
}
use bb_remote_asset.Storage.Messages.{
  sha256, Directory, Tree, ActionResult, Message, Action, reference, tree, action, command,
}
use bb_remote_asset.Storage.Libraries.{Libraries}
use bb_remote_asset.Storage.Digest.{Serialises, digest_of}
use bb_remote_asset.Fetch.RemoteExecution.Answered.{Answers, Fails, fetch_blob-Answers}
use bb_remote_asset.Fetch.Interface.{
  FetchRequest, FetchBlobResponse, FetchDirectoryResponse, ok_status,
}
use bb_remote_asset.Fetch.Utils.{get_digest_function}
use bb_remote_asset.Fetch.RemoteExecution.{fetch_blob, fetch_directory}
use bb_remote_asset.Fetch.RemoteExecution.Client.{
  receive, file_at, Operation, OperationStream, ended, received, Execution, ExecuteResponse,
}
use bb_remote_asset.Fetch.RemoteExecution.Executed.{IsFetchedBlob, fetch_blob-IsFetchedBlob}
use bb_remote_asset.Fetch.RemoteExecution.Directories.{
  IsFetchedDirectory, fetch_directory-IsFetchedDirectory,
}
use bb_remote_asset.Prelude.Updates.{changed_ne, changed}
use bb_remote_asset.Tests.World.{
  Message-discrete, World, empty_world, blob_store, blob_map, libraries, serialises, digest,
  git_type,
}
use bb_remote_asset.Tests.Fetches.{request}

-- The service tells that it is at work, and then what it made: the asset, as the file "out".
abbrev made : ActionResult
made = record {
  output_files = record { path = "out"; digest = some digest } ∷ [];
  output_directories = [];
  exit_code = pos 0;
  execution_metadata = none;
}

-- The same of a directory, and of an action that failed.
abbrev made_directory : ActionResult
made_directory = record {
  output_files = [];
  output_directories =
      record { path = "out"; tree_digest = some digest; root_directory_digest = none } ∷ [];
  exit_code = pos 0;
  execution_metadata = none;
}

abbrev at_work : Operation
at_work = record { is_done = false; response = err none (plain "not done") }

abbrev done : ActionResult → Operation
done r = record { is_done = true; response = ok (record { result = some r; status = none }) }

abbrev answers : ActionResult → OperationStream
answers r = received at_work (received (done r) (ended (plain "EOF")))

abbrev service : ActionResult → Execution World
service r = record { execute = λ _ w. (ok (answers r), w); printf = λ _ w. w }

abbrev git_request : FetchRequest
git_request = record request { qualifiers = git_type ∷ [] }

abbrev after_execution : World
after_execution = (fetch_blob libraries blob_store (service made) git_request empty_world).1

abbrev executed : FetchBlobResponse
executed = record {
  status = some (ok_status "Blob fetched successfully!");
  uri = "https://example.com/a";
  qualifiers = git_type ∷ [];
  blob_digest = some digest;
}

executes : (fetch_blob libraries blob_store (service made) git_request empty_world).0 ≡ ok executed
unfolding fetch_blob ◌>>=◌ get_digest_function lookup make_map insert git_command
executes = refl

fetch_blob-IsFetchedBlob_example :
    IsFetchedBlob libraries blob_store (service made) serialises blob_map git_request executed
fetch_blob-IsFetchedBlob_example =
    fetch_blob-IsFetchedBlob libraries blob_store (service made) serialises blob_map git_request
      empty_world after_execution executed (λ i. (executes i, after_execution))

-- A tree of two directories, under the digest that the service returns.
abbrev leaf : Directory
leaf = record { files = []; directories = []; unread = "leaf" }

abbrev root_directory : Directory
root_directory = record { files = []; directories = []; unread = "root" }

abbrev stored_tree : Tree
stored_tree = record { root = some root_directory; children = leaf ∷ [] }

abbrev tree_key : Message
tree_key = reference (record { uris = "root" ∷ []; qualifiers = [] })

abbrev tree_world : World
tree_world = record empty_world { blobs = λ _. some (tree stored_tree) }

-- The put of a command and its action does not change what is under the key.
read :
    (c : Command) (a : Action) (x y : Message)
    → changed Message-discrete
        (command c)
        x
        (changed Message-discrete (action a) y tree_world.blobs)
        tree_key
      ≡ some (tree stored_tree)
read c a x y =
    changed_ne Message-discrete (command c) tree_key x _ (λ e. cc e)
    ∙ changed_ne Message-discrete (action a) tree_key y _ (λ e. cc e)

abbrev directory_executed : FetchDirectoryResponse
directory_executed = record {
  status = some (ok_status "Directory fetched successfully!");
  uri = "https://example.com/a";
  qualifiers = git_type ∷ [];
  root_directory_digest = some (record { hash = "hash"; size_bytes = pos 0 });
}

abbrev after_directory_execution : World
after_directory_execution =
    (fetch_directory libraries blob_store (service made_directory) 1000 git_request tree_world).1

executes_directory :
    (fetch_directory libraries blob_store (service made_directory) 1000 git_request tree_world).0
    ≡ ok directory_executed
unfolding fetch_directory ◌>>=◌ get_digest_function lookup make_map insert git_command
executes_directory = rw (read _ _ _ _) refl

is_sha256 : get_digest_function libraries sha256 "main" ≡ ok sha256
unfolding get_digest_function
is_sha256 = refl

fetch_directory-IsFetchedDirectory_example :
    IsFetchedDirectory libraries blob_store
      (service made_directory)
      sha256
      (serialises sha256)
      blob_map
      1000
      git_request
      directory_executed
      after_directory_execution
fetch_directory-IsFetchedDirectory_example =
    fetch_directory-IsFetchedDirectory libraries blob_store (service made_directory) sha256
      (serialises sha256) blob_map 1000 git_request tree_world after_directory_execution
      directory_executed is_sha256 (λ i. (executes_directory i, after_directory_execution))

-- An action that fails is followed by the next URI; the last file at the path counts.
abbrev failed_result : ActionResult
failed_result = record made { exit_code = pos 1 }

no_success :
    (fetch_blob libraries blob_store (service failed_result) git_request empty_world).0
    ≡ err none (status_error Code.not_found "Unable to download blob from any of the provided URIs")
unfolding fetch_blob ◌>>=◌ get_digest_function lookup make_map insert git_command
no_success = refl

-- An output file without content is not found.
empty_file :
    (fetch_blob libraries blob_store
      (service (record made {
        output_files =
            record { path = "out"; digest = some (record digest { size_bytes = pos 0 }) } ∷ [];
      }))
      git_request
      empty_world).0
    ≡ err none (status_error Code.not_found "Unable to fetch blob from any of the URIs specified")
unfolding fetch_blob ◌>>=◌ get_digest_function lookup make_map insert git_command
empty_file = refl

-- Digests that tell what is run.
abbrev name_of : Message → String
name_of (command c) = concat c.arguments
name_of (action a) = a.command_digest.hash
name_of _ = "message"

abbrev naming_libraries : Libraries
naming_libraries = record libraries {
  get_proto = λ m. record { hash = name_of m; size_bytes = pos 0 };
}

abbrev naming_serialises : Serialises naming_libraries sha256
naming_serialises = record {
  size_of = λ _. 0;
  bytes_of = λ m. m;
  written = λ _ b. b;
  hash = λ b. b;
  has_size = λ m. refl;
  has_bytes = λ m. refl;
  writes = λ n b. refl;
  sums = λ n b. refl;
  no_collision = λ m n e. e;
}

abbrev generates : String → Result Command
generates uri = ok (git_command (make_map (git_type ∷ [])) uri)

abbrev clone : String → Command
clone uri = record {
  arguments = "sh" ∷ "-c" ∷ concat ("git clone " ∷ uri ∷ " out" ∷ []) ∷ [];
  output_paths = "out" ∷ [];
  output_directory_format = tree_and_directory;
  platform = none;
}

-- It fails for the first of the URIs.
abbrev choosy : Execution World
choosy = record {
  execute = λ r w.
      if r.action_digest.hash == name_of (command (clone "https://example.com/a"))
      then (ok (answers failed_result), w)
      else (ok (answers made), w);
  printf = λ _ w. w;
}

abbrev response_of : ActionResult → ExecuteResponse
response_of r = record { result = some r; status = none }

puts_return : (d x : Message) (w : World) → (blob_store.put d x w).0 ≡ ok tt
puts_return d x w = refl

first_uri :
    Fails naming_libraries blob_store choosy sha256 naming_serialises puts_return git_request
      generates "https://example.com/a"
unfolding git_command lookup make_map insert digest_of receive
first_uri = record {
  command_of_uri = clone "https://example.com/a";
  response = response_of failed_result;
  answers = record { is_command = refl; is_executed = λ w. (answers failed_result, w, refl, refl) };
  is_failed = refl;
}

second_answers :
    Answers naming_libraries blob_store choosy sha256 naming_serialises puts_return git_request
      generates "https://example.com/b"
      (clone "https://example.com/b")
      (response_of made)
unfolding git_command lookup make_map insert digest_of receive
second_answers = record { is_command = refl; is_executed = λ w. (answers made, w, refl, refl) }

named_function : get_digest_function naming_libraries sha256 "main" ≡ ok sha256
unfolding get_digest_function
named_function = refl

is_generator : qualifiers_to_command (git_type ∷ []) ≡ ok generates
unfolding qualifiers_to_command lookup make_map insert
is_generator = refl

fetch_blob-Answers_example :
    (fetch_blob naming_libraries blob_store choosy git_request empty_world).0
    ≡ ok (record {
      status = some (ok_status "Blob fetched successfully!");
      uri = "https://example.com/b";
      qualifiers = git_type ∷ [];
      blob_digest = some digest;
    })
unfolding file_at
fetch_blob-Answers_example =
    fetch_blob-Answers naming_libraries blob_store choosy sha256 naming_serialises puts_return
      git_request generates "https://example.com/b" (clone "https://example.com/b")
      (response_of made) "out" second_answers refl refl ("https://example.com/a" ∷ []) []
      (some digest) empty_world named_function is_generator refl (first_uri, tt) refl refl
