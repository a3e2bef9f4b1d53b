-- ===== src/Fetch/RemoteExecution/Client.antt =====
-- The client of the Execution service, and what pkg/fetch/remote_execution_fetcher.go reads of a result.
use bb_remote_asset.Prelude.{
  String, Bool, true, false, not, ◌&&◌, ◌||◌, Option, none, some, List, [], ◌∷◌, ◌==◌,
  if◌then◌else◌,
}
use bb_remote_asset.Prelude.Int.{pos, ltb_ℤ}
use bb_remote_asset.Prelude.Effect.{Status, Error, Result, err, Exec}
use bb_remote_asset.Storage.Messages.{ProtoDigest, OutputFile, OutputDirectory, ActionResult}

pub record ExecuteRequest : Type 0 where
  pub instance_name : String
  pub action_digest : ProtoDigest

-- The fields of ExecuteResponse; the program reads the result alone.
pub record ExecuteResponse : Type 0 where
  pub result : Option ActionResult
  pub status : Option Status

-- longrunning.Operation; `response` is what anypb.UnmarshalTo makes of its response.
pub record Operation : Type 0 where
  pub is_done : Bool
  pub response : Result ExecuteResponse

-- What Recv returns, call by call. The end of the stream is an error too, io.EOF.
pub data OperationStream : Type 0 where
  ended : Error → OperationStream
  received : Operation → OperationStream → OperationStream

-- The client of the Execution service, and the log.
pub record Execution (W : Type 0) : Type 0 where
  pub execute : ExecuteRequest → Exec W OperationStream
  pub printf : String → W → W

-- The loop over the operations, up to one that is done.
unfoldable pub receive : OperationStream → Result ExecuteResponse
receive (ended e) = err none e
receive (received operation rest) =
    let later = receive rest in if operation.is_done then operation.response else later

-- `actionResult.GetExitCode() != 0`; the exit code of nil is zero.
abbrev pub is_failure : Option ActionResult → Bool
is_failure none = false
is_failure (some r) = ltb_ℤ r.exit_code (pos 0) || ltb_ℤ (pos 0) r.exit_code

abbrev pub files_of : Option ActionResult → List OutputFile
files_of none = []
files_of (some r) = r.output_files

abbrev pub directories_of : Option ActionResult → List OutputDirectory
directories_of none = []
directories_of (some r) = r.output_directories

-- The digest of the last output file at the path, `digest` if there is none.
unfoldable pub file_at : String → List OutputFile → Option ProtoDigest → Option ProtoDigest
file_at path [] digest = digest
file_at path (file ∷ files) digest =
    file_at path files (if file.path == path then file.digest else digest)

-- The same of the tree of the last output directory.
unfoldable pub tree_at : String → List OutputDirectory → Option ProtoDigest → Option ProtoDigest
tree_at path [] digest = digest
tree_at path (dir ∷ dirs) digest =
    tree_at path dirs (if dir.path == path then dir.tree_digest else digest)

-- `digest.GetSizeBytes() == 0`; the size of nil is zero.
abbrev pub is_empty_digest : Option ProtoDigest → Bool
is_empty_digest none = true
is_empty_digest (some d) = not (ltb_ℤ d.size_bytes (pos 0)) && not (ltb_ℤ (pos 0) d.size_bytes)
