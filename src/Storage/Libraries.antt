-- ===== src/Storage/Libraries.antt =====
-- The code outside the repository that the stores call: the digest and buffer packages of
-- bb-storage, its error wrapping, and the protobuf timestamps. The program is modelled for every
-- choice of them.
use bb_remote_asset.Prelude.{ℕ, String, Option, List}
use bb_remote_asset.Prelude.Effect.{Code, FieldViolation, Status, Error, Result, Exec}
use bb_remote_asset.Prelude.Int.{ℤ}
use bb_remote_asset.Time.{Time, Timestamp}
use bb_remote_asset.Storage.Messages.{
  ProtoDigest, DigestFunctionValue, AssetType, Asset, Directory, Tree, ActionResult, Message,
}

pub record Libraries : Type 1 where
  -- pkg/digest
  pub InstanceName : Type 0
  pub Function : Type 0
  pub Digest : Type 0
  pub Generator : Type 0
  pub new_instance_name : String → Result InstanceName
  pub get_digest_function : InstanceName → DigestFunctionValue → ℕ → Result Function
  pub get_instance_name : Function → InstanceName
  pub new_digest_from_proto : Function → Option ProtoDigest → Result Digest
  pub get_proto : Digest → ProtoDigest
  pub zero_digest : Digest
  pub new_generator : Function → ℤ → Generator
  -- pkg/blobstore/buffer
  pub Bytes : Type 0
  pub Buffer : Type 0
  pub write : Generator → Bytes → Result Generator
  pub sum : Generator → Digest
  pub new_proto_buffer : Message → Buffer
  pub get_size_bytes : Buffer → Result ℕ
  pub to_byte_slice : Buffer → ℕ → Result Bytes
  pub to_asset : Buffer → ℕ → Result Asset
  pub to_action_result : Buffer → ℕ → Result ActionResult
  pub to_directory : Buffer → ℕ → Result Directory
  pub to_tree : Buffer → ℕ → Result Tree
  -- pkg/util: StatusWrap and StatusWrapWithCode
  pub status_wrap : Error → String → Error
  pub status_wrap_with_code : Error → Code → String → Error
  -- google.golang.org/grpc/status: s.WithDetails of a BadRequest
  pub with_details : Status → List FieldViolation → Result Status
  -- google.golang.org/protobuf/types/known/timestamppb; AsTime reads nil as the epoch
  pub as_time : Option Timestamp → Time
  pub check_valid : Timestamp → Result (Unit {0})
  pub new_timestamp : Time → Timestamp
  -- texts of errors, times and quoted strings, as `%v` and `%#v` print them
  pub error_text : Error → String
  pub time_text : Time → String
  pub quoted : String → String
  pub type_text : AssetType → String

-- pkg/blobstore.BlobAccess, over the digests and buffers of the libraries.
pub record BlobAccess (Digest Buffer W : Type 0) : Type 0 where
  pub get : Digest → Exec W Buffer
  pub put : Digest → Buffer → Exec W (Unit {0})

-- pkg/auth.Authorizer, asked about a single instance name.
pub record Authorizer (InstanceName W : Type 0) : Type 0 where
  pub authorize : InstanceName → Exec W (Unit {0})
