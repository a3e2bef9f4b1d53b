-- ===== src/Storage/Messages.antt =====
-- The messages that the stores read and write: those of pkg/proto/asset, and the fields of the
-- remote execution messages that the program touches. `unread` stands for the fields that it
-- passes on without looking at them. A nil message is `none`.
use bb_remote_asset.Prelude.{ℕ, String, Option, List}
use bb_remote_asset.Prelude.Int.{ℤ}
use bb_remote_asset.Time.{Timestamp}
use bb_remote_asset.Qualifier.{Qualifier}
use bb_remote_asset.Qualifier.Translator.{Platform, Command}

-- build.bazel.remote.execution.v2.Digest
pub record ProtoDigest : Type 0 where
  pub hash : String
  pub size_bytes : ℤ

-- DigestFunction.Value; an enum of proto3 may hold a number without a name.
pub data DigestFunctionValue : Type 0 where
  unknown sha256 sha1 md5 vso sha384 sha512 murmur3 sha256tree blake3 : DigestFunctionValue
  unnamed : ℕ → DigestFunctionValue

pub data AssetType : Type 0 where
  blob directory : AssetType
  other : ℕ → AssetType

pub record AssetReference : Type 0 where
  pub uris : List String
  pub qualifiers : List Qualifier

pub record Asset : Type 0 where
  pub digest : Option ProtoDigest
  pub expire_at : Option Timestamp
  pub last_updated : Option Timestamp
  pub type : AssetType

-- FileNode and DirectoryNode
pub record Node : Type 0 where
  pub name : String
  pub digest : Option ProtoDigest
  pub unread : String

pub record Directory : Type 0 where
  pub files : List Node
  pub directories : List Node
  pub unread : String

pub record Tree : Type 0 where
  pub root : Option Directory
  pub children : List Directory

pub record Action : Type 0 where
  pub command_digest : ProtoDigest
  pub input_root_digest : ProtoDigest
  pub platform : Option Platform

pub record OutputFile : Type 0 where
  pub path : String
  pub digest : Option ProtoDigest

pub record OutputDirectory : Type 0 where
  pub path : String
  pub tree_digest : Option ProtoDigest
  pub root_directory_digest : Option ProtoDigest

pub record ExecutionMetadata : Type 0 where
  pub queued_timestamp : Option Timestamp

pub record ActionResult : Type 0 where
  pub output_files : List OutputFile
  pub output_directories : List OutputDirectory
  pub exit_code : ℤ
  pub execution_metadata : Option ExecutionMetadata

-- What is serialised.
pub data Message : Type 0 where
  reference : AssetReference → Message
  asset : Asset → Message
  directory : Directory → Message
  tree : Tree → Message
  command : Command → Message
  action : Action → Message
  action_result : ActionResult → Message
