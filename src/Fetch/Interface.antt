-- ===== src/Fetch/Interface.antt =====
-- pkg/fetch/fetcher.go: the interface of a fetcher, and the messages of the Remote Asset API that
-- it speaks, with the fields that the program reads or writes.
use bb_remote_asset.Prelude.{String, Option, List, []}
use bb_remote_asset.Prelude.Effect.{Code, Status, Exec}
use bb_remote_asset.Time.{Timestamp}
use bb_remote_asset.Qualifier.{Qualifier}
use bb_remote_asset.Qualifier.Set.{NameSet}
use bb_remote_asset.Storage.Messages.{ProtoDigest, DigestFunctionValue}

-- FetchBlobRequest and FetchDirectoryRequest have the same fields.
pub record FetchRequest : Type 0 where
  pub instance_name : String
  pub digest_function : DigestFunctionValue
  pub uris : List String
  pub qualifiers : List Qualifier
  pub oldest_content_accepted : Option Timestamp

pub record FetchBlobResponse : Type 0 where
  pub status : Option Status
  pub uri : String
  pub qualifiers : List Qualifier
  pub blob_digest : Option ProtoDigest

pub record FetchDirectoryResponse : Type 0 where
  pub status : Option Status
  pub uri : String
  pub qualifiers : List Qualifier
  pub root_directory_digest : Option ProtoDigest

-- `Fetcher`
pub record Fetcher (W : Type 0) : Type 0 where
  pub fetch_blob : FetchRequest → Exec W FetchBlobResponse
  pub fetch_directory : FetchRequest → Exec W FetchDirectoryResponse
  pub check_qualifiers : NameSet → NameSet

-- status.New(codes.OK, message).Proto()
abbrev pub ok_status : String → Status
ok_status m = record { code = Code.ok; message = m; details = [] }
