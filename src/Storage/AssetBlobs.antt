-- ===== src/Storage/AssetBlobs.antt =====
-- pkg/storage/blobstore: how bb-storage is told to keep assets. What it provides for it is a
-- parameter.
use bb_remote_asset.Prelude.{ℕ, String, Bool, false, not, none, nat_eq, if◌then◌else◌}
use bb_remote_asset.Prelude.Int.{ℤ, pos, negsuc}
use bb_remote_asset.Prelude.Effect.{Code, ok, Result, err, status_error}
use bb_remote_asset.Storage.Libraries.{Libraries, BlobAccess}

-- io.SectionReader on a range of a file, with the Close of the file.
pub record SectionReader (ReadAtCloser : Type 0) : Type 0 where
  pub reader_at : ReadAtCloser
  pub offset : ℕ
  pub size : ℕ
  pub closer : ReadAtCloser

pub record BlobStoreLibrary (l : Libraries) : Type 1 where
  pub ReadCloser : Type 0
  pub ReadAtCloser : Type 0
  pub DataIntegrityCallback : Type 0
  pub KeyFormat : Type 0
  pub BlockListGrowthPolicy : Type 0
  pub Provider : Type 0
  pub BlobAccessInfo : Type 0
  pub BlobReplicator : Type 0
  -- digest.KeyWithInstance
  pub key_with_instance : KeyFormat
  -- buffer.NewProtoBufferFromByteSlice and buffer.NewProtoBufferFromReader of an Asset, whose data
  -- the backend provides
  pub asset_buffer_from_byte_slice : l.Bytes → DataIntegrityCallback → l.Buffer
  pub asset_buffer_from_reader : ReadCloser → DataIntegrityCallback → l.Buffer
  pub read_closer : SectionReader ReadAtCloser → ReadCloser
  -- capabilities.NewStaticProvider of capabilities without anything in them
  pub empty_provider : Provider
  -- local.NewMutableBlockListGrowthPolicy
  pub new_mutable_block_list_growth_policy : ℤ → BlockListGrowthPolicy

module _ (l : Libraries) (b : BlobStoreLibrary l) where
  -- blobstore.ReadBufferFactory
  pub record ReadBufferFactory : Type 0 where
    pub new_buffer_from_byte_slice : l.Digest → l.Bytes → b.DataIntegrityCallback → l.Buffer
    pub new_buffer_from_reader : l.Digest → b.ReadCloser → b.DataIntegrityCallback → l.Buffer
    pub new_buffer_from_reader_at :
        l.Digest → b.ReadAtCloser → ℤ → b.DataIntegrityCallback → l.Buffer

  -- `newReaderFromReaderAt`; the size is math.MaxInt64.
  unfoldable pub new_reader_from_reader_at : b.ReadAtCloser → b.ReadCloser
  new_reader_from_reader_at r =
      b.read_closer (record { reader_at = r; offset = 0; size = 9223372036854775807; closer = r })

  -- `AssetReadBufferFactory`
  unfoldable pub asset_read_buffer_factory : ReadBufferFactory
  unfolding new_reader_from_reader_at
  asset_read_buffer_factory = record {
    new_buffer_from_byte_slice =
        λ digest bytes callback. b.asset_buffer_from_byte_slice bytes callback;
    new_buffer_from_reader = λ digest r callback. b.asset_buffer_from_reader r callback;
    new_buffer_from_reader_at = λ digest r size_bytes callback.
        b.asset_buffer_from_reader (new_reader_from_reader_at r) callback;
  }

  -- configuration.BlobReplicatorCreator
  pub record BlobReplicatorCreator : Type 0 where
    pub get_digest_key_format : b.KeyFormat
    pub new_custom_blob_replicator : Result b.BlobReplicator
    pub get_storage_type_name : String

  -- `AssetBlobReplicatorCreator`
  unfoldable pub asset_blob_replicator_creator : BlobReplicatorCreator
  asset_blob_replicator_creator = record {
    get_digest_key_format = b.key_with_instance;
    new_custom_blob_replicator =
        err none (
          status_error Code.invalid_argument
            "Configuration did not contain a supported replicator");
    get_storage_type_name = "asset";
  }

  abbrev is_one : ℤ → Bool
  is_one (pos n) = nat_eq n 1
  is_one (negsuc n) = false

  -- `NewBlockListGrowthPolicy`
  unfoldable pub new_block_list_growth_policy : ℤ → ℤ → Result b.BlockListGrowthPolicy
  new_block_list_growth_policy current_blocks new_blocks =
      if not (is_one new_blocks)
      then err none (
          status_error Code.invalid_argument
            "The number of \"new\" blocks must be set to 1 for this storage type, as objects cannot be updated reliably otherwise")
      else ok (b.new_mutable_block_list_growth_policy current_blocks)

  -- configuration.BlobAccessCreator, over the blob stores in a world.
  pub record BlobAccessCreator (W : Type 0) : Type 0 where
    pub replicator_creator : BlobReplicatorCreator
    pub get_base_digest_key_format : b.KeyFormat
    pub get_read_buffer_factory : ReadBufferFactory
    pub get_storage_type_name : String
    pub new_custom_blob_access : Result (b.BlobAccessInfo × String)
    pub wrap_top_level_blob_access : BlobAccess l.Digest l.Buffer W → BlobAccess l.Digest l.Buffer W
    pub get_default_capabilities_provider : b.Provider
    pub new_block_list_growth_policy : ℤ → ℤ → Result b.BlockListGrowthPolicy
    pub new_hierarchical_instance_names_local_blob_access : Result (BlobAccess l.Digest l.Buffer W)

  -- `NewAssetBlobAccessCreator`, without the fields that it keeps and does not read.
  unfoldable pub new_asset_blob_access_creator : {W : Type 0} → BlobAccessCreator W
  unfolding asset_read_buffer_factory asset_blob_replicator_creator new_block_list_growth_policy
  new_asset_blob_access_creator = record {
    replicator_creator = asset_blob_replicator_creator;
    get_base_digest_key_format = b.key_with_instance;
    get_read_buffer_factory = asset_read_buffer_factory;
    get_storage_type_name = "asset";
    new_custom_blob_access = err none (
        status_error Code.invalid_argument
          "Configuration did not contain a supported storage backend");
    wrap_top_level_blob_access = λ blob_access. blob_access;
    get_default_capabilities_provider = b.empty_provider;
    new_block_list_growth_policy = new_block_list_growth_policy;
    new_hierarchical_instance_names_local_blob_access = err none (
        status_error Code.unimplemented
          "NewHierarchicalInstanceNamesLocalBlobAccess unimplemeted for assetBlobAccessCreator");
  }
