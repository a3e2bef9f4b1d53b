-- ===== src/Storage.antt =====
-- pkg/storage: assets, the references under which they are stored, and the asset stores.
pub mod Messages
pub mod Libraries
pub mod Reference
pub mod Asset
pub mod Digest
pub mod Store
pub mod Trace
pub mod BlobStore
pub mod AssetBlobs
pub mod Authorizing
pub mod ActionCache
