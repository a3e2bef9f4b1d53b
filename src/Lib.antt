-- ===== src/Lib.antt =====
-- Verification of bb-remote-asset, a server of the Remote Asset API: clients push assets under URIs
-- and qualifiers, and fetch them again or have them fetched.
--
-- A request passes a stack of fetchers (pkg/fetch), each of which wraps the next; the caching one
-- asks an asset store (pkg/storage) before the fetcher below it. A store is asked by a reference,
-- which is made of the URIs and qualifiers (pkg/qualifier).
--
-- The files, and the code that they model:
-- - Prelude: shared lists, texts, integers and the sort. Prelude.Effect: a Go function that returns
--   `(value, error)` on a world; the world stands for all that is reached by interfaces. A panic
--   (a nil that is dereferenced, an index out of range) is an outcome of its own.
-- - Time: time.Time as an instant and a location, both of which `==` compares.
-- - Qualifier.Set, Qualifier.Sorter, Qualifier.Translator: pkg/qualifier. The keys of a Go map are
--   a list, whose order stands for that of a `range`.
-- - Storage.Messages: pkg/proto/asset/asset.proto, and the fields of remote execution messages that
--   are read or written. Storage.Libraries: the code of other repositories, as one record of
--   parameters. Storage.Reference, Asset, Digest, Store: pkg/storage/asset_reference.go, asset.go,
--   digest.go and asset_store.go, with IsAssetMap as the specification of a store, and Storage.Trace
--   as that of sequences of calls.
-- - Storage.BlobStore: pkg/storage/blob_access_asset_store.go. Storage.Authorizing:
--   pkg/storage/authorizing_asset_store.go. Storage.AssetBlobs: pkg/storage/blobstore, which tells
--   bb-storage how to keep assets.
-- - Storage.ActionCache, with Key (assetReferenceToAction) and Value (assetToActionResult,
--   actionResultToAsset, directoryToTree): pkg/storage/action_cache_asset_store.go.
-- - Fetch.Interface, ErrorFetcher, Utils: pkg/fetch/fetcher.go, error_fetcher.go, utils.go.
--   Fetch.Validating, Authorizing, Logging, Metrics, Caching: the decorators in the files of
--   those names. Fetch.Supported: CheckQualifiers of pkg/fetch/http_fetcher.go and
--   remote_execution_fetcher.go.
-- - Fetch.Http: pkg/fetch/http_fetcher.go, with Checksum (getChecksumSri), Headers (getAuthHeaders,
--   and auth_headers.go), Download (downloadBlob, temporaryFile) and Client, the parameters: the
--   HTTP client, files, buffers and the log. Prelude.Base64 and Prelude.Decimal are what it uses
--   of encoding/base64, encoding/hex and strconv.
-- - Fetch.RemoteExecution: pkg/fetch/remote_execution_fetcher.go. The execution client is a
--   parameter, of which RemoteExecution.Client says what is read.
-- - Configuration: pkg/configuration/new_fetcher.go. Configuration.Store:
--   pkg/configuration/new_asset_store.go. Server: cmd/bb_remote_asset/main.go, up to the servers
--   that are registered. What other code makes of parts of the configuration is a parameter.
-- - Push, with Stored and Served: pkg/push/push_server.go and error_push_server.go. Push.Metrics:
--   pkg/push/metrics_push_server.go.
-- - Tests: libraries and worlds in memory, on which the theorems are applied.
--
-- Sorting in place: NewAssetReference sorts the slices it is given. The model passes the sorted
-- list on where the code reads the slice again (the qualifiers in assetReferenceToAction, both
-- slices in the loop of a push); what a call leaves in a slice that a decorator reads after it (the
-- URIs in the log, the qualifiers in the metrics of a push) is a parameter.
--
-- Bounds: `stack` of the action cache store is how deep calls may nest; beyond it the program
-- crashes, as Go does. A directory tree no deeper than it is traversed in full. Printing a number
-- runs on fuel of one more than the number, which is no less than the digits it has. Bodies and
-- streams of operations are finite: one that never ends blocks the request for ever.
--
-- Not modelled: the reading of JSON (the legacy qualifier bazel.auth_headers), which is a parameter;
-- the canonical form that the transport gives to header names; the life of the process once it
-- serves; generated code. Of what the Go library, bb-storage and gRPC do only the named hypotheses
-- are used. Contexts, and so cancellation, are left out: what they cause is an error of the
-- call that is cancelled.
pub mod Configuration
pub mod Dict
pub mod Fetch
pub mod Prelude
pub mod Push
pub mod Qualifier
pub mod Server
pub mod Storage
pub mod Tests
pub mod Time
