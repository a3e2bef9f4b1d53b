-- ===== src/Fetch.antt =====
-- pkg/fetch: the fetchers, each of which may wrap another.
pub mod Interface
pub mod Utils
pub mod ErrorFetcher
pub mod Authorizing
pub mod Validating
pub mod Caching
pub mod Logging
pub mod Metrics
pub mod Supported
pub mod Http
pub mod RemoteExecution
