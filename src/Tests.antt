-- ===== src/Tests.antt =====
-- The theorems at concrete inputs.
mod World
mod Qualifiers
mod Stores
mod ActionCache
mod Fetches
mod Decorators
mod Pushes
mod Configurations
mod Executions
mod Https
mod Downloads
mod Files
mod Servers
