-- ===== src/Conformance.antt =====
-- The repository's unit tests, run on the model: a test is what it asserts, one after the other.
pub mod Asserts
pub mod Caches
pub mod Graphs
pub mod Bodies
pub mod Responses
pub mod Crawls
pub mod Configs
pub mod Domain
pub mod Requests
pub mod Api
pub mod Nesting
pub mod Tokens
