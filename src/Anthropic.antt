-- ===== src/Anthropic.antt =====
-- internal/protocol/anthropic: the conversion between the core and the Messages API of Anthropic.
-- `Types` is types.go, `Caching` is cache.go, and the others are parts of adapter.go: `Blocks` the
-- content blocks, `Schema` the cleaning of tool schemas, `Request` and `Response` the two directions of
-- a call, `Compat` the way from a request of the API to the core, `Stream` the conversion of a stream.
pub mod Types
pub mod Blocks
pub mod Schema
pub mod Caching
pub mod Request
pub mod Compat
pub mod Response
pub mod Stream
mod Tests
