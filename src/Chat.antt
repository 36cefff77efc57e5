-- ===== src/Chat.antt =====
-- internal/protocol/chat: the conversion between the core and OpenAI Chat Completions. `Types` is
-- types.go; the others are parts of adapter.go: `Request` and `Response` the two directions
-- of a call, `Choice` and `Stream` the conversion of a stream.
pub mod Types
pub mod Request
pub mod Response
pub mod RoundTrip
pub mod Choice
pub mod Stream
mod Tests
