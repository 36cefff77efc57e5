-- ===== src/Format.antt =====
-- internal/format/types.go: the protocol-agnostic core, which every adapter converts from and to.
-- `Json` stands for Go's `any` where it holds decoded JSON, `Blocks` for content, `Messages` for requests
-- and responses, `Events` for streams.
pub mod Json
pub mod Blocks
pub mod Messages
pub mod Events
pub mod Strip
mod Tests
