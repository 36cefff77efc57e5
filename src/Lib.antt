-- ===== src/Lib.antt =====
-- Moon Bridge: a server that takes requests in one protocol of language models, chooses an upstream
-- provider for the model that they name, and keeps state between them. This library models the core of
-- the Go program under internal/ and proves what makes it correct.
--
-- The parts, and how they meet. A request names a model: ModelRef (internal/modelref/modelref.go)
-- reads the name, and Provider (internal/service/provider/manager.go and config.go) resolves it to an
-- ordered list of candidates, from a reverse index that is built when the configuration is loaded or
-- reloaded. A request also belongs to a session: Session (internal/service/server/session.go,
-- internal/service/server/session/manager.go, internal/session/session.go) finds or makes it, and
-- evicts sessions that are stale or too many. For Anthropic upstreams, Cache
-- (internal/protocol/cache/planner.go and exported.go) plans which parts of the prompt are to be
-- cached, with a registry of what is warm. For DeepSeek, Thinking
-- (internal/extension/deepseek_v4/state.go) keeps the thinking blocks that later turns must repeat.
-- Database (internal/db/registry.go, store.go) starts the persistence of the plugins that ask for it,
-- and Adapters (internal/format/registry.go) finds the adapter of a protocol. Format
-- (internal/format/types.go) is the core that the adapters convert from and to, and Anthropic
-- (internal/protocol/anthropic/adapter.go, types.go and cache.go) the adapter of the Messages API: it
-- converts a core request, has its cache planned by Cache, and converts the response or the stream.
-- Chat (internal/protocol/chat/adapter.go and types.go) is the adapter of Chat Completions. Plugins
-- (internal/extension/plugin/registry.go) dispatches to the extensions, and builds the hooks through
-- which the adapters call them.
--
-- The files. Prelude holds the shared vocabulary: a Go map is an association list (Prelude.GoMap) with
-- one entry to a key, in the order in which a `range` loop happens to visit it, and Go's int is
-- Prelude.Int where it may be negative. Cache.Registry, Cache.Select and Cache.Planner hold the
-- functions of planner.go, one for each Go function or loop, and the modules below them their proofs.
-- Provider.Order is the order of the candidates, Provider.Manager the state of `ProviderManager` with
-- its construction and `Reload`, Provider.Resolve its lookups. Session is `InMemoryManager`,
-- Session.Request what the server does with the headers of a request, and Session.Request.Isolation
-- runs of the server as lists of steps. Thinking.Records is one of the two bounded maps of `State`,
-- Thinking.Stream is `StreamState`; Database.Tables is store.go, Database is registry.go. Format.Json
-- stands for Go's `any` where it holds JSON, Format.Blocks, Format.Messages and Format.Events hold the
-- types, and Format.Strip the removal of images from texts. Anthropic.Types is types.go,
-- Anthropic.Caching is cache.go, and Anthropic.Blocks, Anthropic.Schema, Anthropic.Request,
-- Anthropic.Compat, Anthropic.Response and Anthropic.Stream are the parts of adapter.go, the modules
-- below them their proofs; Chat.Types, Chat.Request, Chat.Response, Chat.Choice and Chat.Stream
-- likewise. Plugins is the registry with its dispatch, Plugins.Hooks the hooks; what a hook is given by
-- its address, it gives back changed. Names are those of the Go functions, in snake case.
--
-- State and time. A method that locks is one step from state to state. Times and durations are
-- nanoseconds, as natural numbers, and `time.Now()` is an argument; the zero time is 0. A pointer to a
-- session is its number, which counts the sessions made before it. Integers are unbounded: no count
-- here comes near the bounds of a 64-bit integer.
--
-- Fuel. `itoa` has the 20 bytes of its buffer, enough for a 64-bit number. The loop that evicts
-- sessions has as many rounds as there are sessions, enough because each round removes one. The loop
-- of `StripImageData` has as many rounds as the text has characters, enough because each round leaves
-- a shorter text. All other loops are by structure.
--
-- Parameters. SHA-256 with its hexadecimal form, the data that plugins keep in a session, the random
-- identifier of an ephemeral session, and what databases and consumers answer: an error or none. For
-- Anthropic also the hashes and the estimates of tokens of encoded requests, the parsing of durations
-- by `time` and `fmt`, for Chat the JSON form of a text, and what plugins do. Floating-point settings
-- are only passed on.
--
-- Not modelled: HTTP clients and handlers, the encoding of JSON, the databases and their drivers,
-- logging and tracing, the adapters of the other protocols, the other extensions, the management API,
-- the desktop launcher and the scripts. They are I/O or conversions between formats.
pub mod Prelude
pub mod ModelRef
pub mod Cache
pub mod Provider
pub mod Session
pub mod Thinking
pub mod Database
pub mod Adapters
pub mod Format
pub mod Anthropic
pub mod Chat
pub mod Plugins
