-- ===== src/Cache.antt =====
-- internal/protocol/cache: the prompt cache. `Registry` is the in-memory registry of planner.go,
-- `Select` the choice of message breakpoints, `Planner` the planner, and the modules below them
-- hold their proofs.
pub mod Registry
pub mod Select
pub mod Planner
mod Tests
