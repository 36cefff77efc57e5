-- ===== src/Provider.antt =====
-- internal/service/provider: the provider manager. `Manager` is its state and construction,
-- `Resolve` the resolution of model names, and the modules below hold the proofs.
pub mod Order
pub mod Manager
pub mod Resolve
mod Tests
