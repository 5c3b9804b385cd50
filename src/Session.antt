-- ===== src/Session.antt =====
-- A session over several providers, sdk/sdk-core/src/byo: which vaults are opened and saved, and when a
-- provider is asked again.
pub mod Plans
pub mod Monitor
