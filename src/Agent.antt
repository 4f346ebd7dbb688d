-- ===== src/Agent.antt =====
-- agent/pkg/status: what decides when an agent sends its bundles.
pub mod HybridSync
pub mod StatusBundle
pub mod StatusSync
pub mod Sends
