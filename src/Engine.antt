-- ===== src/Engine.antt =====
-- services/chamicore-power/internal/engine: the runner that carries out power transitions.
pub mod Errors
pub mod Config
pub mod Backoff
pub mod Retry
pub mod Types
pub mod Progress
pub mod Queue
pub mod Limiter
pub mod System
pub mod Verify
pub mod Redfish
pub mod Tasks
pub mod Start
pub mod Tests
