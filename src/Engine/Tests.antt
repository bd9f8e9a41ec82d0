-- ===== src/Engine/Tests.antt =====
-- The engine on concrete inputs.
pub mod Sequences
pub mod Runs
pub mod Workers
pub mod Queues
