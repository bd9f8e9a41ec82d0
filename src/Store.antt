-- ===== src/Store.antt =====
-- services/chamicore-power/internal/store: the tables of the power service and what is done to them.
pub mod Table
pub mod Mappings
pub mod Transitions
pub mod Tests
