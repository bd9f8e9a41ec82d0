-- ===== src/Server.antt =====
-- services/chamicore-power/internal/server: the handlers of transitions, actions and power status, with
-- the targets of a request and the pages of a list.
pub mod Targets
pub mod Pagination
pub mod Transitions
pub mod Status
pub mod Tests
