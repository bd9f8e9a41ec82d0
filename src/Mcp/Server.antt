-- ===== src/Mcp/Server.antt =====
-- services/chamicore-mcp/internal/server: sessions, the tool contract, and calls over JSON-RPC.
pub mod Session
pub mod Contract
pub mod Calls
pub mod Results
pub mod Http
pub mod Tests
