-- ===== src/Mcp.antt =====
-- services/chamicore-mcp: the policy that every tool call passes, the session behind it, and the
-- JSON-RPC entry point that applies them.
pub mod Value
pub mod Policy
pub mod Server
pub mod Audit
