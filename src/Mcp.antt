-- ===== src/Mcp.antt =====
-- Tool calls of agents: src/modules/mcp.
pub mod Throttle
pub mod Stuck
pub mod Pipeline
