-- ===== src/Security/Gateway.antt =====
-- gateway.py
pub mod Ids
pub mod Config
pub mod Action
pub mod Loading
pub mod Policy
pub mod Decisions
pub mod Tools
pub mod Mcp
