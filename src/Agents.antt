-- ===== src/Agents.antt =====
-- holonbridge/agents: calls to external agents.
pub mod Model
pub mod Policy
pub mod Ledger
pub mod Service
pub mod Sending
pub mod Request
pub mod Dispatch
pub mod System
